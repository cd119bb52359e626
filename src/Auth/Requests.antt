-- ===== src/Auth/Requests.antt =====
-- auth.ts, authenticateRequest: who sent a request. The store of challenges is an interface, the
-- instant an argument; logging is left out.
pub mod Headers
pub mod Outcomes
pub mod Replays
pub mod Figures
use ourdao_backend.Common.{
  ℕ, String, Bool, true, false, Option, none, some, List, [], ◌∷◌, if◌then◌else◌, ◌==◌, ◌!==◌, not,
  string_eq,
}
use ourdao_backend.Common.Split.{strip_prefix, split}
use ourdao_backend.Auth.Failures.{AuthFailureTracker, record_success}
use ourdao_backend.Auth.Stores.{NonceStore}
use ourdao_backend.Auth.Signatures.{
  StellarSdk, AuthStats, SignatureResult, verify_signature, count_failed, one_missing,
  one_address_mismatch,
}

-- `{ address, signature, nonce }`
abbrev pub AuthHeaders : Type 0
AuthHeaders = String × String × String

-- exactly three parts
unfoldable pub three_parts : List String → Option AuthHeaders
three_parts (address ∷ signature ∷ nonce ∷ []) = some (address, signature, nonce)
three_parts _ = none

unfoldable pub split_credentials : Option String → Option AuthHeaders
unfolding three_parts split
split_credentials none = none
split_credentials (some credentials) = three_parts (split ":" credentials)

-- `headers['authorization']`, where none is a value that is not a string; all three are null or none
-- is
unfoldable pub extract_auth_headers : Option String → Option AuthHeaders
unfolding split_credentials strip_prefix
extract_auth_headers none = none
extract_auth_headers (some auth_header) =
    split_credentials (strip_prefix "StellarSignature " auth_header)

-- `!value`, of a string
unfoldable pub is_empty : String → Bool
is_empty s = s == ""

-- the three headers, none of them empty
unfoldable pub present : Option AuthHeaders → Option AuthHeaders
unfolding is_empty
present none = none
present (some (address, signature, nonce)) =
    if is_empty address
    then none
    else if is_empty signature
    then none
    else if is_empty nonce
    then none
    else some (address, signature, nonce)

pub data AuthResult : Type 0 where
  refused : ℕ → String → AuthResult
  authenticated : String → String → AuthResult

-- what a request reads and changes
pub record AuthState (S : Type 0) : Type 0 where
  pub nonces : S
  pub stats : AuthStats
  pub failure_tracker : Option AuthFailureTracker

-- `failureTracker?.recordSuccess(address)`
unfoldable pub forget_failures : String → Option AuthFailureTracker → Option AuthFailureTracker
forget_failures address none = none
forget_failures address (some t) = some (record_success address t)

-- `targetAddress && targetAddress !== address`
unfoldable pub is_mismatch : Option String → String → Bool
unfolding is_empty
is_mismatch none address = false
is_mismatch (some target) address = if is_empty target then false else target !== address

abbrev mismatch_message : String
mismatch_message = "Cannot modify notifications for another address"

module _ {S : Type 0} where
  -- the second check of the target address, and the end
  unfoldable pub check_target_again :
      Option String → String → String → AuthState S → AuthResult × AuthState S
  unfolding is_mismatch forget_failures count_failed
  check_target_again target address ed25519_address s =
      if is_mismatch target address
      then (
        AuthResult.refused 403 mismatch_message,
        record s { stats = count_failed one_address_mismatch s.stats },
      )
      else (
        AuthResult.authenticated address ed25519_address,
        record s { failure_tracker = forget_failures address s.failure_tracker },
      )

  unfoldable pub check_target :
      Option String → String → String → AuthState S → AuthResult × AuthState S
  unfolding check_target_again is_mismatch
  check_target target address ed25519_address s =
      if is_mismatch target address
      then (AuthResult.refused 403 mismatch_message, s)
      else check_target_again target address ed25519_address s

  unfoldable pub after_consume :
      Option String → String → String → Bool × S → AuthState S → AuthResult × AuthState S
  unfolding check_target
  after_consume target address ed25519_address (nonce_valid, nonces) s =
      if not nonce_valid
      then (AuthResult.refused 401 "Invalid or expired nonce", record s { nonces = nonces })
      else check_target target address ed25519_address (record s { nonces = nonces })

  unfoldable pub after_signature :
      NonceStore S
      → ℕ
      → Option String
      → String
      → String
      → SignatureResult × AuthStats
      → AuthState S
      → AuthResult × AuthState S
  unfolding after_consume
  after_signature store now target address nonce (SignatureResult.bad status error, stats) s =
      (AuthResult.refused status error, record s { stats = stats })
  after_signature store now target address nonce (SignatureResult.good key, stats) s =
      after_consume target address key (store.consume now address nonce s.nonces)
        (record s { stats = stats })

  unfoldable pub after_headers :
      StellarSdk
      → NonceStore S
      → ℕ
      → Option String
      → Option AuthHeaders
      → AuthState S
      → AuthResult × AuthState S
  unfolding after_signature count_failed
  after_headers sdk store now target none s = (
    AuthResult.refused 401 "Missing authentication headers",
    record s { stats = count_failed one_missing s.stats },
  )
  after_headers sdk store now target (some (address, signature, nonce)) s =
      after_signature store now target address nonce
        (verify_signature sdk address nonce signature s.stats) s

  unfoldable pub authenticate_request :
      StellarSdk
      → NonceStore S
      → ℕ
      → Option String
      → Option String
      → AuthState S
      → AuthResult × AuthState S
  unfolding extract_auth_headers present after_headers
  authenticate_request sdk store now auth_header target s =
      after_headers sdk store now target (present (extract_auth_headers auth_header)) s
