-- ===== src/Examples/Requests.antt =====
-- Requests that sign a challenge, against both stores.
use ourdao_backend.Common.{
  ◌-◌, ◌+◌, ℕ, zero, suc, String, Bool, true, false, Option, none, some, List, [], ◌∷◌, ◌≤◌, ◌≡◌,
  ◌≢◌, refl, ok, arith, string_eq, ◌==◌, ap,
}
use ourdao_backend.Common.Table.{Table, lookup, put, has, sum_of, IsUnique}
use ourdao_backend.Common.{◌↔◌}
use ourdao_backend.Common.Split.{IsFree, strip_prefix, split, cons_first}
use ourdao_backend.Auth.Nonces.{NonceEntry, NonceConfig, MemoryNonceStore, max_nonces_per_address}
use ourdao_backend.Auth.Nonces
use ourdao_backend.Auth.Postgres
use ourdao_backend.Auth.Postgres.{total, address_total}
use ourdao_backend.Auth.Postgres.Limits.{issue-IsWithin}
use ourdao_backend.Auth.Postgres.Agreement.{SameVerdict, consume-Agrees}
use ourdao_backend.Auth.Stores.{memory_store}
use ourdao_backend.Auth.Signatures.{
  StellarSdk, AuthStats, classify_stellar_address, signed_payload, judge, verify_bytes,
  verify_muxed, verify_as, verify_signature, count_failed,
}
use ourdao_backend.Auth.Signatures.Keys.{IsKeyOf, IsSigned}
use ourdao_backend.Auth.Requests.{
  AuthResult, AuthState, extract_auth_headers, three_parts, split_credentials, is_empty, present,
  is_mismatch, forget_failures, check_target, check_target_again, after_consume, after_signature,
  after_headers, authenticate_request,
}
use ourdao_backend.Auth.Requests.Headers.{auth_header_of, extract_auth_headers_iff}
use ourdao_backend.Auth.Requests.Outcomes.{
  IsUntouched, authenticate_request-IsProved, authenticate_request-IsUntouched,
}
use ourdao_backend.Auth.Requests.Replays.{Call, answer, serve, authenticate_request-once}

abbrev zeros : ℕ → List ℕ
zeros zero = []
zeros (suc n) = 0 ∷ zeros n

-- an SDK that knows one address and one signature of it
abbrev sdk : StellarSdk
sdk = record {
  is_valid_ed25519_public_key = λ a. a == "GA";
  is_valid_med25519_public_key = λ a. false;
  is_valid_contract = λ a. a == "CA";
  base_account_id = λ a. none;
  from_base64 = λ s. if_sig (s == "sig");
  verify = λ key payload bytes. some (payload == "n1:GA");
}
  where
    if_sig : Bool → List ℕ
    if_sig true = zeros 64
    if_sig false = []

abbrev entry : NonceEntry
entry = record { address = "GA"; expires_at = 301000 }

abbrev rows : Table String NonceEntry
rows = ("n1", entry) ∷ []

abbrev one : MemoryNonceStore
one = record { store = rows; address_issue_counts = ("GA", 1) ∷ [] }

abbrev no_stats : AuthStats
no_stats = record {
  challenges_issued = 0;
  verifications_succeeded = 0;
  verifications_failed = record {
    missing_headers = 0;
    invalid_nonce = 0;
    invalid_signature = 0;
    address_mismatch = 0;
    malformed_encoding = 0;
    unsupported_address_type = 0;
  };
}

abbrev start : AuthState MemoryNonceStore
start = record { nonces = one; stats = no_stats; failure_tracker = none }

abbrev header : Option String
header = some "StellarSignature GA:sig:n1"

abbrev request : Call
request = record { now = 2000; auth_header = header; target = some "GA" }

passes :
    (authenticate_request sdk memory_store 2000 header (some "GA") start).0
    ≡ AuthResult.authenticated "GA" "GA"
unfolding extract_auth_headers split_credentials three_parts strip_prefix split cons_first is_empty
    present is_mismatch forget_failures check_target check_target_again after_consume
    after_signature after_headers authenticate_request classify_stellar_address signed_payload judge
    verify_bytes verify_muxed verify_as verify_signature count_failed memory_store Nonces.consume
    Nonces.consume_entry lookup
passes = refl

authenticate_request-IsProved_example :
    (signature : String) × (nonce : String) × (extract_auth_headers header
      ≡ some ("GA", signature, nonce))
    × IsKeyOf sdk "GA" "GA"
    × IsSigned sdk "GA" "GA" nonce signature
    × ((memory_store.consume 2000 "GA" nonce one).0 ≡ true)
    × (is_mismatch (some "GA") "GA" ≡ false)
    × ((authenticate_request sdk memory_store 2000 header (some "GA") start).1.nonces
        ≡ (memory_store.consume 2000 "GA" nonce one).1)
authenticate_request-IsProved_example =
    authenticate_request-IsProved sdk memory_store 2000 header (some "GA") start passes

authenticate_request-IsUntouched_example :
    IsUntouched sdk memory_store 2000 header start
      (authenticate_request sdk memory_store 2000 header none start).1.nonces
authenticate_request-IsUntouched_example =
    authenticate_request-IsUntouched sdk memory_store 2000 header none start

-- sent again, for no target
abbrev replayed : Call
replayed = record { now = 2500; auth_header = header; target = none }

header_parts : extract_auth_headers header ≡ some ("GA", "sig", "n1")
unfolding extract_auth_headers split_credentials three_parts strip_prefix split cons_first
header_parts = refl

authenticate_request-once_example :
    (answer sdk memory_store replayed
      (serve sdk memory_store (replayed ∷ []) (answer sdk memory_store request start).1)).0
    ≢ AuthResult.authenticated "GA" "GA"
unfolding memory_store has
authenticate_request-once_example =
    authenticate_request-once sdk memory_store request replayed (replayed ∷ []) start "GA" "GA"
      (refl, tt) passes header_parts header_parts

extract_auth_headers_iff_example : (extract_auth_headers header ≡ some ("GA", "sig", "n1")) ↔ (
    ("StellarSignature GA:sig:n1" ≡ auth_header_of ("GA", "sig", "n1"))
    × IsFree ":" "GA"
    × IsFree ":" "sig"
    × IsFree ":" "n1")
extract_auth_headers_iff_example =
    extract_auth_headers_iff "StellarSignature GA:sig:n1" "GA" "sig" "n1"

abbrev config : NonceConfig
config = record { ttl_ms = 300000; max_entries = 1000 }

abbrev rows_after : Table String NonceEntry
rows_after = ("n1", entry) ∷ ("n2", record { address = "GB"; expires_at = 302000 }) ∷ []

-- another challenge was issued between the count and the insert
issued : Postgres.issue config 2000 2000 "GB" "n2" [] rows ≡ (ok "n2", rows_after)
unfolding Postgres.issue Postgres.insert_nonce Postgres.total Postgres.address_total
    Postgres.is_live Postgres.one_if has put sum_of
issued = refl

issue-IsWithin_example :
    (lookup "n2" rows ≡ none)
    × (lookup "n2" rows_after ≡ some (record { address = "GB"; expires_at = 302000 }))
    × (total 2000 rows_after ≤ 1000 + (total 2000 rows - total 2000 []))
    × (address_total 2000 "GB" rows_after
        ≤ 100 + (address_total 2000 "GB" rows - address_total 2000 "GB" []))
issue-IsWithin_example = issue-IsWithin config 2000 2000 "GB" "n2" [] rows issued

rows-IsUnique : IsUnique rows
unfolding has
rows-IsUnique = (refl, tt)

apart : (e : NonceEntry) → lookup "n1" one.store ≡ some e → e.expires_at ≢ 2000
unfolding lookup
apart e h p = let q : 301000 ≡ e.expires_at = ap until h in omega arith
  where
    until : Option NonceEntry → ℕ
    until none = 0
    until (some e) = e.expires_at

consume-Agrees_example :
    SameVerdict 2000 (Nonces.consume 2000 "GA" "n1" one) (Postgres.consume 2000 "GA" "n1" rows)
consume-Agrees_example =
    consume-Agrees 2000 "GA" "n1" one rows rows-IsUnique rows-IsUnique (λ k. refl) apart
