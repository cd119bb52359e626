-- ===== src/Auth/Requests/Figures.antt =====
-- auth.ts, authStats: what the counters say of a request.
use ourdao_backend.Common.{
  ℕ, String, Bool, true, false, Option, none, some, List, ◌≡◌, ◌+◌, refl, Bool-cases, inl, inr,
  arith, length, ◌=ℕ◌,
}
use ourdao_backend.Auth.Stores.{NonceStore}
use ourdao_backend.Auth.Signatures.{
  StellarSdk, StellarAddressType, AuthStats, VerificationsFailed, SignatureResult, verify_signature,
  verify_as, verify_muxed, verify_bytes, judge, count_failed, ed25519_signature_bytes,
}
use ourdao_backend.Auth.Requests.{
  AuthHeaders, AuthState, is_mismatch, check_target, check_target_again, after_consume,
  after_signature, after_headers, authenticate_request,
}

-- all requests that the counters know of
abbrev pub attempts : AuthStats → ℕ
attempts stats =
    stats.verifications_succeeded
    + (f.missing_headers + f.invalid_nonce + f.invalid_signature + f.address_mismatch
        + f.malformed_encoding + f.unsupported_address_type)
  where
    f : VerificationsFailed
    f = stats.verifications_failed

-- one attempt more, and none for a nonce or for a mismatch
abbrev pub CountsOne : AuthStats → AuthStats → Type 0
CountsOne before after =
    (attempts after ≡ attempts before + 1)
    × (after.verifications_failed.invalid_nonce ≡ before.verifications_failed.invalid_nonce)
    × (after.verifications_failed.address_mismatch ≡ before.verifications_failed.address_mismatch)
    × (after.challenges_issued ≡ before.challenges_issued)

judge-CountsOne :
    (key : String) (verdict : Option Bool) (stats : AuthStats)
    → CountsOne stats (judge key verdict stats).1
unfolding judge count_failed
judge-CountsOne key (some true) stats = (omega arith, refl, refl, refl)
judge-CountsOne key (some false) stats = (omega arith, refl, refl, refl)
judge-CountsOne key none stats = (omega arith, refl, refl, refl)

verify_bytes-CountsOne :
    (sdk : StellarSdk) (key address nonce : String) (bytes : List ℕ) (stats : AuthStats)
    → CountsOne stats (verify_bytes sdk key address nonce bytes stats).1
unfolding verify_bytes count_failed
verify_bytes-CountsOne sdk key address nonce bytes stats =
    elim (Bool-cases (length bytes =ℕ ed25519_signature_bytes)) [
      | inl g ↦ rw g (judge-CountsOne key _ stats)
      | inr g ↦ rw g (omega arith, refl, refl, refl)
    ]

verify_muxed-CountsOne :
    (sdk : StellarSdk) (o : Option String) (address nonce signature : String) (stats : AuthStats)
    → CountsOne stats (verify_muxed sdk o address nonce signature stats).1
unfolding verify_muxed count_failed
verify_muxed-CountsOne sdk none address nonce signature stats = (omega arith, refl, refl, refl)
verify_muxed-CountsOne sdk (some key) address nonce signature stats =
    verify_bytes-CountsOne sdk key address nonce _ stats

verify_as-CountsOne :
    (sdk : StellarSdk) (type : StellarAddressType) (address nonce signature : String)
    (stats : AuthStats)
    → CountsOne stats (verify_as sdk type address nonce signature stats).1
unfolding verify_as count_failed
verify_as-CountsOne sdk StellarAddressType.invalid address nonce signature stats =
    (omega arith, refl, refl, refl)
verify_as-CountsOne sdk StellarAddressType.contract address nonce signature stats =
    (omega arith, refl, refl, refl)
verify_as-CountsOne sdk StellarAddressType.muxed address nonce signature stats =
    verify_muxed-CountsOne sdk _ address nonce signature stats
verify_as-CountsOne sdk StellarAddressType.ed25519 address nonce signature stats =
    verify_bytes-CountsOne sdk address address nonce _ stats

module _ {S : Type 0} where
  -- the second check of the target never finds a mismatch
  check_target-stats :
      (target : Option String) (address key : String) (s : AuthState S)
      → (check_target target address key s).1.stats ≡ s.stats
  unfolding check_target check_target_again
  check_target-stats target address key s = elim (Bool-cases (is_mismatch target address)) [
    | inl g ↦ rw g refl
    | inr g ↦ rw g refl
  ]

  after_consume-stats :
      (target : Option String) (address key : String) (r : Bool × S) (s : AuthState S)
      → (after_consume target address key r s).1.stats ≡ s.stats
  unfolding after_consume
  after_consume-stats target address key (true, nonces) s =
      check_target-stats target address key (record s { nonces = nonces })
  after_consume-stats target address key (false, nonces) s = refl

  module _ (sdk : StellarSdk) (store : NonceStore S) where
    after_signature-stats :
        (now : ℕ) (target : Option String) (address nonce : String)
        (r : SignatureResult × AuthStats) (s : AuthState S)
        → (after_signature store now target address nonce r s).1.stats ≡ r.1
    unfolding after_signature
    after_signature-stats now target address nonce (SignatureResult.good key, stats) s =
        after_consume-stats target address key _ (record s { stats = stats })
    after_signature-stats now target address nonce (SignatureResult.bad status error, stats) s =
        refl

    after_headers-CountsOne :
        (now : ℕ) (target : Option String) (o : Option AuthHeaders) (s : AuthState S)
        → CountsOne s.stats (after_headers sdk store now target o s).1.stats
    unfolding after_headers verify_signature count_failed
    after_headers-CountsOne now target none s = (omega arith, refl, refl, refl)
    after_headers-CountsOne now target (some (address, signature, nonce)) s =
        rw
          (after_signature-stats now target address nonce
            (verify_signature sdk address nonce signature s.stats) s)
          (verify_as-CountsOne sdk _ address nonce signature s.stats)

    -- Every request counts once, as a success or as one of the failures, but never as an invalid
    -- nonce or as an address mismatch, whatever its outcome.
    pub authenticate_request-CountsOne :
        (now : ℕ) (auth_header target : Option String) (s : AuthState S)
        → CountsOne s.stats (authenticate_request sdk store now auth_header target s).1.stats
    unfolding authenticate_request
    authenticate_request-CountsOne now auth_header target s = after_headers-CountsOne now target _ s
