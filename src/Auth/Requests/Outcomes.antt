-- ===== src/Auth/Requests/Outcomes.antt =====
-- auth.ts, authenticateRequest: what has to hold for each outcome.
use ourdao_backend.Common.{
  ℕ, String, Bool, true, false, Option, none, some, ◌≡◌, refl, sym, ap, Bool-cases, inl, inr, ◌⊎◌,
  string_eq,
}
use ourdao_backend.Auth.Stores.{NonceStore}
use ourdao_backend.Auth.Signatures.{StellarSdk, AuthStats, SignatureResult, verify_signature}
use ourdao_backend.Auth.Signatures.Keys.{IsKeyOf, IsSigned, good_signature}
use ourdao_backend.Auth.Requests.{
  AuthHeaders, AuthState, AuthResult, is_empty, present, is_mismatch, check_target,
  check_target_again, after_consume, after_signature, after_headers, extract_auth_headers,
  authenticate_request,
}

present-some : (o : Option AuthHeaders) {h : AuthHeaders} → present o ≡ some h → o ≡ some h
unfolding present
present-some none p = absurd (cc p)
present-some (some (address, signature, nonce)) {h} p = elim (Bool-cases (is_empty address)) [
  | inl a ↦ (let q : none ≡ some h = (rw a at p) in absurd (cc q))
  | inr a ↦ elim (Bool-cases (is_empty signature)) [
    | inl b ↦ (let q : none ≡ some h = (rw (a, b) at p) in absurd (cc q))
    | inr b ↦ elim (Bool-cases (is_empty nonce)) [
      | inl c ↦ (let q : none ≡ some h = (rw (a, b, c) at p) in absurd (cc q))
      | inr c ↦ rw (a, b, c) at p
    ]
  ]
]

module _ {S : Type 0} where
  -- a request that passes the target's check is the address's own
  check_target-passes :
      (target : Option String) (address key : String) (s : AuthState S) {a k : String}
      → (check_target target address key s).0 ≡ AuthResult.authenticated a k
      → (is_mismatch target address ≡ false) × (a ≡ address) × (k ≡ key)
  unfolding check_target check_target_again
  check_target-passes target address key s {a} {k} h =
      elim (Bool-cases (is_mismatch target address)) [
        | inl g ↦
            (let p : AuthResult.refused 403 _ ≡ AuthResult.authenticated a k = (rw g at h) in
              absurd (cc p))
        | inr g ↦
            let p : AuthResult.authenticated address key ≡ AuthResult.authenticated a k =
              (rw g at h) in
            (g, cc p, cc p)
      ]

  -- the check of the target leaves the challenges
  pub check_target-nonces :
      (target : Option String) (address key : String) (s : AuthState S)
      → (check_target target address key s).1.nonces ≡ s.nonces
  unfolding check_target check_target_again
  check_target-nonces target address key s = elim (Bool-cases (is_mismatch target address)) [
    | inl g ↦ rw g refl
    | inr g ↦ rw g refl
  ]

  after_consume-passes :
      (target : Option String) (address key : String) (r : Bool × S) (s : AuthState S)
      {a k : String}
      → (after_consume target address key r s).0 ≡ AuthResult.authenticated a k
      → (r.0 ≡ true) × (is_mismatch target address ≡ false) × (a ≡ address) × (k ≡ key)
  unfolding after_consume
  after_consume-passes target address key (true, nonces) s h =
      let (own, who, same) = check_target-passes target address key _ h in (refl, own, who, same)
  after_consume-passes target address key (false, nonces) s h = absurd (cc h)

  pub after_consume-nonces :
      (target : Option String) (address key : String) (r : Bool × S) (s : AuthState S)
      → (after_consume target address key r s).1.nonces ≡ r.1
  unfolding after_consume
  after_consume-nonces target address key (true, nonces) s =
      check_target-nonces target address key _
  after_consume-nonces target address key (false, nonces) s = refl

  module _ (sdk : StellarSdk) (store : NonceStore S) where
    after_signature-passes :
        (now : ℕ) (target : Option String) (address nonce : String)
        (r : SignatureResult × AuthStats) (s : AuthState S) {a k : String}
        → (after_signature store now target address nonce r s).0 ≡ AuthResult.authenticated a k
        → (r.0 ≡ SignatureResult.good k)
          × ((store.consume now address nonce s.nonces).0 ≡ true)
          × (is_mismatch target address ≡ false)
          × (a ≡ address)
          × ((after_signature store now target address nonce r s).1.nonces
              ≡ (store.consume now address nonce s.nonces).1)
    unfolding after_signature
    after_signature-passes now target address nonce (SignatureResult.good key, stats) s h =
        let (valid, own, who, same) =
          after_consume-passes target address key _ (record s { stats = stats }) h in
        (
          ap SignatureResult.good (sym same),
          valid,
          own,
          who,
          after_consume-nonces target address key _ (record s { stats = stats }),
        )
    after_signature-passes now target address nonce (SignatureResult.bad status error, stats) s h =
        absurd (cc h)

    after_headers-passes :
        (now : ℕ) (target : Option String) (o : Option AuthHeaders) (s : AuthState S) {a k : String}
        → (after_headers sdk store now target o s).0 ≡ AuthResult.authenticated a k
        → (signature : String) × (nonce : String) × (o ≡ some (a, signature, nonce))
          × IsKeyOf sdk a k
          × IsSigned sdk k a nonce signature
          × ((store.consume now a nonce s.nonces).0 ≡ true)
          × (is_mismatch target a ≡ false)
          × ((after_headers sdk store now target o s).1.nonces
              ≡ (store.consume now a nonce s.nonces).1)
    unfolding after_headers
    after_headers-passes now target none s h = absurd (cc h)
    after_headers-passes now target (some (address, signature, nonce)) s h =
        let (good, valid, own, who, spent) =
          after_signature-passes now target address nonce _ s h in
        let (key, signed) = good_signature sdk address nonce signature s.stats good in
        rw who (signature, nonce, refl, key, signed, valid, own, spent)

    -- If a request is authenticated, its header is in three parts, an address, a signature and a
    -- challenge; the address is a valid one with the key that is returned, which signed the
    -- challenge for this address; the store accepted and consumed the challenge; and the address
    -- is the target, if there is one.
    pub authenticate_request-IsProved :
        (now : ℕ) (auth_header target : Option String) (s : AuthState S) {address key : String}
        → (authenticate_request sdk store now auth_header target s).0
          ≡ AuthResult.authenticated address key
        → (signature : String) × (nonce : String) × (extract_auth_headers auth_header
            ≡ some (address, signature, nonce))
          × IsKeyOf sdk address key
          × IsSigned sdk key address nonce signature
          × ((store.consume now address nonce s.nonces).0 ≡ true)
          × (is_mismatch target address ≡ false)
          × ((authenticate_request sdk store now auth_header target s).1.nonces
              ≡ (store.consume now address nonce s.nonces).1)
    unfolding authenticate_request
    authenticate_request-IsProved now auth_header target s h =
        let (signature, nonce, found, of_key, signed, valid, own, spent) =
          after_headers-passes now target _ s h in
        (signature, nonce, present-some _ found, of_key, signed, valid, own, spent)

    -- the store is as it was, or the challenge was signed and handed to it
    abbrev pub IsUntouched : ℕ → Option String → AuthState S → S → Type 0
    IsUntouched now auth_header s nonces =
        (nonces ≡ s.nonces)
        ⊎ ((address : String) × (signature : String) × (nonce : String) × (key : String)
            × (extract_auth_headers auth_header ≡ some (address, signature, nonce))
            × IsKeyOf sdk address key
            × IsSigned sdk key address nonce signature
            × (nonces ≡ (store.consume now address nonce s.nonces).1))

    after_signature-touches :
        (now : ℕ) (target : Option String) (address nonce : String)
        (r : SignatureResult × AuthStats) (s : AuthState S)
        → ((after_signature store now target address nonce r s).1.nonces ≡ s.nonces)
          ⊎ ((key : String) × (r.0 ≡ SignatureResult.good key)
              × ((after_signature store now target address nonce r s).1.nonces
                  ≡ (store.consume now address nonce s.nonces).1))
    unfolding after_signature
    after_signature-touches now target address nonce (SignatureResult.good key, stats) s =
        inr (key, refl, after_consume-nonces target address key _ (record s { stats = stats }))
    after_signature-touches now target address nonce (SignatureResult.bad status error, stats) s =
        inl refl

    after_headers-touches :
        (now : ℕ) (target auth_header : Option String) (o : Option AuthHeaders) (s : AuthState S)
        → present (extract_auth_headers auth_header) ≡ o
        → IsUntouched now auth_header s (after_headers sdk store now target o s).1.nonces
    unfolding after_headers
    after_headers-touches now target auth_header none s h = inl refl
    after_headers-touches now target auth_header (some (address, signature, nonce)) s h =
        elim (after_signature-touches now target address nonce
          (verify_signature sdk address nonce signature s.stats) s) [
            | inl same ↦ inl same
            | inr (key, good, spent) ↦
                let (of_key, signed) = good_signature sdk address nonce signature s.stats good in
                inr (address, signature, nonce, key, present-some _ h, of_key, signed, spent)
          ]

    -- A request leaves the challenges as they are, unless it carries a good signature of the
    -- challenge that it presents, for the address that it names.
    pub authenticate_request-IsUntouched :
        (now : ℕ) (auth_header target : Option String) (s : AuthState S)
        → IsUntouched now auth_header s
            (authenticate_request sdk store now auth_header target s).1.nonces
    unfolding authenticate_request
    authenticate_request-IsUntouched now auth_header target s =
        after_headers-touches now target auth_header _ s refl
