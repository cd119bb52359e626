-- ===== src/Auth/Signatures/Keys.antt =====
-- auth.ts, verifySignature: what a good signature is.
use ourdao_backend.Common.{
  String, Bool, true, false, Option, none, some, List, ℕ, ◌≡◌, refl, Bool-cases, inl, inr, ◌⊎◌,
  length, ◌=ℕ◌, =ℕ_iff,
}
use ourdao_backend.Auth.Signatures.{
  StellarSdk, StellarAddressType, AuthStats, SignatureResult, verify_signature, verify_as,
  verify_muxed, verify_bytes, judge, signed_payload, ed25519_signature_bytes,
  classify_stellar_address,
}

-- the key of an address: its own, or that of the account under a muxed address
abbrev pub IsKeyOf : StellarSdk → String → String → Type 0
IsKeyOf sdk address key =
    (sdk.is_valid_ed25519_public_key address ≡ true) × (key ≡ address)
    ⊎ (sdk.is_valid_med25519_public_key address ≡ true) × (sdk.base_account_id address ≡ some key)

-- the signature has 64 bytes and the key accepts it for the challenge and the address
abbrev pub IsSigned : StellarSdk → String → String → String → String → Type 0
IsSigned sdk key address nonce signature =
    (length (sdk.from_base64 signature) ≡ 64)
    × (sdk.verify key (signed_payload nonce address) (sdk.from_base64 signature) ≡ some true)

good_key :
    (key : String) (verdict : Option Bool) (stats : AuthStats) {k : String}
    → (judge key verdict stats).0 ≡ SignatureResult.good k
    → (k ≡ key) × (verdict ≡ some true)
unfolding judge
good_key key (some true) stats h = (cc h, refl)
good_key key (some false) stats h = cc h
good_key key none stats h = cc h

good_bytes :
    (sdk : StellarSdk) (key address nonce : String) (bytes : List ℕ) (stats : AuthStats)
    {k : String}
    → (verify_bytes sdk key address nonce bytes stats).0 ≡ SignatureResult.good k
    → (k ≡ key)
      × (length bytes ≡ 64)
      × (sdk.verify key (signed_payload nonce address) bytes ≡ some true)
unfolding verify_bytes
good_bytes sdk key address nonce bytes stats {k} h =
    elim (Bool-cases (length bytes =ℕ ed25519_signature_bytes)) [
      | inl g ↦
          let p : (judge key (sdk.verify key (signed_payload nonce address) bytes) stats).0
              ≡ SignatureResult.good k =
            (rw g at h) in
          let (same, verdict) = good_key key _ stats p in (same, (=ℕ_iff _ _).0 g, verdict)
      | inr g ↦
          (let p : SignatureResult.bad 401 "Invalid signature" ≡ SignatureResult.good k =
              (rw g at h) in
            absurd (cc p))
    ]

good_muxed :
    (sdk : StellarSdk) (o : Option String) (address nonce signature : String) (stats : AuthStats)
    {k : String}
    → (verify_muxed sdk o address nonce signature stats).0 ≡ SignatureResult.good k
    → (o ≡ some k) × IsSigned sdk k address nonce signature
unfolding verify_muxed
good_muxed sdk none address nonce signature stats h = cc h
good_muxed sdk (some key) address nonce signature stats h =
    let (same, size, verdict) = good_bytes sdk key address nonce _ stats h in
    rw same (refl, (size, verdict))

classified :
    (sdk : StellarSdk) (address : String)
    → (classify_stellar_address sdk address ≡ StellarAddressType.ed25519)
        × (sdk.is_valid_ed25519_public_key address ≡ true)
      ⊎ (classify_stellar_address sdk address ≡ StellarAddressType.muxed)
        × (sdk.is_valid_med25519_public_key address ≡ true)
      ⊎ (classify_stellar_address sdk address ≡ StellarAddressType.contract)
      ⊎ (classify_stellar_address sdk address ≡ StellarAddressType.invalid)
unfolding classify_stellar_address
classified sdk address = elim (Bool-cases (sdk.is_valid_ed25519_public_key address)) [
  | inl g ↦ rw g (inl (refl, refl))
  | inr g ↦ elim (Bool-cases (sdk.is_valid_med25519_public_key address)) [
    | inl m ↦ rw (g, m) (inr (inl (refl, refl)))
    | inr m ↦ elim (Bool-cases (sdk.is_valid_contract address)) [
      | inl c ↦ rw (g, m, c) (inr (inr (inl refl)))
      | inr c ↦ rw (g, m, c) (inr (inr (inr refl)))
    ]
  ]
]

pub good_signature :
    (sdk : StellarSdk) (address nonce signature : String) (stats : AuthStats) {key : String}
    → (verify_signature sdk address nonce signature stats).0 ≡ SignatureResult.good key
    → IsKeyOf sdk address key × IsSigned sdk key address nonce signature
unfolding verify_signature verify_as
good_signature sdk address nonce signature stats {key} h = elim (classified sdk address) [
  | inl (c, valid) ↦
      let (same, size, verdict) = good_bytes sdk address address nonce _ stats (rw c at h) in
      rw same (inl (valid, refl), (size, verdict))
  | inr (inl (c, valid)) ↦
      let (base, signed) = good_muxed sdk _ address nonce signature stats (rw c at h) in
      (inr (valid, base), signed)
  | inr (inr (inl c)) ↦
      (let p : SignatureResult.bad 400 _ ≡ SignatureResult.good key = (rw c at h) in absurd (cc p))
  | inr (inr (inr c)) ↦
      (let p : SignatureResult.bad 400 _ ≡ SignatureResult.good key = (rw c at h) in absurd (cc p))
]
