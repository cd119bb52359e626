-- ===== src/Auth/Requests/Replays.antt =====
-- auth.ts, authenticateRequest: a challenge opens the door once, whatever comes in between.
use ourdao_backend.Common.{
  ℕ, String, true, Option, some, List, [], ◌∷◌, ◌≡◌, ◌≢◌, sym, subst, inl, inr,
}
use ourdao_backend.Auth.Stores.{NonceStore}
use ourdao_backend.Auth.Signatures.{StellarSdk}
use ourdao_backend.Auth.Requests.{AuthState, AuthResult, extract_auth_headers, authenticate_request}
use ourdao_backend.Auth.Requests.Outcomes.{
  authenticate_request-IsProved, authenticate_request-IsUntouched,
}

-- One call of `authenticateRequest`.
pub record Call : Type 0 where
  pub now : ℕ
  pub auth_header : Option String
  pub target : Option String

module _ {S : Type 0} (sdk : StellarSdk) (store : NonceStore S) where
  abbrev pub answer : Call → AuthState S → AuthResult × AuthState S
  answer c s = authenticate_request sdk store c.now c.auth_header c.target s

  -- the state after these calls
  unfoldable pub serve : List Call → AuthState S → AuthState S
  serve [] s = s
  serve (c ∷ cs) s = serve cs (answer c s).1

  sound_after :
      (c : Call) (s : AuthState S) → store.IsSound s.nonces → store.IsSound (answer c s).1.nonces
  sound_after c s sound =
      elim (authenticate_request-IsUntouched sdk store c.now c.auth_header c.target s) [
        | inl same ↦ subst store.IsSound (sym same) sound
        | inr (address, _, nonce, _, _, _, _, spent) ↦
            subst store.IsSound (sym spent) (store.keeps c.now address nonce s.nonces sound)
      ]

  spent_after :
      (nonce : String) (c : Call) (s : AuthState S)
      → store.IsSound s.nonces
      → store.IsSpent nonce s.nonces
      → store.IsSpent nonce (answer c s).1.nonces
  spent_after nonce c s sound gone =
      elim (authenticate_request-IsUntouched sdk store c.now c.auth_header c.target s) [
        | inl same ↦ subst (store.IsSpent nonce) (sym same) gone
        | inr (address, _, other, _, _, _, _, spent) ↦
            subst (store.IsSpent nonce) (sym spent)
              (store.stays c.now address other nonce s.nonces sound gone)
      ]

  pub spent_through :
      (nonce : String) (cs : List Call) (s : AuthState S)
      → store.IsSound s.nonces
      → store.IsSpent nonce s.nonces
      → store.IsSpent nonce (serve cs s).nonces
  unfolding serve
  spent_through nonce [] s sound gone = gone
  spent_through nonce (c ∷ cs) s sound gone =
      spent_through nonce cs (answer c s).1 (sound_after c s sound)
        (spent_after nonce c s sound gone)

  spent-IsRefused :
      (nonce : String) (c : Call) (s : AuthState S) {b signature : String}
      → store.IsSpent nonce s.nonces
      → extract_auth_headers c.auth_header ≡ some (b, signature, nonce)
      → (address key : String) → (answer c s).0 ≢ AuthResult.authenticated address key
  spent-IsRefused nonce c s {b} {signature} gone presented address key passed =
      let (_, other, found, _, _, accepted, _, _) =
        authenticate_request-IsProved sdk store c.now c.auth_header c.target s passed in
      let same : other ≡ nonce = cc (found, presented) in
      let refused = store.refuses c.now address nonce s.nonces gone in
      let accepted' : (store.consume c.now address nonce s.nonces).0 ≡ true =
        subst (λ n. (store.consume c.now address n s.nonces).0 ≡ true) same accepted in
      cc (refused, accepted')

  -- If a request is authenticated by a store in order, no later request that presents its challenge
  -- is, with whatever signature, from whatever address and whatever requests come in between.
  pub authenticate_request-once :
      (first later : Call) (between : List Call) (s : AuthState S)
      {address key a signature nonce b other : String} (x y : String)
      → store.IsSound s.nonces
      → (answer first s).0 ≡ AuthResult.authenticated address key
      → extract_auth_headers first.auth_header ≡ some (a, signature, nonce)
      → extract_auth_headers later.auth_header ≡ some (b, other, nonce)
      → (answer later (serve between (answer first s).1)).0 ≢ AuthResult.authenticated x y
  authenticate_request-once first later between s {address} {nonce} x y sound passed presented
        again =
      let (_, used, found, _, _, accepted, _, consumed) =
        authenticate_request-IsProved sdk store first.now first.auth_header first.target s passed in
      let gone : store.IsSpent used (answer first s).1.nonces =
        subst (store.IsSpent used) (sym consumed)
          (store.spends first.now address used s.nonces sound accepted) in
      let same : used ≡ nonce = cc (found, presented) in
      let spent : store.IsSpent nonce (answer first s).1.nonces =
        subst (λ n. store.IsSpent n (answer first s).1.nonces) same gone in
      spent-IsRefused nonce later (serve between (answer first s).1)
        (spent_through nonce between (answer first s).1 (sound_after first s sound) spent) again x y
