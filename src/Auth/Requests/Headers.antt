-- ===== src/Auth/Requests/Headers.antt =====
-- auth.ts, extractAuthHeaders: the header's text and its three parts.
use Prim.Native.String.{◌++◌}
use ourdao_backend.Common.{
  ◌↔◌, All, subst, String, Option, none, some, List, [], ◌∷◌, ◌≡◌, refl, sym, ◌∙◌, ap,
}
use ourdao_backend.Common.Split.{
  IsFree, join, split, strip_prefix, strip_prefix-append, strip_prefix_sound, join-split,
  split-IsFree, split-join_three,
}
use ourdao_backend.Auth.Requests.{AuthHeaders, extract_auth_headers, split_credentials, three_parts}

-- `StellarSignature <address>:<signature>:<nonce>`
unfoldable pub auth_header_of : AuthHeaders → String
unfolding join
auth_header_of (address, signature, nonce) =
    "StellarSignature " ++ join ":" (address ∷ signature ∷ nonce ∷ [])

extract-auth_header_of :
    (address signature nonce : String)
    → IsFree ":" address
    → IsFree ":" signature
    → IsFree ":" nonce
    → extract_auth_headers (some (auth_header_of (address, signature, nonce)))
      ≡ some (address, signature, nonce)
unfolding extract_auth_headers auth_header_of split_credentials three_parts
extract-auth_header_of address signature nonce fa fs fn =
    rw (strip_prefix-append "StellarSignature " (join ":" (address ∷ signature ∷ nonce ∷ [])))
      (rw (split-join_three ":" address signature nonce fa fs fn) refl)

three_parts-some :
    (parts : List String) {a s n : String}
    → three_parts parts ≡ some (a, s, n)
    → parts ≡ a ∷ s ∷ n ∷ []
unfolding three_parts
three_parts-some [] h = cc h
three_parts-some (a ∷ []) h = cc h
three_parts-some (a ∷ s ∷ []) h = cc h
three_parts-some (a ∷ s ∷ n ∷ []) h = cc h
three_parts-some (a ∷ s ∷ n ∷ m ∷ rest) h = cc h

split_credentials-some :
    (o : Option String) {a s n : String}
    → split_credentials o ≡ some (a, s, n)
    → (o ≡ some (join ":" (a ∷ s ∷ n ∷ []))) × IsFree ":" a × IsFree ":" s × IsFree ":" n
unfolding split_credentials
split_credentials-some none h = absurd (cc h)
split_credentials-some (some credentials) h =
    let parts = three_parts-some (split ":" credentials) h in
    let (fa, (fs, (fn, _))) = subst (All (IsFree ":")) parts (split-IsFree ":" credentials) in
    (ap some (sym (join-split ":" credentials) ∙ ap (join ":") parts), fa, fs, fn)

-- A header is read as an address, a signature and a challenge exactly when it is the text that
-- prints them, and none of the three has a colon.
pub extract_auth_headers_iff :
    (auth_header address signature nonce : String)
    → (extract_auth_headers (some auth_header) ≡ some (address, signature, nonce)) ↔ (
        (auth_header ≡ auth_header_of (address, signature, nonce))
        × IsFree ":" address
        × IsFree ":" signature
        × IsFree ":" nonce)
extract_auth_headers_iff auth_header address signature nonce = (
  λ h.
      unfold extract_auth_headers auth_header_of in
      let (whole, fa, fs, fn) =
        split_credentials-some (strip_prefix "StellarSignature " auth_header) h in
      (strip_prefix_sound "StellarSignature " auth_header whole, fa, fs, fn),
  λ (p, fa, fs, fn). rw p (extract-auth_header_of address signature nonce fa fs fn),
)
