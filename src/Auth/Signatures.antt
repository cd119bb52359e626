-- ===== src/Auth/Signatures.antt =====
-- auth.ts, verifySignature: a member's signature of a challenge, with the counters of authStats.
-- The Stellar SDK and Buffer.from are parameters. Logging is left out.
pub mod Keys
use ourdao_backend.Common.{
  ℕ, String, Bool, true, false, Option, none, some, List, [], ◌∷◌, ◌+◌, if◌then◌else◌, ◌==◌, ◌!==◌,
  not, ◌||◌, ◌&&◌, string_eq, length, ◌=ℕ◌,
}
use Prim.Native.String.{◌++◌}
use ourdao_backend.Common.Split.{strip_prefix, split}
use ourdao_backend.Auth.Failures.{AuthFailureTracker, record_success}
use ourdao_backend.Auth.Stores.{NonceStore}

-- What the code calls of the Stellar SDK and of Buffer. none stands for a call that throws.
pub record StellarSdk : Type 0 where
  pub is_valid_ed25519_public_key : String → Bool
  pub is_valid_med25519_public_key : String → Bool
  pub is_valid_contract : String → Bool
  -- `MuxedAccount.fromAddress(address, '0').baseAccount().accountId()`
  pub base_account_id : String → Option String
  -- `Buffer.from(signature, 'base64')`
  pub from_base64 : String → List ℕ
  -- `Keypair.fromPublicKey(key).verify(data, signature)`
  pub verify : String → String → List ℕ → Option Bool

pub data StellarAddressType : Type 0 where
  ed25519 muxed contract invalid : StellarAddressType

unfoldable pub classify_stellar_address : StellarSdk → String → StellarAddressType
classify_stellar_address sdk address =
    if sdk.is_valid_ed25519_public_key address
    then StellarAddressType.ed25519
    else if sdk.is_valid_med25519_public_key address
    then StellarAddressType.muxed
    else if sdk.is_valid_contract address
    then StellarAddressType.contract
    else StellarAddressType.invalid

-- `authStats.verificationsFailed`
pub record VerificationsFailed : Type 0 where
  pub missing_headers : ℕ
  pub invalid_nonce : ℕ
  pub invalid_signature : ℕ
  pub address_mismatch : ℕ
  pub malformed_encoding : ℕ
  pub unsupported_address_type : ℕ

pub record AuthStats : Type 0 where
  pub challenges_issued : ℕ
  pub verifications_succeeded : ℕ
  pub verifications_failed : VerificationsFailed

unfoldable pub count_failed : (VerificationsFailed → VerificationsFailed) → AuthStats → AuthStats
count_failed f stats = record stats { verifications_failed = f stats.verifications_failed }

abbrev pub one_missing : VerificationsFailed → VerificationsFailed
one_missing f = record f { missing_headers = f.missing_headers + 1 }

abbrev pub one_invalid_signature : VerificationsFailed → VerificationsFailed
one_invalid_signature f = record f { invalid_signature = f.invalid_signature + 1 }

abbrev pub one_address_mismatch : VerificationsFailed → VerificationsFailed
one_address_mismatch f = record f { address_mismatch = f.address_mismatch + 1 }

abbrev pub one_malformed : VerificationsFailed → VerificationsFailed
one_malformed f = record f { malformed_encoding = f.malformed_encoding + 1 }

abbrev pub one_unsupported : VerificationsFailed → VerificationsFailed
one_unsupported f = record f { unsupported_address_type = f.unsupported_address_type + 1 }

pub data SignatureResult : Type 0 where
  good : String → SignatureResult
  bad : ℕ → String → SignatureResult

abbrev pub ed25519_signature_bytes : ℕ
ed25519_signature_bytes = 64

abbrev unsupported : String → AuthStats → SignatureResult × AuthStats
unsupported message stats = (SignatureResult.bad 400 message, count_failed one_unsupported stats)

-- the key's verdict, or its exception
unfoldable pub judge : String → Option Bool → AuthStats → SignatureResult × AuthStats
unfolding count_failed
judge key (some true) stats = (
  SignatureResult.good key,
  record stats { verifications_succeeded = stats.verifications_succeeded + 1 },
)
judge key (some false) stats =
    (SignatureResult.bad 401 "Invalid signature", count_failed one_invalid_signature stats)
judge key none stats =
    (SignatureResult.bad 401 "Invalid signature", count_failed one_invalid_signature stats)

-- `${nonce}:${address}`
unfoldable pub signed_payload : String → String → String
signed_payload nonce address = nonce ++ ":" ++ address

-- the signature against a key, for the address as presented
unfoldable pub verify_bytes :
    StellarSdk → String → String → String → List ℕ → AuthStats → SignatureResult × AuthStats
unfolding judge signed_payload count_failed
verify_bytes sdk key address nonce bytes stats =
    if not (length bytes =ℕ ed25519_signature_bytes)
    then (SignatureResult.bad 401 "Invalid signature", count_failed one_malformed stats)
    else judge key (sdk.verify key (signed_payload nonce address) bytes) stats

unfoldable pub verify_muxed :
    StellarSdk → Option String → String → String → String → AuthStats → SignatureResult × AuthStats
unfolding verify_bytes
verify_muxed sdk none address nonce signature stats =
    unsupported "Malformed muxed (M…) address" stats
verify_muxed sdk (some key) address nonce signature stats =
    verify_bytes sdk key address nonce (sdk.from_base64 signature) stats

unfoldable pub verify_as :
    StellarSdk
    → StellarAddressType
    → String
    → String
    → String
    → AuthStats
    → SignatureResult × AuthStats
unfolding verify_bytes verify_muxed
verify_as sdk StellarAddressType.invalid address nonce signature stats =
    unsupported "Unrecognized Stellar address format" stats
verify_as sdk StellarAddressType.contract address nonce signature stats =
    unsupported "Contract (C…) accounts are not supported for authentication" stats
verify_as sdk StellarAddressType.muxed address nonce signature stats =
    verify_muxed sdk (sdk.base_account_id address) address nonce signature stats
verify_as sdk StellarAddressType.ed25519 address nonce signature stats =
    verify_bytes sdk address address nonce (sdk.from_base64 signature) stats

unfoldable pub verify_signature :
    StellarSdk → String → String → String → AuthStats → SignatureResult × AuthStats
unfolding classify_stellar_address verify_as
verify_signature sdk address nonce signature stats =
    verify_as sdk (classify_stellar_address sdk address) address nonce signature stats
