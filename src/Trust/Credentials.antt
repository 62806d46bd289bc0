-- ===== src/Trust/Credentials.antt =====
-- Credentials (core/trustcore/domain/credentials.py). Times are numbers of microseconds, and the text
-- of a time is kept as the time; the identifier, which the code draws from `uuid4`, is an argument.
-- Under `actions` of a scope stands a list: for any other value that is not empty, where the code looks
-- for a substring or a key or raises, the model raises.
pub mod Signing
use builder_league.Prelude.{
  Bool, List, Option, Result, String, [], err, false, if◌then◌else◌, leb, none, not, ok, or_raise,
  some, true, ℕ, ◌++◌, ◌==◌, ◌>>=◌, ◌||◌, ◌∷◌, nat_eq, string_eq,
}
use builder_league.Prelude.Int.{ltb_ℤ, ℤ}
use builder_league.Prelude.Values.{
  Fields, Value, Values, cons, dict, end, field, get, get_or, int, list, nil, null, same, str,
  to_float, truthy,
}
use builder_league.Trust.Crypto.{Crypto, sign_payload, verify_payload}

pub data CredentialType : Type 0 where
  task_completion authority_grant capability_attestation vouch : CredentialType

pub data VerificationFailure : Type 0 where
  invalid_signature expired revoked : VerificationFailure

pub data TrustError : Type 0 where
  issuer_mismatch : TrustError
  bad_signature : TrustError
  unknown_credential : String → TrustError
  bad_scope : TrustError

abbrev pub type_name : CredentialType → String
type_name task_completion = "TaskCompletion"
type_name authority_grant = "AuthorityGrant"
type_name capability_attestation = "CapabilityAttestation"
type_name vouch = "Vouch"

pub record Credential (c : Crypto) : Type 0 where
  pub id : String
  pub issuer_key : String
  pub subject_key : String
  pub type : CredentialType
  pub claim : Fields
  pub scope : Fields
  pub issued_at : ℕ
  pub expires_at : ℕ
  pub revoked_at : Option ℕ
  pub revocation_reason : Option String
  pub signature : c.Signature

abbrev pub maybe_time : Option ℕ → Value
maybe_time none = null
maybe_time (some t) = int t

abbrev pub maybe_text : Option String → Value
maybe_text none = null
maybe_text (some t) = str t

-- `v or []`, of the value under `actions`
unfoldable pub actions_of : Fields → Result TrustError Values
unfolding get_or truthy
actions_of scope =
    let v = get "actions" scope in
    if truthy v then elim v [ list vs ↦ ok vs | _ ↦ err bad_scope ] else ok nil

-- `action in vs`
unfoldable pub among : String → Values → Bool
unfolding same
among action nil = false
among action (cons v vs) = same (str action) v || among action vs

-- `amount is not None and max_amount is not None and amount > float(max_amount)`
unfoldable pub exceeds : Crypto → Option ℤ → Value → Result TrustError Bool
unfolding to_float
exceeds c none v = ok false
exceeds c (some a) null = ok false
exceeds c (some a) v = or_raise (to_float c.read_float v) bad_scope >>= λ m. ok (ltb_ℤ m a)

-- `matches_scope`
unfoldable pub matches_scope : Crypto → Fields → String → Option ℤ → Result TrustError Bool
unfolding get_or
matches_scope c scope action amount = do
  actions ← actions_of scope
  over ← if among action actions then exceeds c amount (get "max_amount" scope) else ok true
  ok (not over)

abbrev pub is_revoked : Option ℕ → ℕ → Bool
is_revoked none now = false
is_revoked (some at) now = leb at now

abbrev pub failure_if : Bool → VerificationFailure → List VerificationFailure
failure_if true f = f ∷ []
failure_if false f = []

module _ (c : Crypto) where
  -- `Credential.signed_payload`
  unfoldable pub signed_payload : Credential c → Fields
  signed_payload d = field "id" (str d.id) (
      field "issuer_key" (str d.issuer_key) (
        field "subject_key" (str d.subject_key) (
          field "type" (str (type_name d.type)) (
            field "claim" (dict d.claim) (
              field "scope" (dict d.scope) (
                field "issued_at" (int d.issued_at) (
                  field "expires_at" (int d.expires_at) (
                    field "revoked_at" (maybe_time d.revoked_at)
                      (field "revocation_reason" (maybe_text d.revocation_reason) end)))))))))

  unfoldable pub new_unsigned_credential :
      String → String → String → CredentialType → Fields → Fields → ℕ → ℕ → Credential c
  new_unsigned_credential id issuer_key subject_key type claim scope issued_at expires_at = record {
    id = id;
    issuer_key = issuer_key;
    subject_key = subject_key;
    type = type;
    claim = claim;
    scope = scope;
    issued_at = issued_at;
    expires_at = expires_at;
    revoked_at = none;
    revocation_reason = none;
    signature = c.blank;
  }

  unfoldable pub sign_credential : c.KeyPair → Credential c → Result TrustError (Credential c)
  unfolding sign_payload signed_payload
  sign_credential issuer d =
      if d.issuer_key == c.public_key issuer
      then ok (record d { signature = sign_payload c issuer (signed_payload d) })
      else err issuer_mismatch

  unfoldable pub revoke : Credential c → ℕ → String → Credential c
  revoke d at reason = record d { revoked_at = some at; revocation_reason = some reason }

  unfoldable pub verify_credential : Credential c → ℕ → List VerificationFailure
  unfolding verify_payload signed_payload
  verify_credential d now =
      failure_if (not (verify_payload c d.issuer_key (signed_payload d) d.signature))
        invalid_signature
      ++ (failure_if (is_revoked d.revoked_at now) revoked
          ++ failure_if (leb d.expires_at now) expired)
