-- ===== src/Trust/Service/Profile.antt =====
-- `trust_profile` (core/trustcore/application/services.py): what the inspector shows of a subject.
-- Times are kept as the times, and a dict with fixed keys is a record.
use builder_league.Prelude.{
  Bool, List, Option, String, [], false, filter, length, map, not, true, ℕ, ◌&&◌, ◌==◌, ◌∷◌, nat_eq,
  string_eq,
}
use builder_league.Trust.Crypto.{Crypto}
use builder_league.Trust.Credentials.{Credential, VerificationFailure, type_name, verify_credential}
use builder_league.Trust.Service.{TrustService, failure_name}
use builder_league.Trust.Store.{for_subject}
use builder_league.Prelude.Values.{Fields}

pub record ProfileCredential : Type 0 where
  pub id : String
  pub type : String
  pub issuer_key : String
  pub claim : Fields
  pub scope : Fields
  pub issued_at : ℕ
  pub expires_at : ℕ
  pub revoked_at : Option ℕ
  pub valid : Bool
  pub failures : List String

pub record Profile : Type 0 where
  pub subject_key : String
  pub credentials : List ProfileCredential
  pub valid_authority_grants : ℕ
  pub valid_completions : ℕ
  pub invalid_or_revoked : ℕ

abbrev pub is_clean : List VerificationFailure → Bool
is_clean [] = true
is_clean (f ∷ fs) = false

-- `c["valid"] and c["type"] == name`
abbrev pub is_valid_of : String → ProfileCredential → Bool
is_valid_of name p = p.valid && (p.type == name)

module _ (c : Crypto) where
  abbrev pub with_problems : Credential c → List VerificationFailure → ProfileCredential
  with_problems d problems = record {
    id = d.id;
    type = type_name d.type;
    issuer_key = d.issuer_key;
    claim = d.claim;
    scope = d.scope;
    issued_at = d.issued_at;
    expires_at = d.expires_at;
    revoked_at = d.revoked_at;
    valid = is_clean problems;
    failures = map failure_name problems;
  }

  -- the loop of `trust_profile`
  unfoldable pub profile_of : ℕ → List (Credential c) → List ProfileCredential
  unfolding verify_credential
  profile_of now [] = []
  profile_of now (d ∷ ds) = with_problems d (verify_credential c d now) ∷ profile_of now ds

  unfoldable pub trust_profile : ℕ → String → TrustService c → Profile
  unfolding for_subject profile_of
  trust_profile now subject_key t =
      let ps = profile_of now (for_subject c subject_key t.credentials) in
      record {
        subject_key = subject_key;
        credentials = ps;
        valid_authority_grants = length (filter (is_valid_of "AuthorityGrant") ps);
        valid_completions = length (filter (is_valid_of "TaskCompletion") ps);
        invalid_or_revoked = length (filter (λ p. not p.valid) ps);
      }
