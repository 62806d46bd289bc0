-- ===== src/Trust/Service/Agreement.antt =====
-- The numbers of the inspector and those of a decision are the same.
use builder_league.Prelude.{
  >>=-eq-ok, List, Option, String, [], ap, filter, length, not, ok, ok-inj, refl, suc, sym, ℕ, ◌∙◌,
  ◌∷◌, ◌≡◌,
}
use builder_league.Trust.Crypto.{Crypto}
use builder_league.Trust.Credentials.{
  Credential, CredentialType, VerificationFailure, authority_grant, capability_attestation,
  task_completion, verify_credential, vouch,
}
use builder_league.Trust.Policy.{evaluate}
use builder_league.Trust.Service.{Tally, TrustService, count_one, decide, tally}
use builder_league.Trust.Service.Profile.{
  ProfileCredential, is_valid_of, profile_of, trust_profile, with_problems,
}
use builder_league.Trust.Store.{Receipt, for_subject}
use builder_league.Prelude.Int.{ℤ}
use builder_league.Prelude.Values.{get, get_or, int}

module _ (c : Crypto) where
  -- a list of rows and a tally that counted the same credentials
  abbrev pub IsCounted : List ProfileCredential → Tally → Type 0
  IsCounted ps y =
      (length (filter (is_valid_of "AuthorityGrant") ps) ≡ length y.authority)
      × (length (filter (is_valid_of "TaskCompletion") ps) ≡ y.completions)
      × (length (filter (λ p. not p.valid) ps) ≡ length y.failures)

  IsCounted-step :
      (d : Credential c) (fs : List VerificationFailure) (type : CredentialType)
      (ps : List ProfileCredential) (y : Tally)
      → IsCounted ps y
      → IsCounted
          (with_problems c (record d { type = type }) fs ∷ ps)
          (count_one c (record d { type = type }) fs y)
  IsCounted-step d (f ∷ fs) type ps y (a, b, n) = (a, b, ap suc n)
  IsCounted-step d [] authority_grant ps y (a, b, n) = (ap suc a, b, n)
  IsCounted-step d [] task_completion ps y (a, b, n) = (a, ap suc b, n)
  IsCounted-step d [] capability_attestation ps y (a, b, n) = (a, b, n)
  IsCounted-step d [] vouch ps y (a, b, n) = (a, b, n)

  pub tally-IsCounted :
      (now : ℕ) (ds : List (Credential c)) → IsCounted (profile_of c now ds) (tally c now ds)
  unfolding profile_of tally
  tally-IsCounted now [] = (refl, refl, refl)
  tally-IsCounted now (d ∷ ds) =
      IsCounted-step d (verify_credential c d now) d.type (profile_of c now ds) (tally c now ds)
        (tally-IsCounted now ds)

-- When a decision returns, the numbers of valid authority grants and of valid completions in its
-- receipt are those that the profile of the requester shows at that time, and the profile counts as
-- many invalid credentials as the decision found failures.
pub decide_agrees-trust_profile :
    (c : Crypto) (id key action description : String) (now : ℕ) (amount : Option ℤ)
    (t u : TrustService c) (r : Receipt)
    → decide c id now key action amount description t ≡ ok (r, u)
    → (get "valid_authority" r.signals ≡ int (trust_profile c now key t).valid_authority_grants)
      × (get "valid_completions" r.signals ≡ int (trust_profile c now key t).valid_completions)
      × ((trust_profile c now key t).invalid_or_revoked
          ≡ length (tally c now (for_subject c key t.credentials)).failures)
unfolding decide trust_profile get_or
decide_agrees-trust_profile c id key action description now amount t u r h =
    let ds = for_subject c key t.credentials in
    let y = tally c now ds in
    let (a, b, n) = tally-IsCounted c now ds in
    let (result, he, h1) = >>=-eq-ok (evaluate c action amount y.authority y.completions) _ h in
    let q = ap (λ (p : Receipt × TrustService c). p.0.signals) (ok-inj h1) in
    (
      ap (get "valid_authority") (sym q) ∙ ap int (sym a),
      ap (get "valid_completions") (sym q) ∙ ap int (sym b),
      n,
    )
