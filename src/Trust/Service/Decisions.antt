-- ===== src/Trust/Service/Decisions.antt =====
-- What an allowed decision rests on.
use builder_league.Prelude.{
  >>=-eq-ok, Any, Bool, List, Option, String, [], ap, arith, false, if◌then◌else◌, inl, inr, ok,
  ok-inj, refl, suc, true, zero, ℕ, ◌<◌, ◌∙◌, ◌∷◌, ◌≡◌, ◌⊎◌,
}
use builder_league.Prelude.Int.{ℤ}
use builder_league.Trust.Crypto.{Crypto}
use builder_league.Trust.Credentials.{
  Credential, CredentialType, VerificationFailure, authority_grant, capability_attestation,
  task_completion, verify_credential, vouch,
}
use builder_league.Trust.Policy.{Claim, PolicyResult, allow, covering, covers, evaluate, judge}
use builder_league.Trust.Service.{Tally, TrustService, count_one, decide, tally}
use builder_league.Trust.Store.{Receipt, for_subject}

covering-found :
    (c : Crypto) (action : String) (amount : Option ℤ) (claims found : List Claim) (x : Claim)
    → covering c action amount claims ≡ ok (x ∷ found)
    → Any (λ k. covers c k action amount ≡ ok true) claims
unfolding covering
covering-found c action amount [] found x h = ground (arith, h)
covering-found c action amount (k ∷ ks) found x h =
    let (b, hb, h1) = >>=-eq-ok (covers c k action amount) _ h in
    let (rest, hr, h2) = >>=-eq-ok (covering c action amount ks) _ h1 in
    by_test b rest hb (λ q. covering-found c action amount ks found x (hr ∙ ap ok q)) (ok-inj h2)
  where
    by_test :
        (b : Bool) (rest : List Claim)
        → covers c k action amount ≡ ok b
        → (rest ≡ x ∷ found → Any (λ j. covers c j action amount ≡ ok true) ks)
        → (if b then k ∷ rest else rest) ≡ x ∷ found
        → Any (λ j. covers c j action amount ≡ ok true) (k ∷ ks)
    by_test true rest hb later q = inl hb
    by_test false rest hb later q = inr (later q)

module _ (c : Crypto) (now : ℕ) where
  -- a credential without failures, of a type
  abbrev pub IsGood : CredentialType → Credential c → Type 0
  IsGood type d = (verify_credential c d now ≡ []) × (d.type ≡ type)

  abbrev pub claim_of : Credential c → Claim
  claim_of d = record { id = d.id; scope = d.scope }

  Any-count :
      (P : Claim → Type 0) (d : Credential c) (fs : List VerificationFailure)
      (type : CredentialType) (y : Tally)
      → verify_credential c d now ≡ fs
      → d.type ≡ type
      → Any P (count_one c (record d { type = type }) fs y).authority
      → (IsGood authority_grant d × P (claim_of d)) ⊎ Any P y.authority
  Any-count P d (f ∷ fs) type y q t h = inr h
  Any-count P d [] authority_grant y q t (inl h) = inl ((q, t), h)
  Any-count P d [] authority_grant y q t (inr h) = inr h
  Any-count P d [] task_completion y q t h = inr h
  Any-count P d [] capability_attestation y q t h = inr h
  Any-count P d [] vouch y q t h = inr h

  Any-tally :
      (P : Claim → Type 0) (ds : List (Credential c))
      → Any P (tally c now ds).authority
      → Any (λ d. IsGood authority_grant d × P (claim_of d)) ds
  unfolding tally
  Any-tally P [] h = h
  Any-tally P (d ∷ ds) h =
      elim (Any-count P d (verify_credential c d now) d.type (tally c now ds) refl refl h) [
        | inl good ↦ inl good
        | inr later ↦ inr (Any-tally P ds later)
      ]

  completed-count :
      (d : Credential c) (fs : List VerificationFailure) (type : CredentialType) (y : Tally)
      → verify_credential c d now ≡ fs
      → d.type ≡ type
      → 0 < (count_one c (record d { type = type }) fs y).completions
      → IsGood task_completion d ⊎ (0 < y.completions)
  completed-count d (f ∷ fs) type y q t h = inr h
  completed-count d [] task_completion y q t h = inl (q, t)
  completed-count d [] authority_grant y q t h = inr h
  completed-count d [] capability_attestation y q t h = inr h
  completed-count d [] vouch y q t h = inr h

  completed-tally :
      (ds : List (Credential c))
      → 0 < (tally c now ds).completions
      → Any (IsGood task_completion) ds
  unfolding tally
  completed-tally [] h = absurd (omega (arith, h))
  completed-tally (d ∷ ds) h =
      elim (completed-count d (verify_credential c d now) d.type (tally c now ds) refl refl h) [
        | inl good ↦ inl good
        | inr later ↦ inr (completed-tally ds later)
      ]

allowed_by :
    (found : List Claim) (n : ℕ)
    → (judge found n).decision ≡ allow
    → ((x : Claim) × (xs : List Claim) × (found ≡ x ∷ xs)) × (0 < n)
unfolding judge
allowed_by [] n h = cc
allowed_by (x ∷ xs) zero h = cc
allowed_by (x ∷ xs) (suc n) h = ((x, xs, refl), omega arith)

-- When an action is allowed, one of the requester's own credentials is an authority grant without
-- failures whose scope covers the action and the amount, and one is a completed task without failures.
pub allow_needs_credentials :
    (c : Crypto) (id key action description : String) (now : ℕ) (amount : Option ℤ)
    (t u : TrustService c) (r : Receipt)
    → decide c id now key action amount description t ≡ ok (r, u)
    → r.decision ≡ allow
    → Any
        (λ d.
          IsGood c now authority_grant d × (covers c (claim_of c now d) action amount ≡ ok true))
        (for_subject c key t.credentials)
      × Any (IsGood c now task_completion) (for_subject c key t.credentials)
unfolding decide evaluate
allow_needs_credentials c id key action description now amount t u r h allowed =
    let ds = for_subject c key t.credentials in
    let y = tally c now ds in
    let (result, he, h1) = >>=-eq-ok (evaluate c action amount y.authority y.completions) _ h in
    let (found, hf, h2) = >>=-eq-ok (covering c action amount y.authority) _ he in
    let decided : (judge found y.completions).decision ≡ allow =
      ap (λ (x : PolicyResult). x.decision) (ok-inj h2)
      ∙ (ap (λ (p : Receipt × TrustService c). p.0.decision) (ok-inj h1) ∙ allowed) in
    let ((x, xs, q), n) = allowed_by found y.completions decided in
    (
      Any-tally c now (λ k. covers c k action amount ≡ ok true) ds
          (covering-found c action amount y.authority xs x (hf ∙ ap ok q)),
      completed-tally c now ds n,
    )
