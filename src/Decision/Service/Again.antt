-- ===== src/Decision/Service/Again.antt =====
-- The same proposal twice.
use mathlib.Core.List.{reverse-append}
use builder_league.Decision.Judgement.{
  Proposal, Verdict, authority_of, history_counts, is_counted, is_favorable, judge_proposal,
}
use builder_league.Prelude.Dict.{Dict}
use builder_league.Decision.Policies.{DomainPolicy, get_policy}
use builder_league.Prelude.{
  ==_cases, >>=-eq-ok, List, Option, Result, String, [], ap, arith, contains, drop, err, filter,
  inl, inr, length, length-append, none, not, ok, ok-inj, raise_if, refl, reverse, slice_last, some,
  suc, sym, ℕ, ◌++◌, ◌-◌, ◌<◌, ◌>>=◌, ◌>>◌, ◌∙◌, ◌∷◌, ◌≡◌, ◌≢◌, ◌≤◌, nat_eq, string_eq,
}
use mathlib.Core.Path.{fun_ext, subst}
use builder_league.Trust.Service as Trusted
use builder_league.Trust.Crypto.{Crypto}
use builder_league.Trust.Credentials.{TrustError}
use builder_league.Trust.Policy.{PolicyResult}
use builder_league.Trust.Service.{TrustService, decision_receipt}
use builder_league.Trust.Store.{Receipt, find_by_key, list_receipts}
use builder_league.Decision.Service.{
  DecisionRecord, Decisions, Draws, Failure, as_failure, as_trust_failure, assess, auditor,
  check_authority, decide, probe, unknown_action, write_decision,
}
use builder_league.Decision.Signals.{Authority}

-- receipts of the probe that decide alike read alike
same-reading :
    {S : Type 0} (r : Result TrustError PolicyResult) (f g : PolicyResult → Receipt × S)
    → ((x : PolicyResult) → authority_of (f x).0 ≡ authority_of (g x).0)
    → (as_trust_failure (r >>= λ x. ok (f x)) >>= λ done. ok (authority_of done.0))
      ≡ (as_trust_failure (r >>= λ x. ok (g x)) >>= λ done. ok (authority_of done.0))
same-reading (ok x) f g h = ap ok (h x)
same-reading (err e) f g h = refl

slice_last-all : {A : Type 0} (n : ℕ) (xs : List A) → length xs ≤ suc n → slice_last (suc n) xs ≡ xs
slice_last-all n xs h =
    let none_over : length xs - suc n ≡ 0 = omega (arith, h) in ap (λ k. drop k xs) none_over

-- a receipt of another agent is not counted
history_counts-other :
    (actor : Option String) (action : String) (r : Receipt) (rs : List Receipt)
    → actor ≢ some r.agent_id
    → length rs < 10000
    → history_counts actor action (list_receipts 10000 (rs ++ (r ∷ [])))
      ≡ history_counts actor action (list_receipts 10000 rs)
unfolding history_counts list_receipts
history_counts-other actor action r rs n h =
    let all =
      ap reverse
        (slice_last-all 9999 (rs ++ (r ∷ [])) (omega (arith, h, length-append rs (r ∷ [])))) in
    let old = ap reverse (slice_last-all 9999 rs (omega (arith, h))) in
    ap (counted actor action) (all ∙ reverse-append rs (r ∷ []))
    ∙ (skip actor n ∙ ap (counted actor action) (sym old))
  where
    counted : Option String → String → List Receipt → ℕ × ℕ
    counted a x receipts =
        let mine = filter (is_counted a x) receipts in
        (length mine, length (filter (λ y. is_favorable y.decision) mine))

    skip :
        (a : Option String)
        → a ≢ some r.agent_id
        → counted a action (r ∷ reverse rs) ≡ counted a action (reverse rs)
    skip none m = refl
    skip (some i) m = elim (==_cases r.agent_id i) [
      | inl (e, b) ↦ absurd (m (ap some (sym e)))
      | inr (e, b) ↦ rw b refl
    ]

module _ (c : Crypto) where
  -- what the probe finds rests on the agents, the credentials and the clock
  same-authority :
      (d e : Draws) (p : DomainPolicy) (q : Proposal) (t : TrustService c) (rs : List Receipt)
      → e.now ≡ d.now
      → check_authority c e p q (record t { receipts = rs }) ≡ check_authority c d p q t
  unfolding check_authority probe Trusted.decide authority_of decision_receipt
  same-authority d e p q t rs n =
      subst
        (λ k.
          check_authority c (record e { now = k }) p q (record t { receipts = rs })
          ≡ check_authority c d p q t)
        (sym n) (same-reading _ _ _ (λ x. refl))

  -- the receipt of a decision is not one of the actor
  unfoldable pub IsApart : Proposal → TrustService c → Type 0
  unfolding auditor
  IsApart q t = find_by_key q.actor_key t.registry ≢ some (auditor c q)

  same-assessment :
      (table : Dict String DomainPolicy) (d e : Draws) (q : Proposal) (t : TrustService c)
      (r : Receipt)
      → e.now ≡ d.now
      → r.agent_id ≡ auditor c q
      → IsApart q t
      → length t.receipts < 10000
      → assess c table e q (record t { receipts = t.receipts ++ (r ∷ []) }) ≡ assess c table d q t
  unfolding assess IsApart
  same-assessment table d e q t r n a h l =
      let actor = find_by_key q.actor_key t.registry in
      let before = history_counts actor q.action (list_receipts 10000 t.receipts) in
      let rs = t.receipts ++ (r ∷ []) in
      let counts = history_counts-other actor q.action r t.receipts (λ x. h (x ∙ ap some a)) l in
      ap known (
        fun_ext λ p.
          ap (λ k. by_counts k p (check_authority c e p q (record t { receipts = rs }))) counts
          ∙ ap (by_counts before p) (same-authority d e p q t rs n))
    where
      known : (DomainPolicy → Result Failure Verdict) → Result Failure Verdict
      known f = as_failure (get_policy q.domain table) >>= λ p.
          raise_if (not (contains q.action p.actions)) (unknown_action q.action) >> f p

      by_counts : ℕ × ℕ → DomainPolicy → Result Failure Authority → Result Failure Verdict
      by_counts n p m = m >>= λ a. as_failure (judge_proposal p q n a)

-- A proposal that is decided is decided again, on what the first decision left and with other
-- identifiers, with the same outcome, path, confidence and risk, if the clock reads the same, the log has
-- less than ten thousand receipts, and the actor is not registered under the name of the audit receipts.
pub decided_again :
    (c : Crypto) (d e : Draws) (q : Proposal) (w u : Decisions c) (r : DecisionRecord)
    → decide c d q w ≡ ok (r, u)
    → e.now ≡ d.now
    → IsApart c q w.trust
    → length w.trust.receipts < 10000
    → (s : DecisionRecord) × (v : Decisions c) × (decide c e q u ≡ ok (s, v))
      × (s.outcome ≡ r.outcome)
      × (s.resolution_path ≡ r.resolution_path)
      × (s.confidence ≡ r.confidence)
      × (s.risk ≡ r.risk)
unfolding decide write_decision Trusted.record_event
decided_again c d e q w u r h n apart l =
    let (v, hv, h1) = >>=-eq-ok (assess c w.policies d q w.trust) _ h in
    let done = ok-inj h1 in
    let left = write_decision c d q v w in
    let again : assess c w.policies e q left.1.trust ≡ ok v =
      same-assessment c w.policies d e q w.trust _ n refl apart l ∙ hv in
    let again_u : assess c u.policies e q u.trust ≡ ok v =
      ap (λ (x : DecisionRecord × Decisions c). assess c x.1.policies e q x.1.trust) (sym done)
      ∙ again in
    let (s, x) = write_decision c e q v u in
    (
      s,
      x,
      ap (λ m. m >>= λ y. ok (write_decision c e q y u)) again_u,
      ap (λ (x : DecisionRecord × Decisions c). x.0.outcome) done,
      ap (λ (x : DecisionRecord × Decisions c). x.0.resolution_path) done,
      ap (λ (x : DecisionRecord × Decisions c). x.0.confidence) done,
      ap (λ (x : DecisionRecord × Decisions c). x.0.risk) done,
    )
