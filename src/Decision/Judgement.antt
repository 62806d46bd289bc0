-- ===== src/Decision/Judgement.antt =====
-- How `DecisionService` (core/decisioncore/application/services.py) judges a proposal from the history
-- and the authority of its actor. Scores are thousandths, amounts are millionths and not negative. A
-- weighted mean is rounded down: it is only compared with whole thousandths, and for those that changes
-- nothing. The record keeps it rounded to the nearest.
use builder_league.Decision.Policies.{
  Compensation, Cost, DecisionError, DomainPolicy, compensation_for, high,
}
use builder_league.Decision.Signals.{
  Authority, Side, SignalScore, authority_risk_signal, authority_signal, cost_of_wrong_signal,
  evidence_signal, for_confidence, for_risk, history_signal, invalid, reversibility_risk_signal,
  reversibility_signal, round_div, uncertain, valid,
}
use builder_league.Decision.Resolve.{Resolution, resolve}
use builder_league.Prelude.Values.{Fields, get, get_or, int, truthy}
use builder_league.Prelude.{
  Bool, List, Option, Result, String, [], false, filter, if◌then◌else◌, length, map, none, not, ok,
  some, suc, true, zero, ℕ, ◌&&◌, ◌*◌, ◌++◌, ◌+◌, ◌/◌, ◌==◌, ◌∷◌, nat_eq, string_eq, ◌>>=◌,
}
use builder_league.Prelude.Dict.{Dict}
use builder_league.Prelude.Dict
use builder_league.Trust.Policy.{PolicyDecision}
use builder_league.Trust.Policy
use builder_league.Trust.Store.{Receipt}

pub record Proposal : Type 0 where
  pub domain : String
  pub action : String
  pub actor_key : String
  pub amount : Option ℕ
  pub context : Fields

-- `str(decision) in ("allow", "execute")`
abbrev pub is_favorable : PolicyDecision → Bool
is_favorable Policy.allow = true
is_favorable _ = false

-- the receipts of the actor for the action; an actor without an identifier has none
abbrev pub is_counted : Option String → String → Receipt → Bool
is_counted none action r = false
is_counted (some i) action r = (r.agent_id == i) && (r.action == action)

-- `_history_counts`
unfoldable pub history_counts : Option String → String → List Receipt → ℕ × ℕ
history_counts actor action receipts =
    let mine = filter (is_counted actor action) receipts in
    (length mine, length (filter (λ r. is_favorable r.decision) mine))

-- `_weighted_sum`, rounded down and to the nearest; a total of zero counts as one
abbrev pub on_side : Side → Side → Bool
on_side for_confidence for_confidence = true
on_side for_risk for_risk = true
on_side _ _ = false

abbrev pub sum_of : List ℕ → ℕ
sum_of [] = 0
sum_of (n ∷ ns) = n + sum_of ns

abbrev pub or_one : ℕ → ℕ
or_one zero = 1000
or_one (suc n) = suc n

unfoldable pub weighted_sum : List SignalScore → Side → Dict String ℕ → (ℕ → ℕ → ℕ) → ℕ
weighted_sum signals side weights divide =
    divide
      (sum_of (map (λ s. s.value * s.weight) (filter (λ s. on_side s.contributes_to side) signals)))
      (or_one (sum_of (Dict.values weights)))

-- what a receipt of the trust service says of the authority
unfoldable pub authority_of : Receipt → Authority
unfolding truthy get_or
authority_of r = elim r.decision [
  | Policy.refuse ↦
      if truthy (get "failures" r.signals)
      then invalid
      else (if truthy (get_or "valid_authority" (int 0) r.signals) then valid else uncertain)
  | _ ↦ valid
]

-- `compensation.exists and not (compensation.partial and compensation.cost == "high")`
abbrev pub is_high : Cost → Bool
is_high high = true
is_high _ = false

abbrev pub is_reversible : Compensation → Bool
is_reversible k = k.exists && not (k.partial && is_high k.cost)

abbrev pub is_uncertain : Authority → Bool
is_uncertain uncertain = true
is_uncertain _ = false

abbrev pub missing_information : List String → Authority → ℕ → List String
missing_information missing authority total =
    missing
    ++ ((if is_uncertain authority then "valid_authority_grant" ∷ [] else [])
        ++ (if total == 0 then "track_record" ∷ [] else []))

unfoldable pub gather_signals :
    DomainPolicy
    → Authority
    → Compensation
    → SignalScore
    → Option ℕ
    → ℕ
    → ℕ
    → Result DecisionError (List SignalScore)
unfolding authority_signal reversibility_signal cost_of_wrong_signal history_signal
    authority_risk_signal reversibility_risk_signal
gather_signals p authority k evidence amount total favorable = do
  a ← authority_signal p authority
  r ← reversibility_signal p k
  w ← cost_of_wrong_signal p amount
  h ← history_signal p total favorable
  ar ← authority_risk_signal p authority
  rr ← reversibility_risk_signal p k
  ok (a ∷ r ∷ evidence ∷ w ∷ h ∷ ar ∷ rr ∷ [])

-- what the proposal, the history and the authority come to
pub record Verdict : Type 0 where
  pub resolution : Resolution
  pub confidence : ℕ
  pub risk : ℕ
  pub signals : List SignalScore
  pub present : List String
  pub missing : List String
  pub compensation : Compensation

unfoldable pub judge_proposal :
    DomainPolicy → Proposal → ℕ × ℕ → Authority → Result DecisionError Verdict
unfolding compensation_for evidence_signal gather_signals weighted_sum resolve round_div
judge_proposal p q (total, favorable) authority = do
  let k = compensation_for p q.action
  e ← evidence_signal p q.context
  let (evidence, missing, present) = e
  signals ← gather_signals p authority k evidence q.amount total favorable
  let resolution =
      resolve p (weighted_sum signals for_confidence p.confidence_weights ◌/◌)
        (weighted_sum signals for_risk p.risk_weights ◌/◌)
        (record { authority = authority; reversible = is_reversible k; missing_required = missing })
  ok (record {
    resolution = resolution;
    confidence = weighted_sum signals for_confidence p.confidence_weights round_div;
    risk = weighted_sum signals for_risk p.risk_weights round_div;
    signals = signals;
    present = present;
    missing = missing_information missing authority total;
    compensation = k;
  })
