-- ===== src/Decision/Signals.antt =====
-- The five weighted signals (core/decisioncore/domain/signals.py). Values are thousandths, rounded
-- from exact fractions, ties going to the even one. An amount is not negative. The wording of the
-- details is not kept.
pub mod Evidence
use builder_league.Prelude.{
  Bool, List, Option, Result, String, false, filter, if◌then◌else◌, length, ltb, min, none, not, ok,
  or_raise, some, suc, true, zero, ℕ, ◌%◌, ◌*◌, ◌++◌, ◌+◌, ◌-◌, ◌/◌, ◌==◌, nat_eq, string_eq, ◌>>=◌,
  ◌>>◌,
}
use builder_league.Prelude.Values.{Fields, Value, get, get_or, list, nil, null, str}
use builder_league.Prelude.Dict.{Dict}
use builder_league.Decision.Policies.{
  Compensation, DecisionError, DomainPolicy, missing_weight, reversibility_score,
}
use builder_league.Prelude.Dict

pub data Authority : Type 0 where
  valid uncertain invalid : Authority

pub data Side : Type 0 where
  for_confidence for_risk : Side

pub record SignalScore : Type 0 where
  pub name : String
  pub value : ℕ
  pub weight : ℕ
  pub contributes_to : Side

-- `round(a / b)`, for a positive b
unfoldable pub round_div : ℕ → ℕ → ℕ
round_div a b =
    let q = a / b in
    let twice = 2 * (a % b) in if ltb twice b then q else if ltb b twice then suc q else q + q % 2

-- `weights[name]`
abbrev pub weight_of : String → Dict String ℕ → Result DecisionError ℕ
unfolding Dict.lookup
weight_of name weights = or_raise (Dict.lookup name weights) (missing_weight name)

abbrev pub score : String → ℕ → Side → Dict String ℕ → Result DecisionError SignalScore
score name value side weights = do
  w ← weight_of name weights
  ok (record { name = name; value = value; weight = w; contributes_to = side })

abbrev pub authority_value : Authority → ℕ
authority_value valid = 1000
authority_value uncertain = 350
authority_value invalid = 0

abbrev pub authority_risk : Authority → ℕ
authority_risk valid = 0
authority_risk uncertain = 600
authority_risk invalid = 1000

unfoldable pub authority_signal : DomainPolicy → Authority → Result DecisionError SignalScore
authority_signal p a = score "authority" (authority_value a) for_confidence p.confidence_weights

unfoldable pub authority_risk_signal : DomainPolicy → Authority → Result DecisionError SignalScore
authority_risk_signal p a = score "authority" (authority_risk a) for_risk p.risk_weights

unfoldable pub reversibility_signal : DomainPolicy → Compensation → Result DecisionError SignalScore
unfolding reversibility_score
reversibility_signal p c =
    score "reversibility" (reversibility_score c) for_confidence p.confidence_weights

unfoldable pub reversibility_risk_signal :
    DomainPolicy → Compensation → Result DecisionError SignalScore
unfolding reversibility_score
reversibility_risk_signal p c =
    score "reversibility" (1000 - reversibility_score c) for_risk p.risk_weights

-- `v in (None, "", [])`
abbrev pub is_blank : Value → Bool
is_blank null = true
is_blank (str s) = s == ""
is_blank (list nil) = true
is_blank _ = false

abbrev pub is_missing : Fields → String → Bool
unfolding get_or
is_missing context f = is_blank (get f context)

unfoldable pub missing_of : DomainPolicy → Fields → List String
missing_of p context = filter (is_missing context) p.required_evidence

unfoldable pub present_of : Fields → List String → List String
present_of context fields = filter (λ f. not (is_missing context f)) fields

-- `0.8 * required_ratio + optional_bonus`, of m present among n, and of o present among k
abbrev pub evidence_value : ℕ → ℕ → ℕ → ℕ → ℕ
evidence_value m zero o zero = 800
evidence_value m (suc n) o zero = round_div (800 * m) (suc n)
evidence_value m zero o (suc k) = min 1000 (round_div (800 * suc k + 200 * o) (suc k))
evidence_value m (suc n) o (suc k) =
    min 1000 (round_div (800 * m * suc k + 200 * o * suc n) (suc n * suc k))

unfoldable pub evidence_signal :
    DomainPolicy → Fields → Result DecisionError (SignalScore × List String × List String)
unfolding missing_of present_of
evidence_signal p context = do
  let required = present_of context p.required_evidence
  let optional = present_of context p.optional_evidence
  s ←
      score "evidence"
        (evidence_value (length required) (length p.required_evidence) (length optional)
          (length p.optional_evidence))
        for_confidence p.confidence_weights
  ok (s, missing_of p context, required ++ optional)

abbrev pub cost_value : Option ℕ → ℕ → ℕ
cost_value none threshold = 300
cost_value (some amount) zero = 500
cost_value (some amount) (suc t) = min 1000 (round_div (500 * amount) (suc t))

unfoldable pub cost_of_wrong_signal : DomainPolicy → Option ℕ → Result DecisionError SignalScore
cost_of_wrong_signal p amount =
    score "cost_of_wrong" (cost_value amount p.cost_threshold) for_risk p.risk_weights

abbrev pub history_value : ℕ → ℕ → ℕ
history_value zero favorable = 300
history_value (suc n) favorable = round_div (1000 * favorable) (suc n)

unfoldable pub history_signal : DomainPolicy → ℕ → ℕ → Result DecisionError SignalScore
history_signal p total favorable =
    score "history" (history_value total favorable) for_confidence p.confidence_weights
