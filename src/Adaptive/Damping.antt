-- ===== src/Adaptive/Damping.antt =====
-- The stability layer (core/adaptivecore/domain/damping.py). Reasons are the rule that fired: their
-- wording is not kept. A number that an observed text shows has two decimals, as a multiple of one
-- millionth.
pub mod Stability
use builder_league.Prelude.{
  Bool, List, Option, String, [], false, filter, if◌then◌else◌, leb, ltb, none, not, some, suc, ℕ,
  ◌%◌, ◌*◌, ◌++◌, ◌+◌, ◌-◌, ◌/◌, ◌==◌, ◌||◌, ◌∷◌, nat_eq, string_eq,
}
use builder_league.Prelude.Values.{Value, cons, format, num, str}
use builder_league.Prelude.Int.{pos}
use builder_league.Prelude.Dict.{Dict}
use builder_league.Adaptive.Plans.{budget_headroom_at_least, price_at_most}
use builder_league.Adaptive.Checks.{Contradiction}
use builder_league.Prelude.Dict

-- the verdicts, `DAMPED` with its reason
pub data Verdict : Type 0 where
  damped_empty : Verdict
  damped_cooldown : ℕ → Verdict
  damped_margins : Verdict
  allowed : Verdict
  escalate_budget : ℕ → ℕ → Verdict
  escalate_oscillation : Verdict

pub record DampingState : Type 0 where
  pub revision_count : ℕ
  pub max_revisions : ℕ
  pub cooldown_until_seq : ℕ
  pub recent_plan_shapes : List String
  pub last_trigger_values : Dict String ℕ
  pub margin_pct : ℕ
  pub cooldown_span : ℕ
  pub epsilon : ℕ

pub record DampingDecision : Type 0 where
  pub verdict : Verdict
  pub surviving : List Contradiction

-- `f"{x:.2f}"` read back, ties going to the even cent
abbrev cents : ℕ → ℕ
cents n =
    let q = n / 10000 in
    let r = n % 10000 in 10000 * (if ltb r 5000 then q else if ltb 5000 r then suc q else q + q % 2)

-- the number after a label: the pattern `[\d.]+` does not match a minus sign
abbrev after_label : String → Value → Option ℕ
after_label label (format (cons (str s) (cons (num (pos n)) r))) =
    if s == label then some (cents n) else none
after_label label _ = none

-- `_observed_number`
unfoldable pub observed_number : Contradiction → Option ℕ
observed_number c =
    if c.assumption_kind == price_at_most
    then after_label "price = " c.observed
    else if c.assumption_kind == budget_headroom_at_least
    then after_label "headroom = " c.observed
    else none

-- the distance of two numbers
abbrev pub distance : ℕ → ℕ → ℕ
distance a b = (a - b) + (b - a)

-- `delta <= threshold`: within the margin of the last trigger, or within epsilon
abbrev pub is_near : DampingState → ℕ → ℕ → Bool
is_near s n last =
    leb (distance n last * 1000000) (last * s.margin_pct) || leb (distance n last) s.epsilon

-- rule 1 on one contradiction
unfoldable pub is_absorbed : DampingState → Contradiction → Bool
unfolding observed_number Dict.lookup
is_absorbed s c = elim (observed_number c) [
  | none ↦ false
  | some n ↦ elim (Dict.lookup c.assumption_kind s.last_trigger_values) [
    | none ↦ false
    | some last ↦ is_near s n last
  ]
]

-- `recent_plan_shapes[-2] == shape`
unfoldable pub repeats : String → List String → Bool
repeats shape [] = false
repeats shape (a ∷ []) = false
repeats shape (a ∷ b ∷ []) = a == shape
repeats shape (a ∷ b ∷ c ∷ r) = repeats shape (b ∷ c ∷ r)

abbrev decide : Verdict → List Contradiction → DampingDecision
decide verdict surviving = record { verdict = verdict; surviving = surviving }

abbrev pub judge_surviving : List Contradiction → DampingDecision
judge_surviving [] = decide damped_margins []
judge_surviving (c ∷ cs) = decide allowed (c ∷ cs)

-- `evaluate_damping`
unfoldable pub evaluate_damping : DampingState → List Contradiction → String → ℕ → DampingDecision
unfolding repeats is_absorbed
evaluate_damping s [] shape seq = decide damped_empty []
evaluate_damping s (c ∷ cs) shape seq =
    if repeats shape s.recent_plan_shapes
    then decide escalate_oscillation (c ∷ cs)
    else if leb s.max_revisions s.revision_count
    then decide (escalate_budget s.revision_count s.max_revisions) (c ∷ cs)
    else if leb seq s.cooldown_until_seq
    then decide (damped_cooldown s.cooldown_until_seq) []
    else judge_surviving (filter (λ x. not (is_absorbed s x)) (c ∷ cs))

-- the loop of `record_revision`
unfoldable pub remember : List Contradiction → Dict String ℕ → Dict String ℕ
unfolding observed_number Dict.insert
remember [] m = m
remember (c ∷ cs) m =
    remember cs (elim (observed_number c) [ none ↦ m | some n ↦ Dict.insert c.assumption_kind n m ])

-- `record_revision`
unfoldable pub record_revision : DampingState → List Contradiction → String → ℕ → DampingState
unfolding remember
record_revision s cs shape seq = record s {
  revision_count = suc s.revision_count;
  recent_plan_shapes = s.recent_plan_shapes ++ (shape ∷ []);
  cooldown_until_seq = seq + s.cooldown_span;
  last_trigger_values = remember cs s.last_trigger_values;
}
