-- ===== src/Adaptive/Plans.antt =====
-- Plans, steps and assumptions (core/adaptivecore/domain/plans.py). Identifiers, which the code draws
-- from `uuid4`, are arguments. A statement is the list of its pieces.
use builder_league.Prelude.{
  Bool, List, Option, Result, String, [], contains, err, if◌then◌else◌, map, none, ok, ℕ, ◌==◌,
  ◌>>=◌, ◌∷◌, nat_eq, string_eq,
}
use builder_league.Prelude.Values.{
  Fields, Value, dict, end, field, flag, format, int, list, str, values_of,
}

abbrev pub price_at_most : String
price_at_most = "price_at_most"

abbrev pub budget_headroom_at_least : String
budget_headroom_at_least = "budget_headroom_at_least"

abbrev pub authority_valid : String
authority_valid = "authority_valid"

abbrev pub supplier_available : String
supplier_available = "supplier_available"

abbrev pub delivery_within_days : String
delivery_within_days = "delivery_within_days"

abbrev pub better_alternative : String
better_alternative = "better_alternative"

abbrev pub step_actions : List String
step_actions =
    "verify_price" ∷ "verify_authority" ∷ "place_order" ∷ "schedule_delivery" ∷ "confirm_restock"
    ∷ []

-- What the constructors raise.
pub data PlanError : Type 0 where
  unknown_assumption : String → PlanError
  unknown_action : String → PlanError
  missing_param : String → PlanError

pub record Assumption : Type 0 where
  pub id : String
  pub kind : String
  pub params : Fields
  pub statement : Value
  pub critical : Bool

-- `Assumption.as_dict`
unfoldable pub assumption_dict : Assumption → Fields
assumption_dict a = field "id" (str a.id) (
    field "kind" (str a.kind) (
      field "params" (dict a.params)
        (field "statement" a.statement (field "critical" (flag a.critical) end))))

pub record PlanStep : Type 0 where
  pub id : String
  pub index : ℕ
  pub action : String
  pub params : Fields
  pub assumptions : List Assumption
  pub status : String

-- `PlanStep.as_dict`
unfoldable pub step_dict : PlanStep → Fields
unfolding assumption_dict
step_dict s = field "id" (str s.id) (
    field "index" (int s.index) (
      field "action" (str s.action) (
        field "params" (dict s.params) (
          field "assumptions" (list (values_of (map (λ a. dict (assumption_dict a)) s.assumptions)))
            (field "status" (str s.status) end)))))

pub record Plan : Type 0 where
  pub id : String
  pub goal : String
  pub version : ℕ
  pub steps : List PlanStep
  pub supersedes : Option String
  pub created_reason : String

-- `Plan.with_steps`
unfoldable pub with_steps : Plan → List PlanStep → Plan
with_steps p steps = record p { steps = steps }

-- `p[k]`
unfoldable pub require : String → Fields → Result PlanError Value
require k end = err (missing_param k)
require k (field j v r) = if j == k then ok v else require k r

abbrev pub spelt : List Value → Value
spelt pieces = format (values_of pieces)

-- The table `_STATEMENT_BUILDERS`.
unfoldable pub statement_of : String → Fields → Result PlanError Value
unfolding require
statement_of kind p =
    if kind == price_at_most
    then require "supplier" p
      >>= (λ s. require "max_price" p >>= λ m. ok (spelt (s ∷ str " price ≤ $" ∷ m ∷ [])))
    else if kind == budget_headroom_at_least
    then require "min_headroom" p >>= (λ m. ok (spelt (str "budget headroom ≥ $" ∷ m ∷ [])))
    else if kind == authority_valid
    then require "action" p >>= (λ a. ok (spelt (str "valid signed authority for " ∷ a ∷ [])))
    else if kind == supplier_available
    then require "supplier" p >>= (λ s. ok (spelt (s ∷ str " can fulfil orders" ∷ [])))
    else if kind == delivery_within_days
    then require "supplier" p >>= (λ s.
      require "max_days" p >>= λ m. ok (spelt (s ∷ str " delivers within " ∷ m ∷ str " days" ∷ [])))
    else if kind == better_alternative
    then require "supplier" p >>= (λ s. require "margin_pct" p >>= λ m.
        ok (spelt (str "no feasible supplier beats " ∷ s ∷ str " by > " ∷ m ∷ [])))
    else err (unknown_assumption kind)

unfoldable pub make_assumption : String → String → Bool → Fields → Result PlanError Assumption
unfolding statement_of
make_assumption id kind critical params = do
  statement ← statement_of kind params
  ok (record { id = id; kind = kind; params = params; statement = statement; critical = critical })

unfoldable pub make_step :
    String → ℕ → String → Fields → List Assumption → Result PlanError PlanStep
make_step id index action params assumptions =
    if contains action step_actions
    then ok (record {
      id = id;
      index = index;
      action = action;
      params = params;
      assumptions = assumptions;
      status = "pending";
    })
    else err (unknown_action action)

unfoldable pub initial_plan : String → String → List PlanStep → Plan
initial_plan id goal steps = record {
  id = id;
  goal = goal;
  version = 1;
  steps = steps;
  supersedes = none;
  created_reason = "initial";
}
