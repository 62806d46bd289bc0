-- ===== src/Tower/Registry.antt =====
-- The operator's view of the fleet, a fold of the stream and the gate
-- (core/towercore/domain/registry.py).
pub mod Status
use Prim.Native.Nat.{Ordering}
use Prim.Native.String.{compare}
use builder_league.Prelude.{
  List, Result, String, [], eqb, if◌then◌else◌, last?, last_n, length, map, none, ok, some, ℕ, ◌++◌,
  ◌>>=◌, ◌∷◌, nat_eq, string_eq,
}
use builder_league.Prelude.Dict
use builder_league.Prelude.Dict.{Dict}
use builder_league.Prelude.Int.{pos, ℤ}
use builder_league.Prelude.Values.{Fields, Value, get, null, to_int}
use builder_league.Tower.Errors.{Error, State, active, awaiting, killed, paused}
use builder_league.Tower.Events
use builder_league.Tower.Events.{AgentEvent}
use builder_league.Tower.Stream.{EventStream, for_agent}
use builder_league.Tower.Gate
use builder_league.Tower.Gate.{Gate}
use builder_league.Tower.Anomaly.{DriftFlag, action_of, detect_drift, of_kind, spent_usd, sum_costs}

pub record AgentView : Type 0 where
  pub agent_id : String
  pub status : String
  pub last_action : Value
  pub blockers : List Value
  pub drift : List DriftFlag
  pub cost_usd : ℤ
  pub cost_basis : String
  pub budget_usd : ℤ
  pub tokens : ℤ
  pub event_count : ℕ
  pub recent : List Fields

-- the ladder over the control state; `blocked` and `running` share a state
unfoldable pub status_of : State → List Value → String
status_of killed blockers = "killed"
status_of paused blockers = "paused"
status_of awaiting blockers = "awaiting_approval"
status_of active [] = "running"
status_of active (_ ∷ _) = "blocked"

abbrev pub blockers_of : List AgentEvent → List Value
blockers_of events = map (λ e. get "blocker" e.payload) (of_kind "blocker_raised" events)

abbrev last_action_of : List AgentEvent → Value
last_action_of events = elim (last? (of_kind "action_executed" events)) [
  | none ↦ null
  | some e ↦ action_of e
]

-- `events[-n:]`, which is the whole list for n = 0
abbrev pub from_end : ℕ → List AgentEvent → List AgentEvent
from_end n events = if eqb n 0 then events else last_n n events

-- `_agent_view`
unfoldable pub agent_view : EventStream → Gate → String → ℤ → ℕ → Result Error AgentView
unfolding sum_costs to_int status_of Events.as_dict
agent_view s g agent_id budget_usd recent_n = do
  let events = for_agent s agent_id
  cost ← spent_usd events
  tokens ← sum_costs "tokens" to_int events
  drift ← detect_drift s agent_id budget_usd
  ok (record {
    agent_id = agent_id;
    status = status_of (Gate.state g agent_id) (blockers_of events);
    last_action = last_action_of events;
    blockers = blockers_of events;
    drift = drift;
    cost_usd = cost;
    cost_basis = "metered_estimate";
    budget_usd = budget_usd;
    tokens = tokens;
    event_count = length events;
    recent = map Events.as_dict (from_end recent_n events);
  })

-- one text more in a sorted list without repetitions
unfoldable pub insert_sorted : String → List String → List String
insert_sorted a [] = a ∷ []
insert_sorted a (x ∷ xs) =
    let rest = insert_sorted a xs in
    elim (compare a x) [ Ordering.lt ↦ a ∷ x ∷ xs | Ordering.eq ↦ x ∷ xs | Ordering.gt ↦ x ∷ rest ]

-- `sorted(set(xs))`
unfoldable pub sorted_set : List String → List String
unfolding insert_sorted
sorted_set [] = []
sorted_set (x ∷ xs) = insert_sorted x (sorted_set xs)

unfoldable pub fleet_ids : EventStream → Gate → Dict String ℤ → List String
unfolding sorted_set
fleet_ids s g budgets =
    sorted_set (map (λ e. e.agent_id) s.events ++ (Dict.keys g.states ++ Dict.keys budgets))

abbrev views :
    EventStream → Gate → Dict String ℤ → ℕ → List String → Result Error (Dict String AgentView)
views s g budgets n [] = ok []
views s g budgets n (a ∷ ids) =
    let rest = views s g budgets n ids in
    (agent_view s g a (Dict.get_or a (pos 0) budgets) n >>= λ v. rest >>= λ vs. ok ((a, v) ∷ vs))

unfoldable pub fleet_view :
    EventStream → Gate → Dict String ℤ → ℕ → Result Error (Dict String AgentView)
unfolding fleet_ids
fleet_view s g budgets recent_n = views s g budgets recent_n (fleet_ids s g budgets)
