-- ===== src/Tower/Anomaly.antt =====
-- Drift detection over the event stream (core/towercore/domain/anomaly.py). The action of an event
-- is a text where it is looked up among the routine actions.
use builder_league.Prelude.{
  Bool, List, Option, Result, String, [], contains, false, filter, if◌then◌else◌, last?, last_n,
  leb, length, map, none, not, ok, or_raise, raise_if, some, true, ℕ, ◌&&◌, ◌++◌, ◌==◌, ◌>>=◌, ◌>>◌,
  ◌∷◌, nat_eq, string_eq,
}
use builder_league.Prelude.Int.{ltb_ℤ, pos, ℤ, ◌+ℤ◌}
use builder_league.Prelude.Values.{
  Fields, Value, dict, end, field, format, get, get_or, int, list, num, same, str, to_float, truthy,
  unread, values_of,
}
use builder_league.Tower.Errors.{Error, bad_number, bad_text}
use builder_league.Tower.Events.{AgentEvent}
use builder_league.Tower.Stream.{EventStream, for_agent}

abbrev pub denial_burst_threshold : ℕ
denial_burst_threshold = 3

abbrev pub denial_burst_window : ℕ
denial_burst_window = 10

abbrev pub escalation_burst_threshold : ℕ
escalation_burst_threshold = 2

abbrev pub escalation_burst_window : ℕ
escalation_burst_window = 8

abbrev pub oscillation_lookback : ℕ
oscillation_lookback = 4

abbrev pub routine_actions : List String
routine_actions =
    "check_stock" ∷ "size_order" ∷ "verify_delivery" ∷ "pop_ticket" ∷ "pick_release"
    ∷ "verify_ticket" ∷ []

abbrev meaningful_kinds : List String
meaningful_kinds =
    "action_executed" ∷ "action_denied" ∷ "approval_requested" ∷ "drift_flagged"
    ∷ "intervention_applied" ∷ "blocker_raised" ∷ "cost_recorded" ∷ []

-- `e.payload.get("action")`
abbrev pub action_of : AgentEvent → Value
action_of e = get "action" e.payload

abbrev is_routine : Value → Bool
is_routine (str s) = contains s routine_actions
is_routine _ = false

-- the tests of the loop in `_meaningful`
unfoldable pub is_meaningful : AgentEvent → Bool
is_meaningful e =
    contains e.kind meaningful_kinds
    && not ((e.kind == "action_executed") && is_routine (action_of e))

unfoldable pub meaningful : List AgentEvent → List AgentEvent
unfolding is_meaningful
meaningful events = filter is_meaningful events

pub record DriftFlag : Type 0 where
  pub agent_id : String
  pub kind : String
  pub summary : Value
  pub detail : Fields

-- `DriftFlag.as_dict`
unfoldable pub as_dict : DriftFlag → Fields
as_dict f =
    field "agent_id" (str f.agent_id)
      (field "kind" (str f.kind) (field "summary" f.summary (field "detail" (dict f.detail) end)))

abbrev pub of_kind : String → List AgentEvent → List AgentEvent
of_kind kind = filter (λ e. e.kind == kind)

-- the flag of a burst; its agent is that of the last event of the burst
abbrev burst_flag : String → List AgentEvent → Value → Fields → Option DriftFlag
burst_flag kind found summary detail = elim (last? found) [
  | none ↦ none
  | some e ↦
      some (record { agent_id = e.agent_id; kind = kind; summary = summary; detail = detail })
]

unfoldable pub escalation_burst : List AgentEvent → Option DriftFlag
escalation_burst events =
    let window = last_n escalation_burst_window events in
    let requests = of_kind "approval_requested" window in
    if leb escalation_burst_threshold (length requests)
    then burst_flag "escalation_burst" requests
        (format (
          values_of (
            int (length requests)
            ∷ str " over-authority action requests in the last "
            ∷ int (length window)
            ∷ str " events — demanding actions a human must clear"
            ∷ [])))
        (field "requests" (int (length requests)) (
          field "window" (int escalation_burst_window)
            (field "actions" (list (values_of (map action_of requests))) end)))
    else none

unfoldable pub denial_burst : List AgentEvent → Option DriftFlag
denial_burst events =
    let window = last_n denial_burst_window events in
    let denials = of_kind "action_denied" window in
    if leb denial_burst_threshold (length denials)
    then burst_flag "denial_burst" denials
        (format (
          values_of (
            int (length denials)
            ∷ str " denied actions in the last "
            ∷ int (length window)
            ∷ str " events — colliding with enforcement"
            ∷ [])))
        (field "denials" (int (length denials)) (
          field "window" (int denial_burst_window) (
            field "events_seen" (int (length window))
              (field "denied_actions" (list (values_of (map action_of denials))) end))))
    else none

-- `sum(float(e.payload.get(key, 0)) for e in events if e.kind == "cost_recorded")`, by the reading
-- of a number that is given
unfoldable pub sum_costs : String → (Value → Option ℤ) → List AgentEvent → Result Error ℤ
sum_costs key read [] = ok (pos 0)
sum_costs key read (e ∷ es) =
    let rest = sum_costs key read es in
    if e.kind == "cost_recorded"
    then (or_raise (read (get_or key (int 0) e.payload)) bad_number >>= λ n.
        rest >>= λ total. ok (n +ℤ total))
    else rest

unfoldable pub spent_usd : List AgentEvent → Result Error ℤ
unfolding sum_costs to_float
spent_usd = sum_costs "cost_usd" (to_float unread)

unfoldable pub cost_runaway : List AgentEvent → String → ℤ → Result Error (Option DriftFlag)
cost_runaway events agent_id budget_usd = do
  spent ← spent_usd events
  ok (
      if ltb_ℤ budget_usd spent
      then some (record {
        agent_id = agent_id;
        kind = "cost_runaway";
        summary = format (
            values_of (
              str "spent $"
              ∷ num spent
              ∷ str " against a $"
              ∷ num budget_usd
              ∷ str " budget"
              ∷ []));
        detail = field "spent_usd" (num spent) (field "budget_usd" (num budget_usd) end);
      })
      else none)

abbrev is_str : Value → Bool
is_str (str _) = true
is_str _ = false

-- the flag for the last actions; `' -> '.join` raises on what is no text
unfoldable pub flip_flop : String → List Value → Result Error (Option DriftFlag)
unfolding same
flip_flop agent_id (a ∷ b ∷ c ∷ d ∷ []) =
    if same a c && (same b d && not (same a b))
    then (raise_if (not (is_str a && (is_str b && (is_str c && is_str d)))) bad_text
        >> ok (
            some (record {
              agent_id = agent_id;
              kind = "oscillation";
              summary = format (values_of (str "flip-flopping: " ∷ a ∷ b ∷ c ∷ d ∷ []));
              detail = field "pattern" (list (values_of (a ∷ b ∷ c ∷ d ∷ []))) end;
            })))
    else ok none
flip_flop agent_id _ = ok none

-- the executed actions that have a name
unfoldable pub executed_actions : List AgentEvent → List Value
unfolding truthy
executed_actions events = filter truthy (map action_of (of_kind "action_executed" events))

unfoldable pub oscillation : List AgentEvent → String → Result Error (Option DriftFlag)
unfolding executed_actions
oscillation events agent_id =
    flip_flop agent_id (last_n oscillation_lookback (executed_actions events))

abbrev pub flag_list : Option DriftFlag → List DriftFlag
flag_list none = []
flag_list (some f) = f ∷ []

-- all rules, on events that are already those of one agent and meaningful
unfoldable pub drift_flags : List AgentEvent → String → ℤ → Result Error (List DriftFlag)
drift_flags events agent_id budget_usd = do
  runaway ← cost_runaway events agent_id budget_usd
  flips ← oscillation events agent_id
  ok (
      flag_list (denial_burst events)
      ++ (flag_list (escalation_burst events) ++ (flag_list runaway ++ flag_list flips)))

unfoldable pub detect_drift : EventStream → String → ℤ → Result Error (List DriftFlag)
unfolding drift_flags meaningful
detect_drift s agent_id budget_usd =
    drift_flags (meaningful (for_agent s agent_id)) agent_id budget_usd
