-- ===== src/Tower/Replay.antt =====
-- The last events of an agent as trace lines (core/towercore/domain/replay.py). A line's text is
-- the list of the pieces of its f-string.
use builder_league.Prelude.{List, String, [], if◌then◌else◌, map, ℕ, ◌==◌, ◌∷◌, nat_eq, string_eq}
use builder_league.Prelude.Values.{Fields, Value, Values, get, get_or, int, str, values_of}
use builder_league.Tower.Events.{AgentEvent}
use builder_league.Tower.Stream.{EventStream, tail}

pub record TraceLine : Type 0 where
  pub seq : ℕ
  pub kind : String
  pub ts : String
  pub text : Values
  pub payload : Fields

abbrev shown : String → Fields → Value
shown key p = get_or key (str "?") p

-- the table of `_line`, with the kind itself for a kind that it lacks
unfoldable pub text_of : String → Fields → Values
unfolding get_or
text_of kind p =
    if kind == "step_started"
    then values_of (str "started step: " ∷ shown "step" p ∷ [])
    else if kind == "decision_requested"
    then values_of (str "requested decision " ∷ shown "domain" p ∷ str "." ∷ shown "action" p ∷ [])
    else if kind == "action_executed"
    then values_of (str "executed " ∷ shown "action" p ∷ [])
    else if kind == "action_denied"
    then values_of
        (str "DENIED " ∷ shown "action" p ∷ str " — " ∷ get_or "reason" (str "unspecified") p ∷ [])
    else if kind == "blocker_raised"
    then values_of (str "blocked: " ∷ shown "blocker" p ∷ [])
    else if kind == "drift_flagged"
    then values_of (str "drift detected: " ∷ get_or "summary" (shown "kind" p) p ∷ [])
    else if kind == "cost_recorded"
    then values_of (str "cost +$" ∷ get_or "cost_usd" (int 0) p ∷ str " on " ∷ shown "task" p ∷ [])
    else if kind == "approval_requested"
    then values_of (
        str "parked for approval: "
        ∷ shown "action" p
        ∷ str " ($"
        ∷ get "amount" p
        ∷ str ") — "
        ∷ get "reason" p
        ∷ [])
    else if kind == "approval_resolved"
    then values_of (str "approval " ∷ shown "status" p ∷ str " by " ∷ shown "operator" p ∷ [])
    else if kind == "intervention_applied"
    then values_of
        (str "operator " ∷ shown "operator" p ∷ str " applied " ∷ shown "intervention" p ∷ [])
    else values_of (str kind ∷ [])

abbrev pub line : AgentEvent → TraceLine
line e = record {
  seq = e.seq;
  kind = e.kind;
  ts = e.ts;
  text = text_of e.kind e.payload;
  payload = e.payload;
}

unfoldable pub replay : EventStream → String → ℕ → List TraceLine
unfolding text_of tail
replay s agent_id n = map line (tail s agent_id n)
