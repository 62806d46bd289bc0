-- ===== src/Tower/Events.antt =====
-- Typed agent events (core/towercore/domain/events.py). A time stamp is the text that the injected
-- clock returns; a payload is a dict by its type, so the last check of `make_event` always passes.
use builder_league.Prelude.{
  Bool, List, Result, String, [], arith, contains, false, ltb, not, ok, raise_if, true, ℕ, ◌<◌,
  ◌==◌, ◌||◌, ◌∷◌, ◌≡◌, nat_eq, string_eq, ◌>>◌,
}
use builder_league.Prelude.Values.{Fields, dict, end, field, int, str}
use builder_league.Tower.Errors.{Error, bad_seq, missing_ids, unknown_kind}

abbrev event_kinds : List String
event_kinds =
    "step_started" ∷ "decision_requested" ∷ "action_executed" ∷ "action_denied" ∷ "blocker_raised"
    ∷ "drift_flagged" ∷ "cost_recorded" ∷ "approval_requested" ∷ "approval_resolved"
    ∷ "intervention_applied" ∷ []

pub record AgentEvent : Type 0 where
  pub agent_id : String
  pub run_id : String
  pub seq : ℕ
  pub ts : String
  pub kind : String
  pub payload : Fields

-- `AgentEvent.as_dict`
unfoldable pub as_dict : AgentEvent → Fields
as_dict e = field "agent_id" (str e.agent_id) (
    field "run_id" (str e.run_id) (
      field "seq" (int e.seq)
        (field "ts" (str e.ts) (field "kind" (str e.kind) (field "payload" (dict e.payload) end)))))

-- `kind in EVENT_KINDS`
unfoldable pub is_kind : String → Bool
is_kind kind = contains kind event_kinds

unfoldable pub make_event : String → String → ℕ → String → String → Fields → Result Error AgentEvent
make_event agent_id run_id seq ts kind payload = do
  raise_if (agent_id == "" || run_id == "") missing_ids
  raise_if (not (is_kind kind)) (unknown_kind kind)
  raise_if (ltb seq 1) (bad_seq seq)
  ok (record {
    agent_id = agent_id;
    run_id = run_id;
    seq = seq;
    ts = ts;
    kind = kind;
    payload = payload;
  })

-- What is well formed is accepted as it is.
pub make_event-ok :
    (agent_id run_id : String) (seq : ℕ) (ts kind : String) (payload : Fields)
    → (agent_id == "") ≡ false
    → (run_id == "") ≡ false
    → is_kind kind ≡ true
    → 0 < seq
    → make_event agent_id run_id seq ts kind payload
      ≡ ok (record {
        agent_id = agent_id;
        run_id = run_id;
        seq = seq;
        ts = ts;
        kind = kind;
        payload = payload;
      })
unfolding make_event
make_event-ok agent_id run_id seq ts kind payload a r k h = rw (a, r, k) (ground arith)
