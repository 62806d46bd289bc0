-- ===== src/Tower/Service.antt =====
-- `TowerService` (core/towercore/application/services.py). The n-th reading of the wall clock is
-- `now n`; `readings` counts them. What an agent does within `advance` is not modelled, nor are the
-- fields that only it uses: on the tower it logs events and asks the gate for approvals.
pub mod Containment
pub mod Frame
pub mod History
pub mod Requests
pub mod Soundness
use builder_league.Prelude.Exec.{Exec, gets, modify, pure, raise_if, ◌>>=◌, ◌>>◌}
use builder_league.Prelude.{
  Bool, List, Result, String, [], err, false, if◌then◌else◌, not, ok, suc, true, ℕ, ◌+◌, ◌==◌, ◌∷◌,
  nat_eq, string_eq,
}
use builder_league.Prelude.Dict
use builder_league.Prelude.Texts.{concat, decimal}
use builder_league.Prelude.Dict.{Dict}
use builder_league.Prelude.Int.{pos, ℤ}
use builder_league.Prelude.Values.{Fields, dict, end, field, flag, int, num, str}
use builder_league.Tower.Errors.{Error, State, active, awaiting, not_seeded, unknown_agent}
use builder_league.Tower.Events
use builder_league.Tower.Events.{AgentEvent, make_event}
use builder_league.Tower.Stream
use builder_league.Tower.Stream.{EventStream}
use builder_league.Tower.Gate
use builder_league.Tower.Gate.{Approval, Gate}
use builder_league.Tower.Anomaly.{DriftFlag, detect_drift}
use builder_league.Tower.Cost
use builder_league.Tower.Cost.{CostMeter, Costed}
use builder_league.Tower.Registry
use builder_league.Tower.Registry.{AgentView}
use builder_league.Tower.Replay
use builder_league.Tower.Replay.{TraceLine}

pub record Tower : Type 0 where
  pub stream : EventStream
  pub gate : Gate
  pub cost : CostMeter
  pub rogue : List String
  pub budgets : Dict String ℤ
  pub seeded : Bool
  pub readings : ℕ

-- `FLEET`: each agent with its budget, in millionths of a dollar
abbrev pub fleet : Dict String ℤ
fleet = ("restockbot", pos 50000) ∷ ("refundbot", pos 50000) ∷ ("deploybot", pos 50000) ∷ []

-- and with its job
abbrev pub jobs : Dict String String
jobs = ("restockbot", "procurement") ∷ ("refundbot", "finance") ∷ ("deploybot", "releases") ∷ []

-- `TowerService.__init__`, with the prices of the meter
abbrev pub start : Tower
start = record {
  stream = Stream.empty;
  gate = Gate.initial;
  cost = record { in_price = 3000; out_price = 15000; ledger = [] };
  rogue = [];
  budgets = fleet;
  seeded = false;
  readings = 0;
}

abbrev pub Action : Type 0 → Type 0
Action = Exec Tower Error

-- a call of the gate
abbrev pub on_gate : {A : Type 0} → (Gate → Result Error (A × Gate)) → Action A
on_gate f t = elim (f t.gate) [ ok (a, g) ↦ (ok a, record t { gate = g }) | err e ↦ (err e, t) ]

-- `TowerService.reset`
unfoldable pub reset : Action (Unit {0})
reset = modify λ t. record t {
  gate = Gate.reset t.gate;
  stream = Stream.reset t.stream;
  cost = Cost.reset t.cost;
  rogue = [];
  seeded = false;
}

abbrev pub rogue_payload : Fields
rogue_payload =
    field "blocker" (str "objective corrupted by external injection")
      (field "injection" (str "rogue") end)

module _ (now : ℕ → String) where
  -- an event under the next number of its agent, which `_emit` and `_append_cost` both append
  unfoldable pub post : String → String → Fields → Action AgentEvent
  post agent_id kind payload t =
      let u = record t { readings = suc t.readings } in
      elim (make_event agent_id "run-1" (Stream.next_seq t.stream agent_id) (now t.readings) kind
        payload) [
          | err e ↦ (err e, u)
          | ok ev ↦ elim (Stream.append ev t.stream) [
            | err e ↦ (err e, u)
            | ok s ↦ (ok ev, record u { stream = s })
          ]
        ]

  abbrev pub cost_payload : Costed → Fields
  cost_payload c = field "task" (str c.task) (
      field "cost_usd" (num (pos (Cost.round_micro c.cost))) (
        field "tokens" (int (c.estimate.input_tokens + c.estimate.output_tokens))
          (field "basis" (str "metered_estimate") end)))

  -- `_append_cost`
  unfoldable pub append_cost : String → Costed → Action (Unit {0})
  append_cost agent_id costed = do post agent_id "cost_recorded" (cost_payload costed); pure tt

  -- the cost of one call, metered and logged
  abbrev pub meter : String → String → String → Action (Unit {0})
  meter agent_id task action_type t =
      let (costed, m) = Cost.record_call agent_id task action_type t.cost in
      append_cost agent_id costed (record t { cost = m })

  -- the calls of the cores that `_emit` meters
  abbrev pub meter_by : String → String → String → Action (Unit {0})
  meter_by kind agent_id task =
      if kind == "decision_requested"
      then meter agent_id task "decide"
      else if kind == "action_executed"
      then meter agent_id task "execute"
      else pure tt

  -- `_emit`
  unfoldable pub emit : String → String → Fields → Action Fields
  emit agent_id kind payload = do
    ev ← post agent_id kind payload
    meter_by kind agent_id ev.run_id
    pure (Events.as_dict ev)

  abbrev pub intervention : String → String → Fields
  intervention name operator = field "intervention" (str name) (field "operator" (str operator) end)

  -- the shape of the interventions: a call of the gate, one event about it, and the call's value
  unfoldable pub logged :
      {A : Type 0}
      → (Gate → Result Error (A × Gate))
      → String
      → (A → String)
      → (A → Fields)
      → Action A
  logged call kind agent payload = do a ← on_gate call; emit (agent a) kind (payload a); pure a

  unfoldable pub pause : String → String → Action State
  pause agent_id operator =
      logged (Gate.pause agent_id) "intervention_applied" (λ _. agent_id)
        (λ _. intervention "pause" operator)

  unfoldable pub resume : String → String → Action State
  resume agent_id operator =
      logged (Gate.resume agent_id) "intervention_applied" (λ _. agent_id)
        (λ _. intervention "resume" operator)

  unfoldable pub kill : String → String → Action State
  kill agent_id operator =
      logged (λ g. ok (Gate.kill agent_id g)) "intervention_applied" (λ _. agent_id)
        (λ _. intervention "kill" operator)

  abbrev pub resolution : Approval → String → String → Fields → Fields
  unfolding concat decimal
  resolution a status operator more = field "approval_id" (str (concat "ap-" (decimal a.id))) (
      field "status" (str status)
        (field "operator" (str operator) (field "action" (str a.action) more)))

  unfoldable pub approve : ℕ → String → Action Approval
  approve i operator =
      logged (Gate.approve i operator) "approval_resolved" (λ a. a.agent_id)
        (λ a. resolution a "approved" operator end)

  unfoldable pub deny : ℕ → String → Action Approval
  deny i operator =
      logged (Gate.deny i operator) "approval_resolved" (λ a. a.agent_id)
        (λ a. resolution a "denied" operator (field "skipped" (flag true) end))

  abbrev pub enrolled : String → Fields
  enrolled job =
      field "intervention" (str "enrolled")
        (field "operator" (str "system") (field "job" (str job) end))

  -- the loop of `seed_demo`
  unfoldable pub enroll : Dict String String → Action (Unit {0})
  enroll [] = pure tt
  enroll ((agent_id, job) ∷ r) = do emit agent_id "intervention_applied" (enrolled job); enroll r

  -- `seed_demo`, where `seed_fleet` returns, which writes to the trust service only; where it raises, what
  -- is left is what `reset` leaves
  unfoldable pub seed_demo : Action (Unit {0})
  unfolding reset
  seed_demo = do reset; modify (λ t. record t { rogue = []; seeded = true }); enroll jobs

  unfoldable pub require_seeded_agent : String → Action (Unit {0})
  unfolding Dict.lookup
  require_seeded_agent agent_id = do
    raise_if (not (Dict.contains agent_id fleet)) (unknown_agent agent_id)
    seeded ← gets (λ t. t.seeded)
    raise_if (not seeded) not_seeded

  unfoldable pub inject_rogue : String → Action (Unit {0})
  inject_rogue agent_id = do
    require_seeded_agent agent_id
    modify (λ t. record t { rogue = agent_id ∷ t.rogue })
    emit agent_id "blocker_raised" rogue_payload
    pure tt

  abbrev pub flag_payload : DriftFlag → Fields
  flag_payload f =
      field "kind" (str f.kind) (field "summary" f.summary (field "detail" (dict f.detail) end))

  -- the loop of `_after_step` over the flags
  unfoldable pub report : String → List DriftFlag → Action (Unit {0})
  report agent_id [] = pure tt
  report agent_id (f ∷ fs) = do emit agent_id "drift_flagged" (flag_payload f); report agent_id fs

  abbrev pub pause_payload : DriftFlag → Fields
  pause_payload f =
      field "intervention" (str "auto_pause")
        (field "operator" (str "tower:anomaly") (field "reason" f.summary end))

  -- what `_after_step` does about the flags that it found
  unfoldable pub contain : String → List DriftFlag → Action (Unit {0})
  contain agent_id [] = pure tt
  contain agent_id (f ∷ fs) = do
    report agent_id (f ∷ fs)
    logged (Gate.force_pause agent_id) "intervention_applied" (λ _. agent_id) (λ _. pause_payload f)
    pure tt

  abbrev pub is_stoppable : State → Bool
  is_stoppable active = true
  is_stoppable awaiting = true
  is_stoppable _ = false

  abbrev pub check_drift : String → State → Action (Unit {0})
  check_drift agent_id s = do
    flags ← (λ t. (detect_drift t.stream agent_id (Dict.get_or agent_id (pos 0) t.budgets), t))
    if is_stoppable s then contain agent_id flags else pure tt

  -- `_after_step`
  unfoldable pub after_step : String → Action (Unit {0})
  after_step agent_id = do
    s ← gets (λ t. Gate.state t.gate agent_id)
    if Gate.is_killed s then pure tt else check_drift agent_id s

-- the read side
unfoldable pub fleet_snapshot : Tower → Result Error (Dict String AgentView)
unfolding Registry.fleet_view
fleet_snapshot t = Registry.fleet_view t.stream t.gate t.budgets 5

unfoldable pub replay : Tower → String → ℕ → List TraceLine
unfolding Replay.replay
replay t agent_id n = Replay.replay t.stream agent_id n

unfoldable pub export_audit : Tower → List Fields
unfolding Stream.export
export_audit t = Stream.export t.stream
