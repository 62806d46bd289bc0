-- ===== src/Tower/Tests.antt =====
-- Runs of the control tower on small inputs, and the theorems at such inputs.
use mathlib.Core.Path.{subst}
use builder_league.Prelude.{
  All, List, String, [], ap, err, false, none, ok, refl, some, sym, ℕ, ◌++◌, ◌↔◌, ◌∷◌, ◌≡◌, nat_eq,
  string_eq,
}
use builder_league.Tower.Service.{Tower, after_step, append_cost, emit, intervention, post, start}
use builder_league.Tower.Errors.{active, agent_halted, denied, killed, paused}
use builder_league.Tower.Gate.{
  Approval, Gate, check, get_approval, has_pending, initial, request_approval, state,
}
use builder_league.Tower.Gate.Steps.{
  Call, InOneRun, approves, force_pauses, kills, requests, resets, resumes, run, step,
}
use builder_league.Prelude.Values.{end, null}
use builder_league.Prelude.Dict.{Dict}
use builder_league.Prelude.Dict
use builder_league.Tower.Events.{AgentEvent, is_kind, make_event}
use builder_league.Tower.Gate.Invariant.{IsValid, initial-IsValid, run-IsValid}
use builder_league.Tower.Gate.Terminal.{killed_forever, resolved_final}
use builder_league.Tower.Stream.Contiguous.{IsContiguous, append-IsContiguous, empty-IsContiguous}
use builder_league.Tower.Service.Soundness.{IsSound, gate-emit, log-emit, start-IsSound}
use builder_league.Tower.Registry.Status.{view_iff_passes}
use builder_league.Tower.Service.Requests.{
  Moves, Request, asks_kill, asks_pause, asks_reset, asks_rogue, asks_seed, gate-logged, is_restart,
  logs, parks, serve, serve_all, steps,
}
use builder_league.Tower.Service.History.{
  serve_all-IsSound, serve_refines_gate, service_killed_forever,
}
use builder_league.Tower.Gate
use builder_league.Tower.Stream
use builder_league.Prelude.Int.{pos}
use builder_league.Tower.Anomaly.{
  DriftFlag, cost_runaway, denial_burst, detect_drift, escalation_burst, flip_flop, meaningful,
  oscillation, spent_usd, sum_costs,
}
use builder_league.Tower.Service
use builder_league.Tower.Service.Containment.{after_step_contains}
use builder_league.Tower.Registry

abbrev noon : ℕ → String
noon n = "12:00"

abbrev bot : String
bot = "refundbot"

-- an approval is asked for, the agent is killed, and it is asked for again
abbrev killing : List Call
killing = requests bot "refund" none "over authority" end ∷ kills bot ∷ []

abbrev after_killing : List Call
after_killing =
    resumes bot ∷ approves 1 "ada" ∷ requests bot "refund" none "again" end ∷ force_pauses bot ∷ []

killed_gate : run initial killing ≡ record {
  states = (bot, killed) ∷ [];
  approvals =
      (
        1,
        record {
          id = 1;
          agent_id = bot;
          action = "refund";
          amount = none;
          reason = "over authority";
          payload = end;
          status = denied;
          operator = some "system:kill";
        },
      )
      ∷ [];
  next_id = 2;
}
unfolding run step request_approval Gate.kill state Dict.lookup Dict.insert
killed_gate = refl

after_killing-InOneRun : InOneRun after_killing
after_killing-InOneRun = (refl, (refl, (refl, (refl, tt))))

-- a reset brings the agent back
back_after_reset : state (run (run initial killing) (resets ∷ [])) bot ≡ active
unfolding run step Gate.reset state Dict.lookup
back_after_reset = refl

killed_forever_example :
    (state (run (run initial killing) after_killing) bot ≡ killed)
    × (check bot (run (run initial killing) after_killing) ≡ err (agent_halted bot killed))
    × (has_pending bot (run (run initial killing) after_killing) ≡ false)
unfolding run step request_approval Gate.kill state Dict.lookup Dict.insert
killed_forever_example =
    killed_forever (run initial killing) bot after_killing
      (run-IsValid initial killing initial-IsValid) refl after_killing-InOneRun

run-IsValid_example : IsValid (run initial (killing ++ resets ∷ after_killing))
run-IsValid_example = run-IsValid initial (killing ++ resets ∷ after_killing) initial-IsValid

abbrev refund_denied : Approval
refund_denied = record {
  id = 1;
  agent_id = bot;
  action = "refund";
  amount = none;
  reason = "over authority";
  payload = end;
  status = denied;
  operator = some "system:kill";
}

resolved_final_example :
    get_approval 1 (run (run initial killing) after_killing) ≡ some refund_denied
unfolding run step request_approval Gate.kill state get_approval Dict.lookup Dict.insert
resolved_final_example =
    resolved_final (run initial killing) 1 refund_denied after_killing
      (run-IsValid initial killing initial-IsValid) refl refl after_killing-InOneRun

abbrev first_event : AgentEvent
first_event = record {
  agent_id = bot;
  run_id = "run-1";
  seq = 1;
  ts = "12:00";
  kind = "step_started";
  payload = end;
}

append-IsContiguous_example : IsContiguous (Stream.record_event first_event Stream.empty)
unfolding Stream.append Stream.next_seq Dict.lookup
append-IsContiguous_example = append-IsContiguous first_event Stream.empty empty-IsContiguous refl

abbrev history : List Request
history =
    logs bot "step_started" end
    ∷ parks bot "refund" none "over authority" end
    ∷ asks_rogue bot
    ∷ asks_pause bot "ada"
    ∷ steps bot
    ∷ asks_kill bot "ada"
    ∷ []

history-InOneRun : All (λ r. is_restart r ≡ false) history
history-InOneRun = (refl, (refl, (refl, (refl, (refl, (refl, tt))))))

serve_all-IsSound_example : IsSound (serve_all noon start (history ++ asks_seed ∷ asks_reset ∷ []))
serve_all-IsSound_example =
    serve_all-IsSound noon start (history ++ asks_seed ∷ asks_reset ∷ []) start-IsSound

serve_refines_gate_example :
    Moves (asks_kill bot "ada") start.gate (serve noon start (asks_kill bot "ada")).gate
serve_refines_gate_example = serve_refines_gate noon start (asks_kill bot "ada")

abbrev killed_tower : Tower
killed_tower = serve_all noon start (asks_kill bot "ada" ∷ [])

killed_in_history : state killed_tower.gate bot ≡ killed
unfolding serve_all serve Service.kill Gate.kill state Dict.lookup Dict.insert
killed_in_history =
    ap (λ g. state g bot)
      (gate-logged noon (λ g. ok (Gate.kill bot g)) "intervention_applied" (λ _. bot)
        (λ _. intervention noon "kill" "ada") start)

service_killed_forever_example :
    (state (serve_all noon killed_tower history).gate bot ≡ killed)
    × (check bot (serve_all noon killed_tower history).gate ≡ err (agent_halted bot killed))
    × (has_pending bot (serve_all noon killed_tower history).gate ≡ false)
service_killed_forever_example =
    service_killed_forever noon killed_tower bot history
      (serve_all-IsSound noon start (asks_kill bot "ada" ∷ []) start-IsSound) killed_in_history
      history-InOneRun

-- an agent that asks twice for an action above its authority
abbrev asks : Tower → Tower
asks t = (emit noon bot "approval_requested" end t).1

asks-IsSound : (t : Tower) → IsSound t → IsSound (asks t)
asks-IsSound t v = record {
  log = (log-emit noon bot "approval_requested" end).at t v.log;
  gate = subst IsValid (sym (gate-emit noon bot "approval_requested" end t)) v.gate;
}

abbrev drifting : Tower
drifting = asks (asks start)

drifting_flags :
    (f : DriftFlag) × (fs : List DriftFlag) × (detect_drift drifting.stream bot
        (Dict.get_or bot (pos 0) drifting.budgets)
      ≡ ok (f ∷ fs))
unfolding emit post make_event is_kind append_cost Stream.append Stream.next_seq detect_drift
    escalation_burst denial_burst meaningful flip_flop oscillation cost_runaway spent_usd
    Stream.for_agent Dict.lookup Dict.insert
drifting_flags = (_, _, refl)

after_step_contains_example :
    (state (after_step noon bot drifting).1.gate bot ≡ paused)
    × (check bot (after_step noon bot drifting).1.gate ≡ err (agent_halted bot paused))
    × ((after_step noon bot drifting).1.gate.approvals ≡ drifting.gate.approvals)
unfolding emit post make_event append_cost state Dict.lookup is_kind Stream.next_seq Stream.append
    Dict.insert
after_step_contains_example =
    after_step_contains noon bot refl drifting
      (asks-IsSound (asks start) (asks-IsSound start start-IsSound)) refl drifting_flags.0
      drifting_flags.1 drifting_flags.2

abbrev idle_view : Registry.AgentView
idle_view = record {
  agent_id = bot;
  status = "running";
  last_action = null;
  blockers = [];
  drift = [];
  cost_usd = pos 0;
  cost_basis = "metered_estimate";
  budget_usd = pos 50000;
  tokens = pos 0;
  event_count = 0;
  recent = [];
}

view_iff_passes_example : Registry.Status.IsShownFree "running" ↔ (check bot initial ≡ ok tt)
unfolding Registry.agent_view Stream.for_agent spent_usd sum_costs Registry.status_of state
    detect_drift escalation_burst denial_burst meaningful flip_flop oscillation cost_runaway
    Dict.lookup
view_iff_passes_example = view_iff_passes Stream.empty initial bot (pos 50000) 5 idle_view refl
