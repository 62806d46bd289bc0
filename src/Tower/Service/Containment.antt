-- ===== src/Tower/Service/Containment.antt =====
-- The drift check after a step stops a drifting agent.
use builder_league.Prelude.Exec.{bind-ok, pure, then_pure, ◌>>◌}
use mathlib.Core.Path.{subst}
use builder_league.Tower.Stream.{for_agent}
use builder_league.Tower.Events.{as_dict, is_kind}
use builder_league.Tower.Service.Requests.{gate-logged, gate-report}
use builder_league.Tower.Service.Soundness.{IsSound, next_event, post-ok, posted}
use builder_league.Tower.Anomaly.{DriftFlag, cost_runaway, detect_drift, spent_usd}
use builder_league.Tower.Errors.{Error, State, agent_halted, paused}
use builder_league.Prelude.{
  Bool-cases, List, Result, String, [], ap, arith, eq_iff, err, false, inl, inr, ok, refl, sym,
  true, ℕ, ◌==◌, ◌∙◌, ◌∷◌, ◌≡◌, nat_eq, string_eq,
}
use builder_league.Prelude.Values.{Fields}
use builder_league.Tower.Service.{
  Action, Tower, after_step, contain, emit, flag_payload, is_stoppable, logged, meter_by,
  pause_payload, post, report,
}
use builder_league.Tower.Stream.Contiguous.{IsContiguous, record_event-IsContiguous}
use builder_league.Tower.Gate
use builder_league.Tower.Gate.{Gate, check, is_killed, set_state, state}
use builder_league.Tower.Gate.Invariant.{state-insert}
use builder_league.Tower.Gate.Steps.{after}
use builder_league.Prelude.Int.{pos}
use builder_league.Prelude.Dict.{Dict}
use builder_league.Prelude.Dict

module _ (now : ℕ → String) (a : String) (named : (a == "") ≡ false) where
  -- an event of drift is logged, and the log stays contiguous
  emit_drift :
      (p : Fields) (t : Tower)
      → IsContiguous t.stream
      → emit now a "drift_flagged" p t
        ≡ (ok (as_dict (next_event now a "drift_flagged" p t)), posted now a "drift_flagged" p t)
  unfolding emit is_kind
  emit_drift p t c =
      bind-ok (post now a "drift_flagged" p)
        (λ ev. meter_by now "drift_flagged" a ev.run_id >> pure (as_dict ev)) t _ _
        (post-ok now a "drift_flagged" p t c named refl)

  report-ok :
      (fs : List DriftFlag) (t : Tower) → IsContiguous t.stream → (report now a fs t).0 ≡ ok tt
  unfolding report
  report-ok [] t c = refl
  report-ok (f ∷ fs) t c =
      let p = flag_payload now f in
      ap (λ (out : Result Error (Unit {0}) × Tower). out.0)
        (bind-ok (emit now a "drift_flagged" p) (λ _. report now a fs) t _ _ (emit_drift p t c))
      ∙ report-ok fs (posted now a "drift_flagged" p t)
          (record_event-IsContiguous (next_event now a "drift_flagged" p t) t.stream refl c)

  abbrev IsContained : Gate → Gate → Type 0
  IsContained g h =
      (state h a ≡ paused) × (check a h ≡ err (agent_halted a paused)) × (h.approvals ≡ g.approvals)

  force_pause-IsContained :
      (g : Gate)
      → is_stoppable now (state g a) ≡ true
      → IsContained g (after g (Gate.force_pause a g))
  unfolding Gate.force_pause check
  force_pause-IsContained g h =
      ground (arith, h, state-insert g a a paused (set_state a paused g) refl, eq_iff a a)

  contain-IsContained :
      (f : DriftFlag) (fs : List DriftFlag) (t : Tower)
      → IsContiguous t.stream
      → is_stoppable now (state t.gate a) ≡ true
      → IsContained t.gate (contain now a (f ∷ fs) t).1.gate
  unfolding contain
  contain-IsContained f fs t c h =
      by_report (report now a (f ∷ fs) t).0 (report now a (f ∷ fs) t).1 (report-ok (f ∷ fs) t c)
        (gate-report now a (f ∷ fs) t)
    where
      stop : Action State
      stop =
          logged now (Gate.force_pause a) "intervention_applied" (λ _. a) (λ _. pause_payload now f)

      by_report :
          (r : Result Error (Unit {0})) (u : Tower)
          → r ≡ ok tt
          → u.gate ≡ t.gate
          → IsContained t.gate (((λ (_ : Tower). (r, u)) >> (stop >> pure tt)) t).1.gate
      by_report (ok r) u e g =
          subst (IsContained t.gate)
            (sym (
              ap (λ (v : Tower). v.gate) (then_pure stop u)
              ∙ (gate-logged now (Gate.force_pause a) "intervention_applied" (λ _. a)
                    (λ _. pause_payload now f) u
                  ∙ ap (λ k. after k (Gate.force_pause a k)) g)))
            (force_pause-IsContained t.gate h)
      by_report (err x) u e g = cc

  -- When the service is sound, an agent with a name is active or awaiting approval, and its log
  -- shows drift, the check after its step pauses it: its next steps are refused, and the approvals
  -- stay as they were.
  pub after_step_contains :
      (t : Tower)
      → IsSound t
      → is_stoppable now (state t.gate a) ≡ true
      → (f : DriftFlag) (fs : List DriftFlag)
      → detect_drift t.stream a (Dict.get_or a (pos 0) t.budgets) ≡ ok (f ∷ fs)
      → IsContained t.gate (after_step now a t).1.gate
  unfolding after_step state check detect_drift cost_runaway spent_usd for_agent
  after_step_contains t sound h f fs e = elim (Bool-cases (is_killed (state t.gate a))) [
    | inl k ↦ ground arith
    | inr k ↦ rw (k, e, h) (contain-IsContained f fs t sound.log h)
  ]
