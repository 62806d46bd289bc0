-- ===== src/Tower/Service/Frame.antt =====
-- Frame rules for the methods of the service: what its primitives keep, its methods keep.
use builder_league.Prelude.Exec.{
  Keeps, Keeps-bind, Keeps-gets, Keeps-pure, Keeps-raise_if, gets, modify, pure, raise_if,
}
use builder_league.Prelude.{
  Bool, Bool-cases, List, Result, String, [], err, false, if◌then◌else◌, inl, inr, not, ok, true, ℕ,
  ◌==◌, ◌∷◌, nat_eq, string_eq,
}
use builder_league.Prelude.Values.{Fields}
use builder_league.Prelude.Dict.{Dict}
use builder_league.Tower.Errors.{Error, not_seeded, unknown_agent}
use builder_league.Tower.Cost
use builder_league.Prelude.Dict
use builder_league.Tower.Service.{
  Action, Tower, after_step, append_cost, check_drift, contain, cost_payload, emit, enroll,
  enrolled, flag_payload, fleet, inject_rogue, is_stoppable, logged, meter, meter_by, on_gate,
  pause_payload, post, report, require_seeded_agent, rogue_payload,
}
use builder_league.Tower.Cost.{CostMeter, Costed}
use builder_league.Tower.Events
use builder_league.Tower.Anomaly.{DriftFlag}
use builder_league.Tower.Gate
use builder_league.Tower.Gate.{Gate, is_killed, state}

-- What every logged event and every change of the meter keeps, `emit` keeps.
module _ (now : ℕ → String) {P : Tower → Type 0}
    (keep_post : (agent_id kind : String) (payload : Fields)
      → Keeps P (post now agent_id kind payload))
    (keep_cost : (t : Tower) (m : CostMeter) → P t → P (record t { cost = m })) where
  Keeps-append_cost : (agent_id : String) (c : Costed) → Keeps P (append_cost now agent_id c)
  unfolding append_cost
  Keeps-append_cost agent_id c =
      Keeps-bind (post now agent_id "cost_recorded" (cost_payload now c)) (λ _. pure tt)
        (keep_post agent_id "cost_recorded" (cost_payload now c)) (λ _. Keeps-pure tt)

  Keeps-meter : (agent_id task action_type : String) → Keeps P (meter now agent_id task action_type)
  Keeps-meter agent_id task action_type = record {
    at = λ t v.
        let (c, m) = Cost.record_call agent_id task action_type t.cost in
        (Keeps-append_cost agent_id c).at (record t { cost = m }) (keep_cost t m v);
  }

  Keeps-meter_by : (kind agent_id task : String) → Keeps P (meter_by now kind agent_id task)
  Keeps-meter_by kind agent_id task = elim (Bool-cases (kind == "decision_requested")) [
    | inl e ↦ rw e (Keeps-meter agent_id task "decide")
    | inr e ↦ elim (Bool-cases (kind == "action_executed")) [
      | inl f ↦ rw (e, f) (Keeps-meter agent_id task "execute")
      | inr f ↦ rw (e, f) (Keeps-pure tt)
    ]
  ]

  pub emit-Keeps :
      (agent_id kind : String) (payload : Fields) → Keeps P (emit now agent_id kind payload)
  unfolding emit
  emit-Keeps agent_id kind payload =
      Keeps-bind (post now agent_id kind payload) _ (keep_post agent_id kind payload) λ ev.
        Keeps-bind (meter_by now kind agent_id ev.run_id) _ (Keeps-meter_by kind agent_id ev.run_id)
          (λ _. Keeps-pure (Events.as_dict ev))

module _ (now : ℕ → String) (P : Tower → Type 0)
    (quiet : (a k : String) (p : Fields) → Keeps P (emit now a k p)) where
  pub Keeps-report : (agent_id : String) (fs : List DriftFlag) → Keeps P (report now agent_id fs)
  unfolding report
  Keeps-report agent_id [] = Keeps-pure tt
  Keeps-report agent_id (f ∷ fs) =
      Keeps-bind (emit now agent_id "drift_flagged" (flag_payload now f))
        (λ _. report now agent_id fs) (quiet agent_id "drift_flagged" (flag_payload now f))
        (λ _. Keeps-report agent_id fs)

  pub Keeps-enroll : (jobs : Dict String String) → Keeps P (enroll now jobs)
  unfolding enroll
  Keeps-enroll [] = Keeps-pure tt
  Keeps-enroll ((agent_id, job) ∷ r) =
      Keeps-bind (emit now agent_id "intervention_applied" (enrolled now job)) (λ _. enroll now r)
        (quiet agent_id "intervention_applied" (enrolled now job)) (λ _. Keeps-enroll r)

  Keeps-require_seeded_agent : (agent_id : String) → Keeps P (require_seeded_agent now agent_id)
  unfolding require_seeded_agent
  Keeps-require_seeded_agent agent_id =
      Keeps-bind (raise_if (not (Dict.contains agent_id fleet)) (unknown_agent agent_id)) _
        (Keeps-raise_if _ _)
        λ _.
          Keeps-bind (gets (λ u. u.seeded)) (λ seeded. raise_if (not seeded) not_seeded)
            (Keeps-gets _) (λ seeded. Keeps-raise_if _ _)

  pub Keeps-inject_rogue :
      ((t : Tower) (rogue : List String) → P t → P (record t { rogue = rogue }))
      → (agent_id : String) → Keeps P (inject_rogue now agent_id)
  unfolding inject_rogue
  Keeps-inject_rogue mark agent_id =
      Keeps-bind (require_seeded_agent now agent_id) _ (Keeps-require_seeded_agent agent_id) λ _.
        Keeps-bind (modify (λ u. record u { rogue = agent_id ∷ u.rogue })) _
          (record { at = λ u h. mark u (agent_id ∷ u.rogue) h })
          λ _.
            Keeps-bind (emit now agent_id "blocker_raised" rogue_payload) _
              (quiet agent_id "blocker_raised" rogue_payload) (λ _. Keeps-pure tt)

  -- methods that write to the gate, for a predicate that does not look at it
  module _ (free : (t : Tower) (g : Gate) → P t → P (record t { gate = g })) where
    pub Keeps-on_gate_free : {A : Type 0} (f : Gate → Result Error (A × Gate)) → Keeps P (on_gate f)
    Keeps-on_gate_free {A} f = record { at = λ t h. by_result t (f t.gate) h }
      where
        by_result : (t : Tower) (r : Result Error (A × Gate)) → P t → P (on_gate (λ _. r) t).1
        by_result t (ok (a, g)) h = free t g h
        by_result t (err e) h = h

    pub Keeps-logged :
        {A : Type 0} (f : Gate → Result Error (A × Gate)) (kind : String) (agent : A → String)
        (payload : A → Fields)
        → Keeps P (logged now f kind agent payload)
    unfolding logged
    Keeps-logged f kind agent payload = Keeps-bind (on_gate f) _ (Keeps-on_gate_free f) λ a.
        Keeps-bind (emit now (agent a) kind (payload a)) _ (quiet (agent a) kind (payload a))
          (λ _. Keeps-pure a)

    Keeps-contain : (agent_id : String) (fs : List DriftFlag) → Keeps P (contain now agent_id fs)
    unfolding contain
    Keeps-contain agent_id [] = Keeps-pure tt
    Keeps-contain agent_id (f ∷ fs) =
        Keeps-bind (report now agent_id (f ∷ fs)) _ (Keeps-report agent_id (f ∷ fs)) λ _.
          Keeps-bind
            (logged now (Gate.force_pause agent_id) "intervention_applied" (λ _. agent_id)
              (λ _. pause_payload now f))
            _
            (Keeps-logged (Gate.force_pause agent_id) "intervention_applied" (λ _. agent_id)
              (λ _. pause_payload now f))
            (λ _. Keeps-pure tt)

    Keeps-if :
        {A : Type 0} (b : Bool) (m n : Action A)
        → Keeps P m
        → Keeps P n
        → Keeps P (if b then m else n)
    Keeps-if true m n km kn = km
    Keeps-if false m n km kn = kn

    pub Keeps-after_step : (agent_id : String) → Keeps P (after_step now agent_id)
    unfolding after_step
    Keeps-after_step agent_id = Keeps-bind (gets (λ t. state t.gate agent_id)) _ (Keeps-gets _) λ s.
        Keeps-if (is_killed s) (pure tt) (check_drift now agent_id s) (Keeps-pure tt) (
          Keeps-bind _ _ (record { at = λ t h. h })
            (λ flags.
              Keeps-if (is_stoppable now s) (contain now agent_id flags) (pure tt)
                (Keeps-contain agent_id flags) (Keeps-pure tt)))
