-- ===== src/Tower/Service/Requests.antt =====
-- Requests to the service: by operators, by the agents, and the reset of the control plane. `advance` comes
-- as its parts: the events that the agent's step logs, its requests for approval, and the drift check that
-- follows.
use builder_league.Prelude.Exec.{pure, then_pure, ◌>>=◌, ◌>>◌}
use builder_league.Prelude.Dict
use builder_league.Prelude.Int.{pos, ℤ}
use builder_league.Prelude.Dict.{Dict}
use builder_league.Prelude.{
  All, Bool, Bool-cases, List, Option, Result, String, [], ap, err, false, if◌then◌else◌, inl, inr,
  ok, refl, true, ℕ, ◌∙◌, ◌∷◌, ◌≡◌, ◌⊎◌, nat_eq, string_eq,
}
use builder_league.Prelude.Values.{Fields}
use builder_league.Tower.Errors.{Error, State}
use builder_league.Tower.Service.{
  Tower, after_step, approve, check_drift, contain, deny, emit, inject_rogue, is_stoppable, jobs,
  kill, logged, on_gate, pause, pause_payload, report, reset, resume, seed_demo,
}
use builder_league.Tower.Anomaly.{DriftFlag, detect_drift}
use builder_league.Tower.Gate
use builder_league.Tower.Gate.{Gate, is_killed, state}
use builder_league.Tower.Service.Frame.{Keeps-enroll, Keeps-inject_rogue, Keeps-report}
use builder_league.Tower.Gate.Steps.{
  Call, after, approves, denies, force_pauses, is_reset, kills, pauses, requests, resets, resumes,
  step,
}
use builder_league.Tower.Service.Soundness.{gate-emit}

pub data Request : Type 0 where
  asks_pause asks_resume asks_kill : String → String → Request
  asks_approve asks_deny : ℕ → String → Request
  asks_rogue steps : String → Request
  logs : String → String → Fields → Request
  parks : String → String → Option ℤ → String → Fields → Request
  asks_reset asks_seed : Request

-- the requests that end a run
abbrev pub is_restart : Request → Bool
is_restart asks_reset = true
is_restart asks_seed = true
is_restart _ = false

abbrev pub InOneRun : List Request → Type 0
InOneRun rs = All (λ r. is_restart r ≡ false) rs

-- What a request may do to the gate: an operator's request is the call of its name, an injection and a
-- logged event do nothing, the check after a step pauses its agent or does nothing, an agent's action is
-- parked by its request for approval, and a reset and a seeding of the fleet reset the gate.
abbrev pub Moves : Request → Gate → Gate → Type 0
Moves (asks_pause a operator) g h = h ≡ step g (pauses a)
Moves (asks_resume a operator) g h = h ≡ step g (resumes a)
Moves (asks_kill a operator) g h = h ≡ step g (kills a)
Moves (asks_approve i operator) g h = h ≡ step g (approves i operator)
Moves (asks_deny i operator) g h = h ≡ step g (denies i operator)
Moves (asks_rogue a) g h = h ≡ g
Moves (steps a) g h = (h ≡ g) ⊎ (h ≡ step g (force_pauses a))
Moves (logs a kind payload) g h = h ≡ g
Moves (parks a action amount reason payload) g h =
    h ≡ step g (requests a action amount reason payload)
Moves asks_reset g h = h ≡ step g resets
Moves asks_seed g h = h ≡ step g resets

-- in each case, one call or none, and a reset only by a request that ends the run
abbrev pub IsOneCall : Request → Gate → Gate → Type 0
IsOneCall r g h = (h ≡ g) ⊎ ((c : Call) × (is_reset c ≡ is_restart r) × (h ≡ step g c))

pub one_call : (r : Request) (g h : Gate) → Moves r g h → IsOneCall r g h
one_call (asks_pause a operator) g h e = inr (pauses a, refl, e)
one_call (asks_resume a operator) g h e = inr (resumes a, refl, e)
one_call (asks_kill a operator) g h e = inr (kills a, refl, e)
one_call (asks_approve i operator) g h e = inr (approves i operator, refl, e)
one_call (asks_deny i operator) g h e = inr (denies i operator, refl, e)
one_call (asks_rogue a) g h e = inl e
one_call (steps a) g h (inl e) = inl e
one_call (steps a) g h (inr e) = inr (force_pauses a, refl, e)
one_call (logs a kind payload) g h e = inl e
one_call (parks a action amount reason payload) g h e =
    inr (requests a action amount reason payload, refl, e)
one_call asks_reset g h e = inr (resets, refl, e)
one_call asks_seed g h e = inr (resets, refl, e)

module _ (now : ℕ → String) where
  unfoldable pub serve : Tower → Request → Tower
  serve t (asks_pause a operator) = (pause now a operator t).1
  serve t (asks_resume a operator) = (resume now a operator t).1
  serve t (asks_kill a operator) = (kill now a operator t).1
  serve t (asks_approve i operator) = (approve now i operator t).1
  serve t (asks_deny i operator) = (deny now i operator t).1
  serve t (asks_rogue a) = (inject_rogue now a t).1
  serve t (steps a) = (after_step now a t).1
  serve t (logs a kind payload) = (emit now a kind payload t).1
  serve t (parks a action amount reason payload) =
      (on_gate (Gate.request_approval a action amount reason payload) t).1
  serve t asks_reset = (reset t).1
  serve t asks_seed = (seed_demo now t).1

  unfoldable pub serve_all : Tower → List Request → Tower
  serve_all t [] = t
  serve_all t (r ∷ rs) = serve_all (serve t r) rs

  -- an action that calls the gate once and logs moves the gate by that call
  pub gate-logged :
      {A : Type 0} (f : Gate → Result Error (A × Gate)) (kind : String) (agent : A → String)
      (payload : A → Fields) (t : Tower)
      → (logged now f kind agent payload t).1.gate ≡ after t.gate (f t.gate)
  unfolding logged
  gate-logged {A} f kind agent payload t = by_call (f t.gate)
    where
      by_result :
          (a : A) (out : Result Error Fields × Tower) (g : Gate)
          → out.1.gate ≡ g
          → (((λ _. out) >> pure a) t).1.gate ≡ g
      by_result a (ok p, u) g e = e
      by_result a (err x, u) g e = e

      by_call :
          (r : Result Error (A × Gate))
          → (logged now (λ _. r) kind agent payload t).1.gate ≡ after t.gate r
      by_call (err x) = refl
      by_call (ok (a, g)) =
          let u = record t { gate = g } in
          by_result a (emit now (agent a) kind (payload a) u) g
            (gate-emit now (agent a) kind (payload a) u)

  pub gate-report :
      (agent_id : String) (fs : List DriftFlag) (t : Tower)
      → (report now agent_id fs t).1.gate ≡ t.gate
  gate-report agent_id fs t =
      (Keeps-report now (λ u. u.gate ≡ t.gate)
          (λ a k p. record { at = λ u e. gate-emit now a k p u ∙ e }) agent_id fs).at
        t refl

  -- what comes after the reports calls the gate once, or the reports raised
  contain-Moves :
      (agent_id : String) (payload : Fields) (t : Tower) (out : Result Error (Unit {0}) × Tower)
      → out.1.gate ≡ t.gate
      → Moves
          (steps agent_id)
          t.gate
          (((λ _. out)
              >> (logged now
                    (Gate.force_pause agent_id)
                    "intervention_applied"
                    (λ _. agent_id)
                    (λ _. payload)
                  >> pure tt))
            t).1.gate
  unfolding step
  contain-Moves agent_id payload t (err x, u) e = inl e
  contain-Moves agent_id payload t (ok x, u) e =
      let pause_it =
        logged now (Gate.force_pause agent_id) "intervention_applied" (λ _. agent_id)
          (λ _. payload) in
      inr (
        ap (λ (v : Tower). v.gate) (then_pure pause_it u)
        ∙ (gate-logged (Gate.force_pause agent_id) "intervention_applied" (λ _. agent_id)
              (λ _. payload) u
            ∙ ap (λ g. step g (force_pauses agent_id)) e))

  gate-contain :
      (agent_id : String) (fs : List DriftFlag) (t : Tower)
      → Moves (steps agent_id) t.gate (contain now agent_id fs t).1.gate
  unfolding contain
  gate-contain agent_id [] t = inl refl
  gate-contain agent_id (f ∷ fs) t =
      contain-Moves agent_id (pause_payload now f) t (report now agent_id (f ∷ fs) t)
        (gate-report agent_id (f ∷ fs) t)

  gate-check_drift :
      (agent_id : String) (s : State) (t : Tower)
      → Moves (steps agent_id) t.gate (check_drift now agent_id s t).1.gate
  gate-check_drift agent_id s t =
      by_flags (detect_drift t.stream agent_id (Dict.get_or agent_id (pos 0) t.budgets))
    where
      by_flags :
          (r : Result Error (List DriftFlag))
          → Moves
              (steps agent_id)
              t.gate
              (((λ u. (r, u)) >>= λ flags.
                  if is_stoppable now s then contain now agent_id flags else pure tt)
                t).1.gate
      by_flags (err x) = inl refl
      by_flags (ok flags) = elim (Bool-cases (is_stoppable now s)) [
        | inl e ↦ rw e (gate-contain agent_id flags t)
        | inr e ↦ rw e (inl refl)
      ]

  pub gate-after_step :
      (agent_id : String) (t : Tower)
      → Moves (steps agent_id) t.gate (after_step now agent_id t).1.gate
  unfolding after_step
  gate-after_step agent_id t = elim (Bool-cases (is_killed (state t.gate agent_id))) [
    | inl e ↦ rw e (inl refl)
    | inr e ↦ rw e (gate-check_drift agent_id (state t.gate agent_id) t)
  ]

  pub gate-inject_rogue :
      (agent_id : String) (t : Tower) → (inject_rogue now agent_id t).1.gate ≡ t.gate
  gate-inject_rogue agent_id t =
      (Keeps-inject_rogue now (λ u. u.gate ≡ t.gate)
          (λ a k p. record { at = λ u e. gate-emit now a k p u ∙ e }) (λ u r e. e) agent_id).at
        t refl

  pub gate-on_gate :
      {A : Type 0} (f : Gate → Result Error (A × Gate)) (t : Tower)
      → (on_gate f t).1.gate ≡ after t.gate (f t.gate)
  gate-on_gate {A} f t = by_call (f t.gate)
    where
      by_call : (r : Result Error (A × Gate)) → (on_gate (λ _. r) t).1.gate ≡ after t.gate r
      by_call (ok (a, g)) = refl
      by_call (err x) = refl

  pub gate-seed_demo : (t : Tower) → (seed_demo now t).1.gate ≡ Gate.reset t.gate
  unfolding seed_demo
  gate-seed_demo t =
      (Keeps-enroll now (λ u. u.gate ≡ Gate.reset t.gate)
          (λ a k p. record { at = λ u e. gate-emit now a k p u ∙ e }) jobs).at
        _ refl
