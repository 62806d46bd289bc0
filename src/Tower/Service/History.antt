-- ===== src/Tower/Service/History.antt =====
-- Histories of requests to the service, and what they keep. On the gate a request is one call of the gate,
-- or none.
use builder_league.Prelude.Exec.{Keeps}
use builder_league.Tower.Service.Requests.{
  InOneRun, IsOneCall, Moves, Request, asks_approve, asks_deny, asks_kill, asks_pause, asks_reset,
  asks_resume, asks_rogue, asks_seed, gate-after_step, gate-inject_rogue, gate-logged, gate-on_gate,
  gate-seed_demo, is_restart, logs, one_call, parks, serve, serve_all, steps,
}
use builder_league.Prelude.{List, String, [], err, false, inl, inr, ok, refl, ℕ, ◌∙◌, ◌∷◌, ◌≡◌}
use builder_league.Prelude.Values.{Fields}
use builder_league.Tower.Errors.{agent_halted, killed}
use builder_league.Tower.Service.{
  Tower, approve, deny, emit, jobs, kill, pause, reset, resume, seed_demo,
}
use builder_league.Tower.Gate
use builder_league.Tower.Gate.Terminal.{killed_forever}
use builder_league.Tower.Stream.Contiguous.{IsContiguous, reset-IsContiguous}
use builder_league.Tower.Gate.{Gate, check, has_pending, state}
use builder_league.Tower.Service.Frame.{
  Keeps-after_step, Keeps-enroll, Keeps-inject_rogue, Keeps-logged, Keeps-on_gate_free,
}
use builder_league.Tower.Gate.Invariant.{step-IsValid}
use builder_league.Tower.Gate.Steps.{run, step}
use builder_league.Tower.Service.Soundness.{IsSound, gate-emit, log-emit}

module _ (now : ℕ → String) where
  -- On the gate, a request of an operator is the gate's call of that name, an injection and a logged event
  -- change nothing, the check after a step is one forced pause of the agent or nothing, an agent's request
  -- for approval is the gate's, and a reset and a seeding of the fleet are the gate's reset.
  pub serve_refines_gate : (t : Tower) (r : Request) → Moves r t.gate (serve now t r).gate
  unfolding serve pause resume kill approve deny reset step
  serve_refines_gate t (asks_pause a o) = gate-logged now (Gate.pause a) _ _ _ t
  serve_refines_gate t (asks_resume a o) = gate-logged now (Gate.resume a) _ _ _ t
  serve_refines_gate t (asks_kill a o) = gate-logged now (λ g. ok (Gate.kill a g)) _ _ _ t
  serve_refines_gate t (asks_approve i o) = gate-logged now (Gate.approve i o) _ _ _ t
  serve_refines_gate t (asks_deny i o) = gate-logged now (Gate.deny i o) _ _ _ t
  serve_refines_gate t (asks_rogue a) = gate-inject_rogue now a t
  serve_refines_gate t (steps a) = gate-after_step now a t
  serve_refines_gate t (logs a kind payload) = gate-emit now a kind payload t
  serve_refines_gate t (parks a action amount reason payload) =
      gate-on_gate now (Gate.request_approval a action amount reason payload) t
  serve_refines_gate t asks_reset = refl
  serve_refines_gate t asks_seed = gate-seed_demo now t

  -- by one call of the gate, or none
  serve-call : (t : Tower) (r : Request) → IsOneCall r t.gate (serve now t r).gate
  serve-call t r = one_call r t.gate (serve now t r).gate (serve_refines_gate t r)

  serve-killed :
      (t : Tower) (r : Request) (b : String)
      → IsSound t
      → state t.gate b ≡ killed
      → is_restart r ≡ false
      → state (serve now t r).gate b ≡ killed
  unfolding run
  serve-killed t r b v dead n = elim (serve-call t r) [
    | inl e ↦ rw e dead
    | inr (c, k, e) ↦ rw e (killed_forever t.gate b (c ∷ []) v.gate dead (k ∙ n, tt)).0
  ]

  Keeps-log : (a k : String) (p : Fields) → Keeps (λ t. IsContiguous t.stream) (emit now a k p)
  Keeps-log a k p = log-emit now a k p

  log-serve :
      (t : Tower) (r : Request) → IsContiguous t.stream → IsContiguous (serve now t r).stream
  unfolding serve pause resume kill approve deny reset seed_demo
  log-serve t (asks_pause a o) =
      (Keeps-logged now _ Keeps-log (λ u g c. c) (Gate.pause a) _ _ _).at t
  log-serve t (asks_resume a o) =
      (Keeps-logged now _ Keeps-log (λ u g c. c) (Gate.resume a) _ _ _).at t
  log-serve t (asks_kill a o) =
      (Keeps-logged now _ Keeps-log (λ u g c. c) (λ g. ok (Gate.kill a g)) _ _ _).at t
  log-serve t (asks_approve i o) =
      (Keeps-logged now _ Keeps-log (λ u g c. c) (Gate.approve i o) _ _ _).at t
  log-serve t (asks_deny i o) =
      (Keeps-logged now _ Keeps-log (λ u g c. c) (Gate.deny i o) _ _ _).at t
  log-serve t (asks_rogue a) = (Keeps-inject_rogue now _ Keeps-log (λ u r c. c) a).at t
  log-serve t (steps a) = (Keeps-after_step now _ Keeps-log (λ u g c. c) a).at t
  log-serve t (logs a kind payload) = (Keeps-log a kind payload).at t
  log-serve t (parks a action amount reason payload) =
      (Keeps-on_gate_free now _ Keeps-log (λ u g c. c)
          (Gate.request_approval a action amount reason payload)).at
        t
  log-serve t asks_reset = λ h. reset-IsContiguous t.stream
  log-serve t asks_seed =
      λ h. (Keeps-enroll now _ Keeps-log jobs).at _ (reset-IsContiguous t.stream)

  -- No request breaks the numbering of the log or the invariant of the gate.
  pub serve-IsSound : (t : Tower) (r : Request) → IsSound t → IsSound (serve now t r)
  serve-IsSound t r v = record { log = log-serve t r v.log; gate = gate_after (serve-call t r) }
    where
      gate_after :
          IsOneCall r t.gate (serve now t r).gate → Gate.Invariant.IsValid (serve now t r).gate
      gate_after (inl e) = rw e v.gate
      gate_after (inr (c, k, e)) = rw e (step-IsValid v.gate c)

  -- After any requests, of operators and agents, resets and seedings of the fleet, from a sound state the
  -- events of every agent are numbered 1, 2, 3 and so on, and the gate satisfies its invariant.
  pub serve_all-IsSound : (t : Tower) (rs : List Request) → IsSound t → IsSound (serve_all now t rs)
  unfolding serve_all
  serve_all-IsSound t [] v = v
  serve_all-IsSound t (r ∷ rs) v = serve_all-IsSound (serve now t r) rs (serve-IsSound t r v)

  -- From a sound state, a killed agent stays killed under every history of requests of operators and agents
  -- in which the fleet is neither reset nor seeded again: its steps are refused at the gate, and no action
  -- of it waits for approval.
  pub service_killed_forever :
      (t : Tower) (b : String) (rs : List Request)
      → IsSound t
      → state t.gate b ≡ killed
      → InOneRun rs
      → (state (serve_all now t rs).gate b ≡ killed)
        × (check b (serve_all now t rs).gate ≡ err (agent_halted b killed))
        × (has_pending b (serve_all now t rs).gate ≡ false)
  unfolding serve_all run
  service_killed_forever t b [] v dead o = killed_forever t.gate b [] v.gate dead tt
  service_killed_forever t b (r ∷ rs) v dead (n, o) =
      service_killed_forever (serve now t r) b rs (serve-IsSound t r v)
        (serve-killed t r b v dead n) o
