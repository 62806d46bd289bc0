-- ===== src/Tower/Registry/Status.antt =====
-- The status on the operator's screen, against the gate.
use mathlib.Core.Path.{subst}
use builder_league.Prelude.{
  >>=-eq-ok, List, String, [], ap, arith, eq_iff, false, inl, inr, ok, ok-inj, refl, sym, ℕ, ◌==◌,
  ◌↔◌, ◌∷◌, ◌≡◌, ◌⊎◌, nat_eq, string_eq,
}
use builder_league.Prelude.Int.{ℤ}
use builder_league.Prelude.Values.{Value, to_int}
use builder_league.Tower.Errors.{State, active, awaiting, killed, paused}
use builder_league.Tower.Anomaly.{detect_drift, spent_usd, sum_costs}
use builder_league.Tower.Registry.{AgentView, agent_view, blockers_of, status_of}
use builder_league.Tower.Gate.{Gate, check, state}
use builder_league.Tower.Stream.{EventStream, for_agent}

abbrev pub IsShownFree : String → Type 0
IsShownFree status = (status ≡ "running") ⊎ (status ≡ "blocked")

not_free :
    (status : String)
    → (status == "running") ≡ false
    → (status == "blocked") ≡ false
    → IsShownFree status
    → ⊥
not_free status r b (inl e) = ground (arith, r, e, eq_iff status "running")
not_free status r b (inr e) = ground (arith, b, e, eq_iff status "blocked")

free_iff_active :
    (s : State) (blockers : List Value) → IsShownFree (status_of s blockers) ↔ (s ≡ active)
unfolding status_of
free_iff_active active [] = ((λ h. refl), (λ h. inl refl))
free_iff_active active (b ∷ bs) = ((λ h. refl), (λ h. inr refl))
free_iff_active paused bs = ((λ h. absurd (not_free "paused" refl refl h)), (λ h. cc))
free_iff_active awaiting bs = ((λ h. absurd (not_free "awaiting_approval" refl refl h)), (λ h. cc))
free_iff_active killed bs = ((λ h. absurd (not_free "killed" refl refl h)), (λ h. cc))

shown_of :
    (s : EventStream) (g : Gate) (a : String) (budget : ℤ) (n : ℕ) (v : AgentView)
    → agent_view s g a budget n ≡ ok v
    → v.status ≡ status_of (state g a) (blockers_of (for_agent s a))
unfolding agent_view
shown_of s g a budget n v h =
    let events = for_agent s a in
    let (c, _, h1) = >>=-eq-ok (spent_usd events) _ h in
    let (t, _, h2) = >>=-eq-ok (sum_costs "tokens" to_int events) _ h1 in
    let (d, _, h3) = >>=-eq-ok (detect_drift s a budget) _ h2 in
    sym (ap (λ (w : AgentView). w.status) (ok-inj h3))

active_iff_passes :
    (s : EventStream) (g : Gate) (a : String) → (state g a ≡ active) ↔ (check a g ≡ ok tt)
unfolding check
active_iff_passes s g a = by_state (state g a) refl
  where
    by_state : (x : State) → state g a ≡ x → (state g a ≡ active) ↔ (check a g ≡ ok tt)
    by_state active e = ((λ h. ground (arith, e)), (λ h. e))
    by_state paused e = ((λ h. ground (arith, e, h)), (λ h. ground (arith, e, h)))
    by_state awaiting e = ((λ h. ground (arith, e, h)), (λ h. ground (arith, e, h)))
    by_state killed e = ((λ h. ground (arith, e, h)), (λ h. ground (arith, e, h)))

-- When the view of an agent is computed, it shows the agent as running or blocked exactly when the gate
-- lets its next step pass.
pub view_iff_passes :
    (s : EventStream) (g : Gate) (a : String) (budget : ℤ) (n : ℕ) (v : AgentView)
    → agent_view s g a budget n ≡ ok v
    → IsShownFree v.status ↔ (check a g ≡ ok tt)
view_iff_passes s g a budget n v h =
    let shown = shown_of s g a budget n v h in
    let (f, b) = free_iff_active (state g a) (blockers_of (for_agent s a)) in
    let (p, q) = active_iff_passes s g a in
    ((λ r. p (f (subst IsShownFree shown r))), (λ r. subst IsShownFree (sym shown) (b (q r))))
