-- ===== src/Tower/Gate/Steps.antt =====
-- Histories of calls on the gate. A call that raises leaves the gate as it was.
use builder_league.Prelude.{
  All, Bool, Bool-cases, List, Option, Option-cases, Result, String, [], arith, err, false,
  if◌then◌else◌, inl, inr, not, ok, raise_if, refl, some, true, ℕ, ◌>>=◌, ◌>>◌, ◌∷◌, ◌≡◌,
}
use builder_league.Prelude.Int.{ℤ}
use builder_league.Prelude.Values.{Fields}
use builder_league.Tower.Errors.{
  Error, State, Status, active, approved, awaiting, denied, not_pending, paused, pending,
}
use builder_league.Tower.Gate.{
  Approval, Gate, approve, deny, enqueue, force_pause, get_approval, has_pending, is_killed,
  is_pending, kill, new_approval, pause, request_approval, require_pending, reset, resume,
  set_state, settle, state,
}

pub data Call : Type 0 where
  pauses force_pauses resumes kills : String → Call
  requests : String → String → Option ℤ → String → Fields → Call
  approves denies : ℕ → String → Call
  resets : Call

abbrev pub after : {A : Type 0} → Gate → Result Error (A × Gate) → Gate
after g (ok (_, h)) = h
after g (err _) = g

-- One call, by an agent, by the operator or by the tower.
unfoldable pub step : Gate → Call → Gate
step g (pauses a) = after g (pause a g)
step g (force_pauses a) = after g (force_pause a g)
step g (resumes a) = after g (resume a g)
step g (kills a) = (kill a g).1
step g (requests a action amount reason payload) =
    after g (request_approval a action amount reason payload g)
step g (approves i operator) = after g (approve i operator g)
step g (denies i operator) = after g (deny i operator g)
step g resets = reset g

unfoldable pub run : Gate → List Call → Gate
run g [] = g
run g (c ∷ cs) = run (step g c) cs

-- the calls of one run: the control plane is not reset
abbrev pub is_reset : Call → Bool
is_reset resets = true
is_reset _ = false

abbrev pub InOneRun : List Call → Type 0
InOneRun cs = All (λ c. is_reset c ≡ false) cs

-- What one call of a run may have done.
pub data Change (g h : Gate) : Type 0 where
  same : h ≡ g → Change g h
  moved :
      (a : String) (s : State)
      → is_killed (state g a) ≡ false
      → is_killed s ≡ false
      → (s ≡ awaiting → has_pending a g ≡ true)
      → h ≡ set_state a s g
      → Change g h
  queued :
      (a : Approval)
      → is_killed (state g a.agent_id) ≡ false
      → a.id ≡ g.next_id
      → a.status ≡ pending
      → h ≡ enqueue a g
      → Change g h
  settled :
      (i : ℕ) (a : Approval) (s : Status) (operator : String)
      → get_approval i g ≡ some a
      → a.status ≡ pending
      → is_pending s ≡ false
      → h ≡ (settle s operator a g).1
      → Change g h
  ended : (a : String) → h ≡ (kill a g).1 → Change g h

module _ (g : Gate) where
  resume-Change : (a : String) → Change g (after g (resume a g))
  unfolding resume
  resume-Change a = elim (Bool-cases (is_killed (state g a))) [
    | inl dead ↦ same (rw dead)
    | inr live ↦ rw live (
        moved a (if has_pending a g then awaiting else active) live (ground arith)
          (λ p. ground arith) refl)
  ]

  settle-Change :
      (i : ℕ) (operator : String) (s : Status)
      → is_pending s ≡ false
      → Change g (after g (require_pending i g >>= λ a. ok (settle s operator a g)))
  unfolding require_pending
  settle-Change i operator s final = elim (Option-cases (get_approval i g)) [
    | inl e ↦ same (rw e)
    | inr (a, e) ↦ rw e (by_status a a.status e refl)
  ]
    where
      by_status :
          (a : Approval) (t : Status)
          → get_approval i g ≡ some a
          → a.status ≡ t
          → Change g (
              after g (
                (raise_if (not (is_pending a.status)) (not_pending i a.status) >> ok a) >>= λ a.
                ok (settle s operator a g)))
      by_status a pending e p = rw p (settled i a s operator e p final refl)
      by_status a approved e p = rw p (same refl)
      by_status a denied e p = rw p (same refl)

  pub step-Change : (c : Call) → is_reset c ≡ false → Change g (step g c)
  unfolding step pause force_pause request_approval approve deny
  step-Change (pauses a) n = elim (Bool-cases (is_killed (state g a))) [
    | inl dead ↦ same (rw dead)
    | inr live ↦ rw live (moved a paused live refl (λ p. cc) refl)
  ]
  step-Change (force_pauses a) n = elim (Bool-cases (is_killed (state g a))) [
    | inl dead ↦ same (rw dead)
    | inr live ↦ rw live (moved a paused live refl (λ p. cc) refl)
  ]
  step-Change (resumes a) n = resume-Change a
  step-Change (kills a) n = ended a refl
  step-Change (requests a action amount reason payload) n =
      elim (Bool-cases (is_killed (state g a))) [
        | inl dead ↦ same (rw dead)
        | inr live ↦
            rw live
              (queued (new_approval g.next_id a action amount reason payload) live refl refl refl)
      ]
  step-Change (approves i operator) n = settle-Change i operator approved refl
  step-Change (denies i operator) n = settle-Change i operator denied refl
  step-Change resets n = cc
