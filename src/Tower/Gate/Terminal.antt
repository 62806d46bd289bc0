-- ===== src/Tower/Gate/Terminal.antt =====
-- What no later call takes back: a kill, and the decision of an approval.
use builder_league.Prelude.{
  List, String, [], ap, arith, eq_iff, eqb_iff, err, false, refl, some, ℕ, ◌∷◌, ◌≡◌, nat_eq,
  string_eq,
}
use builder_league.Prelude.Dict
use builder_league.Prelude.Dict.{Dict, any-of_lookup}
use builder_league.Tower.Errors.{Status, active, agent_halted, awaiting, killed, pending}
use builder_league.Tower.Gate.Invariant.{
  IsValid, get_approval-insert, lookup-deny_all, state-insert, step-IsValid,
}
use builder_league.Tower.Gate.Steps.{
  Call, Change, InOneRun, ended, moved, queued, run, same, settled, step, step-Change,
}
use builder_league.Tower.Gate.{
  Approval, Gate, check, enqueue, get_approval, has_pending, is_pending, kill, resolve, set_state,
  settle, state, waits_for,
}

module _ {g : Gate} (v : IsValid g) (b : String) (dead : state g b ≡ killed) where
  settled-killed :
      (i : ℕ) (a : Approval) (s : Status) (operator : String)
      → get_approval i g ≡ some a
      → a.status ≡ pending
      → state (settle s operator a g).1 b ≡ killed
  unfolding get_approval has_pending
  settled-killed i a s operator e p = ground (
    arith,
    state-insert g a.agent_id b active (settle s operator a g).1 refl,
    any-of_lookup (waits_for b) i a g.approvals e,
    v.dead b dead,
  )

  Change-killed : {h : Gate} → Change g h → state h b ≡ killed
  unfolding kill
  Change-killed (same e) = rw e dead
  Change-killed (moved a s live _ _ e) =
      rw e (ground (arith, state-insert g a b s (set_state a s g) refl, eq_iff a b, dead, live))
  Change-killed (queued a live _ _ e) = rw e (
      ground
        (arith, state-insert g a.agent_id b awaiting (enqueue a g) refl, eq_iff a.agent_id b, dead))
  Change-killed (settled i a s operator f p _ e) = rw e (settled-killed i a s operator f p)
  Change-killed (ended a e) =
      rw e (ground (arith, state-insert g a b killed (kill a g).1 refl, dead))

-- Killed is terminal within a run: from a valid gate, after any calls of the gate but its reset, a killed
-- agent is still killed, its steps are refused at the gate, and no action of it waits for approval.
pub killed_forever :
    (g : Gate) (b : String) (cs : List Call)
    → IsValid g
    → state g b ≡ killed
    → InOneRun cs
    → (state (run g cs) b ≡ killed)
      × (check b (run g cs) ≡ err (agent_halted b killed))
      × (has_pending b (run g cs) ≡ false)
unfolding run check
killed_forever g b [] v dead o = (dead, ground (arith, dead), v.dead b dead)
killed_forever g b (c ∷ cs) v dead (n, o) =
    killed_forever (step g c) b cs (step-IsValid v c) (Change-killed v b dead (step-Change g c n)) o

module _ {g : Gate} (v : IsValid g) (i : ℕ) (b : Approval) where
  Change-resolved :
      {h : Gate}
      → Change g h
      → get_approval i g ≡ some b
      → is_pending b.status ≡ false
      → get_approval i h ≡ some b
  unfolding kill get_approval
  Change-resolved (same e) f d = rw e f
  Change-resolved (moved a s _ _ _ e) f d = rw e f
  Change-resolved (queued a _ q _ e) f d = rw e (
      ground (
        arith,
        q,
        get_approval-insert g a.id i a (enqueue a g) refl,
        v.fresh i b f,
        eqb_iff a.id i,
      ))
  Change-resolved (settled j a s operator w p _ e) f d = rw e (
      ground (
        arith,
        get_approval-insert g a.id i (resolve s operator a) (settle s operator a g).1 refl,
        v.keyed j a w,
        v.keyed i b f,
        ap (λ k. Dict.lookup k g.approvals) (v.keyed j a w),
        w,
        p,
      ))
  Change-resolved (ended a e) f d = rw e (ground (arith, lookup-deny_all a i g.approvals, f, d))

-- A decision is final within a run: from a valid gate, an approval that is no longer pending reads the
-- same after any calls of the gate but its reset.
pub resolved_final :
    (g : Gate) (i : ℕ) (b : Approval) (cs : List Call)
    → IsValid g
    → get_approval i g ≡ some b
    → is_pending b.status ≡ false
    → InOneRun cs
    → get_approval i (run g cs) ≡ some b
unfolding run
resolved_final g i b [] v f d o = f
resolved_final g i b (c ∷ cs) v f d (n, o) =
    resolved_final (step g c) i b cs (step-IsValid v c)
      (Change-resolved v i b (step-Change g c n) f d) d o
