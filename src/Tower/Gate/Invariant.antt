-- ===== src/Tower/Gate/Invariant.antt =====
-- What holds of the gate between two calls.
use builder_league.Prelude.{
  ==_cases, Bool-cases, List, Option-cases, String, [], any, arith, eq_iff, false, if◌then◌else◌,
  inl, inr, none, refl, some, sym, true, ℕ, ◌<◌, ◌==◌, ◌∷◌, ◌≡◌, ◌≢◌, nat_eq, string_eq,
}
use mathlib.Core.Option
use mathlib.Core.Path.{subst}
use builder_league.Prelude.Dict
use builder_league.Prelude.Dict.{
  Dict, any-insert_keep, any-insert_new, any-insert_same, any-insert_self, lookup-insert,
}
use builder_league.Tower.Errors.{State, Status, active, awaiting, denied, killed, pending}
use builder_league.Tower.Gate.Steps.{
  Call, Change, approves, denies, ended, force_pauses, is_reset, kills, moved, pauses, queued,
  requests, resets, resumes, run, same, settled, step, step-Change,
}
use builder_league.Tower.Gate.{
  Approval, Gate, deny_all, enqueue, get_approval, has_pending, initial, is_killed, is_pending,
  kill, reset, resolve, set_state, settle, state, waits_for,
}

pub record IsValid (g : Gate) : Type 0 where
  -- an approval stands under its own id, which the counter has passed
  pub keyed : (i : ℕ) (a : Approval) → get_approval i g ≡ some a → a.id ≡ i
  pub fresh : (i : ℕ) (a : Approval) → get_approval i g ≡ some a → i < g.next_id
  -- a killed agent has no parked action
  pub dead : (a : String) → state g a ≡ killed → has_pending a g ≡ false
  -- an agent that awaits approval has something to be approved
  pub parked : (a : String) → state g a ≡ awaiting → has_pending a g ≡ true

pub initial-IsValid : IsValid initial
unfolding state get_approval
initial-IsValid = record {
  keyed = λ i a e. cc;
  fresh = λ i a e. cc;
  dead = λ a e. cc;
  parked = λ a e. cc;
}

reset-IsValid : (g : Gate) → IsValid (reset g)
unfolding state get_approval reset
reset-IsValid g = record {
  keyed = λ i a e. cc;
  fresh = λ i a e. cc;
  dead = λ a e. cc;
  parked = λ a e. cc;
}

module _ (g : Gate) where
  pub state-insert :
      (a b : String) (s : State) (h : Gate)
      → h.states ≡ Dict.insert a s g.states
      → state h b ≡ (if a == b then s else state g b)
  unfolding state
  state-insert a b s h e = rw e (ground (arith, lookup-insert a b s g.states))

  pub get_approval-insert :
      (i j : ℕ) (a : Approval) (h : Gate)
      → h.approvals ≡ Dict.insert i a g.approvals
      → get_approval j h ≡ (if i == j then some a else get_approval j g)
  unfolding get_approval
  get_approval-insert i j a h e = rw e (lookup-insert i j a g.approvals)

-- `kill` leaves the approvals of the other agents alone, and none of this agent's pending.
pub lookup-deny_all :
    (a : String) (i : ℕ) (m : Dict.Dict ℕ Approval)
    → Dict.lookup i (deny_all a m)
      ≡ Option.map
          (λ x. if waits_for a x then resolve denied "system:kill" x else x)
          (Dict.lookup i m)
unfolding deny_all Dict.lookup
lookup-deny_all a i [] = refl
lookup-deny_all a i ((j, x) ∷ m) = ground (arith, lookup-deny_all a i m)

pub has_pending-deny_all_self :
    (a : String) (m : Dict.Dict ℕ Approval) → any (waits_for a) (Dict.values (deny_all a m)) ≡ false
unfolding deny_all
has_pending-deny_all_self a [] = refl
has_pending-deny_all_self a ((j, x) ∷ m) = ground (arith, has_pending-deny_all_self a m)

pub has_pending-deny_all_ne :
    (a b : String) (m : Dict.Dict ℕ Approval)
    → a ≢ b
    → any (waits_for b) (Dict.values (deny_all a m)) ≡ any (waits_for b) (Dict.values m)
unfolding deny_all
has_pending-deny_all_ne a b [] h = refl
has_pending-deny_all_ne a b ((j, x) ∷ m) h =
    ground (arith, has_pending-deny_all_ne a b m h, eq_iff x.agent_id a, eq_iff x.agent_id b)

module _ {g : Gate} (v : IsValid g) where
  moved-IsValid :
      (a : String) (s : State)
      → is_killed s ≡ false
      → (s ≡ awaiting → has_pending a g ≡ true)
      → IsValid (set_state a s g)
  unfolding get_approval has_pending
  moved-IsValid a s live wait = record {
    keyed = v.keyed;
    fresh = v.fresh;
    dead = λ b e. ground (arith, state-insert g a b s (set_state a s g) refl, v.dead b);
    parked =
        λ b e. ground (arith, state-insert g a b s (set_state a s g) refl, v.parked b, eq_iff a b);
  }

  -- the number that the counter shows stands in no entry
  unused : (i : ℕ) → i ≡ g.next_id → Dict.lookup i g.approvals ≡ none
  unfolding get_approval
  unused i e = elim (Option-cases (Dict.lookup i g.approvals)) [
    | inl q ↦ q
    | inr (a, q) ↦ absurd (omega (arith, v.fresh i a q, e))
  ]

  found_again :
      (i : ℕ) (a : Approval) → get_approval i g ≡ some a → Dict.lookup a.id g.approvals ≡ some a
  unfolding get_approval
  found_again i a e = subst (λ j. Dict.lookup j g.approvals ≡ some a) (sym (v.keyed i a e)) e

  -- an approval after `kill` was there before it, under the same id
  denied_before :
      (a : String) (j : ℕ) (b : Approval)
      → get_approval j (kill a g).1 ≡ some b
      → (b.id ≡ j) × (j < g.next_id)
  unfolding get_approval kill
  denied_before a j b q = elim (Option-cases (get_approval j g)) [
    | inl e ↦ ground (arith, lookup-deny_all a j g.approvals, e)
    | inr (x, e) ↦ ground (arith, lookup-deny_all a j g.approvals, e, v.keyed j x e, v.fresh j x e)
  ]

  queued-IsValid :
      (a : Approval)
      → is_killed (state g a.agent_id) ≡ false
      → a.id ≡ g.next_id
      → a.status ≡ pending
      → IsValid (enqueue a g)
  unfolding has_pending
  queued-IsValid a live i p = record {
    keyed = λ j b e. ground (arith, get_approval-insert g a.id j a (enqueue a g) refl, v.keyed j b);
    fresh = λ j b e. ground (arith, get_approval-insert g a.id j a (enqueue a g) refl, v.fresh j b);
    dead = λ b e. ground (
      arith,
      state-insert g a.agent_id b awaiting (enqueue a g) refl,
      any-insert_new (waits_for b) a.id a g.approvals,
      v.dead b,
    );
    parked = λ b e. ground (
      arith,
      p,
      state-insert g a.agent_id b awaiting (enqueue a g) refl,
      any-insert_self (waits_for b) a.id a g.approvals,
      any-insert_keep (waits_for b) a.id a g.approvals (unused a.id i),
      v.parked b,
    );
  }

  settled-IsValid :
      (i : ℕ) (a : Approval) (s : Status) (operator : String)
      → get_approval i g ≡ some a
      → a.status ≡ pending
      → is_pending s ≡ false
      → IsValid (settle s operator a g).1
  unfolding has_pending
  settled-IsValid i a s operator e p final =
      let h = (settle s operator a g).1 in
      let r = resolve s operator a in
      record {
        keyed = λ j b q. ground (arith, get_approval-insert g a.id j r h refl, v.keyed j b);
        fresh = λ j b q. ground (
          arith,
          get_approval-insert g a.id j r h refl,
          v.fresh j b,
          v.keyed i a e,
          v.fresh i a e,
        );
        dead = λ b q. ground (
          arith,
          state-insert g a.agent_id b active h refl,
          any-insert_new (waits_for b) a.id r g.approvals,
          v.dead b,
        );
        parked = λ b q. ground (
          arith,
          state-insert g a.agent_id b active h refl,
          any-insert_same (waits_for b) a.id r a g.approvals (found_again i a e),
          v.parked b,
        );
      }

  ended-IsValid : (a : String) → IsValid (kill a g).1
  unfolding kill has_pending
  ended-IsValid a = record {
    keyed = λ j b q. (denied_before a j b q).0;
    fresh = λ j b q. (denied_before a j b q).1;
    dead = λ b q. elim (==_cases a b) [
      | inl (e, _) ↦ rw (← e) (has_pending-deny_all_self a g.approvals)
      | inr (ne, m) ↦ ground (
        arith,
        has_pending-deny_all_ne a b g.approvals ne,
        state-insert g a b killed (kill a g).1 refl,
        v.dead b,
      )
    ];
    parked = λ b q. elim (==_cases a b) [
      | inl (e, m) ↦ ground (arith, state-insert g a b killed (kill a g).1 refl)
      | inr (ne, m) ↦ ground (
        arith,
        has_pending-deny_all_ne a b g.approvals ne,
        state-insert g a b killed (kill a g).1 refl,
        v.parked b,
      )
    ];
  }

  pub Change-IsValid : {h : Gate} → Change g h → IsValid h
  Change-IsValid (same e) = rw e v
  Change-IsValid (moved a s _ live wait e) = rw e (moved-IsValid a s live wait)
  Change-IsValid (queued a live i p e) = rw e (queued-IsValid a live i p)
  Change-IsValid (settled i a s operator f p final e) =
      rw e (settled-IsValid i a s operator f p final)
  Change-IsValid (ended a e) = rw e (ended-IsValid a)

pub step-IsValid : {g : Gate} → IsValid g → (c : Call) → IsValid (step g c)
unfolding step
step-IsValid {g} v c = elim (Bool-cases (is_reset c)) [
  | inl r ↦ wiped c r
  | inr r ↦ Change-IsValid v (step-Change g c r)
]
  where
    wiped : (c : Call) → is_reset c ≡ true → IsValid (step g c)
    wiped resets r = reset-IsValid g
    wiped (pauses a) r = cc
    wiped (force_pauses a) r = cc
    wiped (resumes a) r = cc
    wiped (kills a) r = cc
    wiped (requests a action amount reason payload) r = cc
    wiped (approves i operator) r = cc
    wiped (denies i operator) r = cc

-- No history of calls, resets included, breaks the invariant of a valid gate.
pub run-IsValid : (g : Gate) (cs : List Call) → IsValid g → IsValid (run g cs)
unfolding run
run-IsValid g [] v = v
run-IsValid g (c ∷ cs) v = run-IsValid (step g c) cs (step-IsValid v c)
