-- ===== src/Sim/Service/Steps.antt =====
-- What a call of the service does to the stored simulations, as a step relation.
use builder_league.Prelude.Exec.{
  Keeps, Keeps-gets, bind-err, bind-ok, gets, pure, raise_if, ◌>>=◌, ◌>>◌,
}
use builder_league.Sim.Service.Frame.{
  Keeps-audit, Keeps-escalate_audit, Keeps-purchase_live, Keeps-refund_entry, Keeps-revoke_agents,
  SameSims, required-none, required-some,
}
use mathlib.Core.Path.{subst}
use builder_league.Sim.Records.{
  Intent, Simulation, SimulationStore, Status, escalated, executed, get, is_executed, is_pending,
  pending, rejected, rolled_back, save,
}
use builder_league.Prelude.{
  Bool, List, Option-cases, Result, String, [], ap, err, false, inl, inr, not, ok, refl, some, sym,
  true, ℕ, ◌∙◌, ◌∷◌, ◌≡◌,
}
use builder_league.Trust.Crypto.{Crypto}
use builder_league.Sim.Pipeline.{
  Books, Draws, Outcome, SimError, division_by_zero, not_pending, nothing_executed, run_purchase,
  unknown_simulation,
}
use builder_league.Sim.Service.{
  Action, World, check_execution, escalate_audit, execute, execute_record, executed_record,
  finish_execution, finish_rollback, fork, predicted, purchase_live, refund_entry, reject,
  reject_record, rejected_record, required, revoke_agents, revoke_for, rollback, rollback_record,
  rolled_back_record, save_record, simulate, simulated, simulation_from, violations_now,
}
use builder_league.Prelude.Int.{eqb_ℤ, pos}
use builder_league.Sim.Fork.{Snapshot, snapshot_parts}
use builder_league.Prelude.Texts.{concat}
use builder_league.Prelude.Values.{Fields}
use builder_league.Trust.Store.{list_agents}
use builder_league.Sim.Ledger.{Violation, projected_balance}

-- the moves of the status of a simulation
pub data Moves : Status → Status → Type 0 where
  is_rejected : Moves pending rejected
  is_done : Moves pending executed
  is_stopped : Moves pending escalated
  is_undone : Moves executed rolled_back
  is_unwound : Moves escalated rolled_back

-- A call leaves the records alone, adds a pending one under its identifier if it may, or moves one.
pub data Change (new : Bool) (i : String) (m : SimulationStore) : SimulationStore → Type 0 where
  kept : Change new i m m
  created :
      (s : Simulation) → new ≡ true → s.id ≡ i → s.status ≡ pending → Change new i m (save s m)
  moved :
      (s t : Simulation)
      → get i m ≡ some t
      → s.id ≡ t.id
      → Moves t.status s.status
      → Change new i m (save s m)

was_pending : (x : Status) → not (is_pending x) ≡ false → x ≡ pending
was_pending pending h = refl
was_pending rejected h = cc
was_pending executed h = cc
was_pending escalated h = cc
was_pending rolled_back h = cc

was_executed : (x : Status) → not (is_executed x) ≡ false → Moves x rolled_back
was_executed executed h = is_undone
was_executed escalated h = is_unwound
was_executed pending h = cc
was_executed rejected h = cc
was_executed rolled_back h = cc

module _ (c : Crypto) (d : Draws) (s : Simulation) (out : Outcome) where
  executed-id : (vs : List Violation) → (executed_record c d s out vs).id ≡ s.id
  executed-id [] = refl
  executed-id (v ∷ vs) = refl

  executed-Moves : (vs : List Violation) → Moves pending (executed_record c d s out vs).status
  executed-Moves [] = is_done
  executed-Moves (v ∷ vs) = is_stopped

module _ (c : Crypto) (m : SimulationStore) (new : Bool) where
  -- an action that ends in a step of the stored records
  pub record Ends {A : Type 0} (i : String) (act : Action c A) : Type 0 where
    pub at : (w : World c) → w.sims ≡ m → Change new i m (act w).1.sims

  pub Ends-bind :
      {A B : Type 0} (i : String) (act : Action c A) (f : A → Action c B)
      → Keeps (SameSims c m) act
      → ((a : A) → Ends i (f a))
      → Ends i (act >>= f)
  Ends-bind {A = A} i act f k e = record { at = λ w h. next (act w).0 (act w).1 (k.at w h) }
    where
      next :
          (r : Result SimError A) (u : World c)
          → u.sims ≡ m
          → Change new i m (◌>>=◌ (λ _. (r, u)) f u).1.sims
      next (ok a) u h = (e a).at u h
      next (err x) u h = subst (Change new i m) (sym h) kept

  pub Ends-save :
      (i : String) (s : Simulation) → Change new i m (save s m) → Ends i (save_record c s >> pure s)
  unfolding save_record save
  Ends-save i s h = record { at = λ w q. subst (λ n. Change new i m (save s n)) (sym q) h }

  pub Ends-raise :
      {A : Type 0} (i : String) (b : Bool) (e : SimError) (act : Action c A)
      → (b ≡ false → Ends i act)
      → Ends i (raise_if b e >> act)
  Ends-raise i true e act h = record { at = λ w q. subst (Change new i m) (sym q) kept }
  Ends-raise i false e act h = record { at = (h refl).at }

  -- what follows the look-up of a record
  pub Ends-required :
      (i : String) (f : Simulation → Action c Simulation)
      → ((s : Simulation) → get i m ≡ some s → Ends i (f s))
      → Ends i (required c i >>= f)
  Ends-required i f h = record {
    at = λ w q. elim (Option-cases (get i m)) [
      | inl n ↦
          subst (λ p. Change new i m p.1.sims)
            (sym (
              bind-err (required c i) f w (unknown_simulation i) w
                (required-none c m i w (ap (get i) q ∙ n))))
            (subst (Change new i m) (sym q) kept)
      | inr (s, n) ↦
          subst (λ p. Change new i m p.1.sims)
            (sym (bind-ok (required c i) f w s w (required-some c m i s w (ap (get i) q ∙ n))))
            ((h s n).at w q)
    ];
  }

  Change-simulation_from :
      (diff : Snapshot c → Snapshot c → Fields) (sim_id : String) (d : Draws) (intent : Intent)
      (w : World c) (r : Result SimError Outcome) (b : Books c)
      → new ≡ true
      → w.sims ≡ m
      → Change new sim_id m (simulation_from c diff sim_id d intent w r b).1.sims
  unfolding simulation_from
  Change-simulation_from diff sim_id d intent w (err e) b n q =
      subst (Change new sim_id m) (sym q) kept
  Change-simulation_from diff sim_id d intent w (ok out) b n q =
      let balance = projected_balance b.ledger in
      let fork_diff =
        diff (snapshot_parts c w.books.trust w.books.ledger) (snapshot_parts c b.trust b.ledger) in
      let s =
        simulated c diff sim_id d.now intent fork_diff out (predicted c diff out balance w.limit) in
      (Ends-raise sim_id (eqb_ℤ w.limit (pos 0)) division_by_zero (save_record c s >> pure s)
          (λ _. Ends-save sim_id s (created s n refl refl))).at
        w q

  pub Ends-simulate :
      (diff : Snapshot c → Snapshot c → Fields) (sim_id : String) (ids : ℕ → String) (d : Draws)
      (intent : Intent)
      → new ≡ true
      → Ends sim_id (simulate c diff sim_id ids d intent)
  unfolding simulate
  Ends-simulate diff sim_id ids d intent n = record {
    at = λ w q.
        let (r, b) =
          run_purchase c d intent.requester_key intent.amount intent.description
            (concat "sim:" sim_id) (fork c diff ids w) in
        Change-simulation_from diff sim_id d intent w r b n q;
  }

  pub Ends-reject : (d : Draws) (i : String) → Ends i (reject c d i)
  unfolding reject reject_record
  Ends-reject d i = Ends-required i (reject_record c d i) λ s q.
      let done = rejected_record c d s in
      Ends-raise i (not (is_pending s.status)) (not_pending i) (save_record c done >> pure done)
        λ p. Ends-save i done (
          moved done s q refl
            (subst (λ x. Moves x rejected) (sym (was_pending s.status p)) is_rejected))

  pub Ends-execute : (d : Draws) (i : String) → Ends i (execute c d i)
  unfolding execute execute_record check_execution finish_execution
  Ends-execute d i = Ends-required i (execute_record c d i) λ s q.
      Ends-raise i (not (is_pending s.status)) (not_pending i)
        (purchase_live c d i s >>= check_execution c d i s)
        λ p.
          Ends-bind i (purchase_live c d i s) (check_execution c d i s)
            (Keeps-purchase_live c m d i s)
            λ out.
              Ends-bind i (gets (violations_now c)) (finish_execution c d i s out)
                (Keeps-gets (violations_now c))
                λ vs.
                  let done = executed_record c d s out vs in
                  Ends-bind i (escalate_audit c d i vs) (λ _. save_record c done >> pure done)
                    (Keeps-escalate_audit c m d i vs)
                    λ _. Ends-save i done (
                      moved done s q (executed-id c d s out vs) (
                        subst (λ x. Moves x done.status) (sym (was_pending s.status p))
                          (executed-Moves c d s out vs)))

  pub Ends-rollback : (d : Draws) (i : String) → Ends i (rollback c d i)
  unfolding rollback rollback_record revoke_for finish_rollback
  Ends-rollback d i = Ends-required i (rollback_record c d i) λ s q.
      let key = s.intent.requester_key in
      Ends-raise i (not (is_executed s.status)) (nothing_executed i) _ λ p.
        Ends-bind i (refund_entry c d i key s.executed_entry) _
          (Keeps-refund_entry c m d i key s.executed_entry)
          λ _.
            Ends-bind i (gets (λ w. list_agents w.books.trust.registry)) (revoke_for c d i s)
              (Keeps-gets _)
              λ agents.
                Ends-bind i (revoke_agents c d i key agents)
                  (λ _. gets (violations_now c) >>= finish_rollback c d i s)
                  (Keeps-revoke_agents c m d i key agents)
                  λ _.
                    Ends-bind i (gets (violations_now c)) (finish_rollback c d i s)
                      (Keeps-gets (violations_now c))
                      λ vs.
                        let done = rolled_back_record c d s vs in
                        Ends-bind i _ (λ _. save_record c done >> pure done)
                          (Keeps-audit c m d (some i) "rollback" _)
                          λ _. Ends-save i done (moved done s q refl (was_executed s.status p))
