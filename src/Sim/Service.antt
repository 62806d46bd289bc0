-- ===== src/Sim/Service.antt =====
-- `SimService` (core/simcore/application/services.py). The structural diff of two snapshots, which the
-- code takes from deepdiff, is a parameter. A record that is written before a raise stays written.
pub mod Frame
pub mod Preview
pub mod Requests
pub mod Steps
mod Tests
use builder_league.Prelude.Exec.{Exec, gets, modify, pure, raise_if, ◌>>=◌, ◌>>◌}
use builder_league.Sim.Records.{
  Intent, PostCheck, PredictedEffects, RollbackEntry, Simulation, SimulationStore, escalated,
  event_of, executed, get, is_executed, is_pending, log_event, pending, refund_of, rejected,
  revoke_authority, rolled_back, save,
}
use builder_league.Prelude.{
  Bool, List, Option, Result, String, [], err, false, if◌then◌else◌, none, not, ok, some, true, ℕ,
  ◌++◌, ◌==◌, ◌∷◌, nat_eq, string_eq,
}
use builder_league.Prelude.Int.{eqb_ℤ, mul_ℤ, pos, ℤ}
use builder_league.Prelude.Texts.{concat}
use builder_league.Prelude.Values.{
  Fields, Value, dict, end, field, format, null, num, str, values_of,
}
use builder_league.Trust.Crypto.{Crypto}
use builder_league.Trust.Policy.{PolicyDecision, allow, escalate}
use builder_league.Trust.Service.{TrustService, record_event, revoke_credential}
use builder_league.Trust.Service.Profile.{ProfileCredential, is_valid_of, trust_profile}
use builder_league.Trust.Store.{Agent, list_agents}
use builder_league.Sim.Ledger.{
  LedgerEntry, Violation, invariant_violations, place_hold, place_refund, projected_balance,
}
use builder_league.Sim.Fork.{Snapshot, fork_trust, snapshot_parts}
use builder_league.Sim.Pipeline.{
  Books, Draws, Outcome, Run, SimError, division_by_zero, not_pending, nothing_executed, on_ledger,
  on_trust, run_purchase, unknown_simulation,
}
use builder_league.Trust.Credentials.{TrustError}

pub record World (c : Crypto) : Type 0 where
  pub books : Books c
  pub sims : SimulationStore
  pub limit : ℤ

abbrev pub rollback_entries : Option LedgerEntry → List RollbackEntry
rollback_entries none = []
rollback_entries (some e) = refund_of e.amount ∷ revoke_authority ∷ []

abbrev pub is_empty : List Violation → Bool
is_empty [] = true
is_empty (v ∷ vs) = false

abbrev pub audit_decision : String → PolicyDecision
audit_decision action = if action == "escalate" then escalate else allow

abbrev pub maybe_id : Option String → Value
maybe_id none = null
maybe_id (some i) = str i

abbrev pub excess_note : Violation → Value
excess_note v =
    format (values_of (str "post-execution invariant violated: excess " ∷ num v.excess ∷ []))

abbrev pub violation_note : Violation → Value
violation_note v = format (
    values_of (
      str "invariant violated after execution: "
      ∷ dict (
          field "spent" (num v.spent) (
            field "holds" (num v.holds)
              (field "limit" (num v.limit) (field "excess" (num v.excess) end))))
      ∷ []))

-- the post-check at a time
abbrev pub checked : ℕ → List Violation → PostCheck
checked now vs = record { ok = is_empty vs; violations = vs; checked_at = now }

-- what `execute` writes about the violations that it found
abbrev pub settle : ℕ → List Violation → Simulation → Simulation
settle now [] s = record s { status = executed }
settle now (v ∷ vs) s = record s {
  status = escalated;
  events = s.events ++ (record { ts = now; event = "escalated"; detail = excess_note v } ∷ []);
}

module _ (c : Crypto) where
  abbrev pub Action : Type 0 → Type 0
  Action = Exec (World c) SimError

  -- a call on the live books
  abbrev pub on_books : {A : Type 0} → Run c A → Action A
  on_books m w = let (r, b) = m w.books in (r, record w { books = b })

  abbrev pub save_record : Simulation → Action (Unit {0})
  unfolding save
  save_record s = modify (λ w. record w { sims = save s w.sims })

  -- `_require`
  unfoldable pub required : String → Action Simulation
  unfolding get
  required i w = elim (get i w.sims) [ none ↦ (err (unknown_simulation i), w) | some s ↦ (ok s, w) ]

  -- `_audit`
  unfoldable pub audit : Draws → Option String → String → Value → Action (Unit {0})
  unfolding record_event
  audit d i action note =
      on_books (
        on_trust c (λ t. ok (
          record_event c d.audit_id d.now "simcore" action note
            (field "simulation_id" (maybe_id i) (field "mode" (str "audit") end))
            (audit_decision action) t)))
      >> pure tt

  abbrev pub violations_now : World c → List Violation
  unfolding invariant_violations
  violations_now w = invariant_violations w.books.ledger w.limit

  module _ (diff : Snapshot c → Snapshot c → Fields) where
    abbrev pub predicted : Outcome → ℤ → ℤ → PredictedEffects
    predicted out balance limit = record {
      decision = out.decision;
      balance_after = balance;
      limit = limit;
      scope_usage_pct = (mul_ℤ (pos 100) balance, limit);
      reasoning = out.reasoning;
    }

    abbrev pub simulated : String → ℕ → Intent → Fields → Outcome → PredictedEffects → Simulation
    simulated i now intent fork_diff out effects = record {
      id = i;
      created_at = now;
      intent = intent;
      status = pending;
      fork_diff = fork_diff;
      rollback_preview = rollback_entries out.ledger_entry;
      predicted_effects = effects;
      decision_receipt_id = none;
      executed_entry = none;
      post_check = none;
      events = event_of now "simulated" ∷ [];
    }

    -- the forked stores that `simulate` builds
    abbrev pub fork : (ℕ → String) → World c → Books c
    unfolding fork_trust
    fork ids w = record { trust = fork_trust c ids w.books.trust; ledger = w.books.ledger }

    -- the record that `simulate` makes of the run on the fork
    abbrev pub simulation_from :
        String
        → Draws
        → Intent
        → World c
        → Result SimError Outcome
        → Books c
        → Result SimError Simulation × World c
    unfolding snapshot_parts projected_balance save_record
    simulation_from sim_id d intent w (err e) b = (err e, w)
    simulation_from sim_id d intent w (ok out) b =
        let balance = projected_balance b.ledger in
        let fork_diff =
          diff (snapshot_parts c w.books.trust w.books.ledger)
            (snapshot_parts c b.trust b.ledger) in
        let s = simulated sim_id d.now intent fork_diff out (predicted out balance w.limit) in
        (raise_if (eqb_ℤ w.limit (pos 0)) division_by_zero >> (save_record s >> pure s)) w

    unfoldable pub simulate : String → (ℕ → String) → Draws → Intent → Action Simulation
    unfolding run_purchase simulation_from
    simulate sim_id ids d intent w =
        let (r, b) =
          run_purchase c d intent.requester_key intent.amount intent.description
            (concat "sim:" sim_id) (fork ids w) in
        simulation_from sim_id d intent w r b

  abbrev pub rejected_record : Draws → Simulation → Simulation
  rejected_record d s = log_event d.now "rejected" (record s { status = rejected })

  abbrev pub reject_record : Draws → String → Simulation → Action Simulation
  unfolding save_record
  reject_record d i s =
      raise_if (not (is_pending s.status)) (not_pending i)
      >> (save_record (rejected_record d s) >> pure (rejected_record d s))

  unfoldable pub reject : Draws → String → Action Simulation
  unfolding required reject_record
  reject d i = required i >>= reject_record d i

  abbrev pub escalate_audit : Draws → String → List Violation → Action (Unit {0})
  unfolding audit
  escalate_audit d i [] = pure tt
  escalate_audit d i (v ∷ vs) = audit d (some i) "escalate" (violation_note v)

  -- the record once the pipeline ran and the live books were checked
  abbrev pub executed_record : Draws → Simulation → Outcome → List Violation → Simulation
  executed_record d s out vs =
      let noted = log_event d.now "executed" (record s {
        decision_receipt_id = some out.receipt_id;
        executed_entry = out.ledger_entry;
      }) in
      settle d.now vs (record noted { post_check = some (checked d.now vs) })

  abbrev pub finish_execution :
      Draws → String → Simulation → Outcome → List Violation → Action Simulation
  unfolding escalate_audit save_record
  finish_execution d i s out vs =
      escalate_audit d i vs
      >> (save_record (executed_record d s out vs) >> pure (executed_record d s out vs))

  abbrev pub check_execution : Draws → String → Simulation → Outcome → Action Simulation
  unfolding violations_now finish_execution
  check_execution d i s out = gets violations_now >>= finish_execution d i s out

  abbrev pub purchase_live : Draws → String → Simulation → Action Outcome
  unfolding run_purchase
  purchase_live d i s = on_books (
      run_purchase c d s.intent.requester_key s.intent.amount s.intent.description
        (concat "exec:" i))

  abbrev pub execute_record : Draws → String → Simulation → Action Simulation
  unfolding purchase_live check_execution
  execute_record d i s =
      raise_if (not (is_pending s.status)) (not_pending i)
      >> (purchase_live d i s >>= check_execution d i s)

  unfoldable pub execute : Draws → String → Action Simulation
  unfolding required execute_record
  execute d i = required i >>= execute_record d i

  -- the refund of `rollback`
  abbrev pub refund_entry : Draws → String → String → Option LedgerEntry → Action (Unit {0})
  unfolding place_refund
  refund_entry d i key none = pure tt
  refund_entry d i key (some e) =
      on_books (on_ledger c (place_refund d.entry_id d.ts e.id key (concat "rollback:" i)))
      >> pure tt

  -- a call that returns nothing
  abbrev pub no_value :
      Result TrustError (TrustService c) → Result TrustError (Unit {0} × TrustService c)
  no_value (ok t) = ok (tt, t)
  no_value (err e) = err e

  abbrev pub revoke_if : Bool → Draws → String → String → Action (Unit {0})
  unfolding revoke_credential
  revoke_if true d i credential_id = on_books (
      on_trust c (λ t.
        no_value
          (revoke_credential c d.now credential_id (concat "rollback of simulation " i) none t)))
  revoke_if false d i credential_id = pure tt

  -- the loop of `rollback` over the credentials of a profile
  unfoldable pub revoke_grants : Draws → String → List ProfileCredential → Action (Unit {0})
  unfolding revoke_if
  revoke_grants d i [] = pure tt
  revoke_grants d i (p ∷ ps) =
      revoke_if (is_valid_of "AuthorityGrant" p) d i p.id >> revoke_grants d i ps

  abbrev pub revoke_all_if : Bool → Draws → String → String → Action (Unit {0})
  unfolding revoke_grants trust_profile
  revoke_all_if true d i key =
      gets (λ w. trust_profile c d.now key w.books.trust) >>= λ p. revoke_grants d i p.credentials
  revoke_all_if false d i key = pure tt

  -- the loop of `rollback` over the agents
  unfoldable pub revoke_agents : Draws → String → String → List Agent → Action (Unit {0})
  unfolding revoke_all_if
  revoke_agents d i key [] = pure tt
  revoke_agents d i key (a ∷ more) =
      revoke_all_if (a.public_key == key) d i a.public_key >> revoke_agents d i key more

  abbrev pub rolled_back_record : Draws → Simulation → List Violation → Simulation
  rolled_back_record d s vs =
      log_event d.now "rolled_back"
        (record s { status = rolled_back; post_check = some (checked d.now vs) })

  abbrev pub finish_rollback : Draws → String → Simulation → List Violation → Action Simulation
  unfolding audit save_record
  finish_rollback d i s vs =
      audit d (some i) "rollback"
        (format (values_of (str "compensating refund appended for " ∷ str i ∷ [])))
      >> (save_record (rolled_back_record d s vs) >> pure (rolled_back_record d s vs))

  abbrev pub revoke_for : Draws → String → Simulation → List Agent → Action Simulation
  unfolding revoke_agents violations_now finish_rollback
  revoke_for d i s agents =
      revoke_agents d i s.intent.requester_key agents
      >> (gets violations_now >>= finish_rollback d i s)

  abbrev pub rollback_record : Draws → String → Simulation → Action Simulation
  unfolding refund_entry list_agents revoke_for
  rollback_record d i s =
      raise_if (not (is_executed s.status)) (nothing_executed i)
      >> (refund_entry d i s.intent.requester_key s.executed_entry
          >> (gets (λ w. list_agents w.books.trust.registry) >>= revoke_for d i s))

  unfoldable pub rollback : Draws → String → Action Simulation
  unfolding required rollback_record
  rollback d i = required i >>= rollback_record d i

  -- `place_hold`; the audit note keeps the whole key
  unfoldable pub hold_budget : Draws → String → ℤ → String → Action LedgerEntry
  unfolding audit place_hold
  hold_budget d agent_key amount reference = do
    e ← on_books (on_ledger c (place_hold d.entry_id d.ts agent_key amount reference))
    audit d none "hold"
        (format (values_of (str "concurrent hold " ∷ num amount ∷ str " by " ∷ str agent_key ∷ [])))
    pure e

  unfoldable pub reset : Action (Unit {0})
  reset =
      modify (λ w. record w { books = record { trust = w.books.trust; ledger = [] }; sims = [] })
