-- ===== src/Sim/Pipeline.antt =====
-- The purchase pipeline (core/simcore/application/pipeline.py), over the trust service and the ledger
-- that the caller hands in. What a call takes from the clock and from `uuid4` is one argument; the
-- readings of the clock within one call are one reading.
use builder_league.Prelude.Exec.{Exec, pure, ◌>>=◌}
use builder_league.Prelude.{Option, Result, String, err, none, ok, some, ℕ}
use builder_league.Prelude.Int.{ℤ}
use builder_league.Prelude.Values.{Value}
use builder_league.Trust.Crypto.{Crypto}
use builder_league.Trust.Credentials.{TrustError}
use builder_league.Trust.Policy.{PolicyDecision, allow}
use builder_league.Trust.Service.{TrustService, decide}
use builder_league.Sim.Ledger.{Ledger, LedgerEntry, LedgerError, Made, place_spend}

pub data SimError : Type 0 where
  unknown_simulation : String → SimError
  not_pending : String → SimError
  nothing_executed : String → SimError
  of_trust : TrustError → SimError
  of_ledger : LedgerError → SimError
  division_by_zero : SimError

pub record Draws : Type 0 where
  pub now : ℕ
  pub ts : String
  pub receipt_id : String
  pub entry_id : String
  pub audit_id : String

pub record Books (c : Crypto) : Type 0 where
  pub trust : TrustService c
  pub ledger : Ledger

pub record Outcome : Type 0 where
  pub receipt_id : String
  pub decision : PolicyDecision
  pub reasoning : Value
  pub ledger_entry : Option LedgerEntry

module _ (c : Crypto) where
  abbrev pub Run : Type 0 → Type 0
  Run = Exec (Books c) SimError

  -- a call of the trust service, which writes nothing when it raises
  abbrev pub on_trust :
      {A : Type 0} → (TrustService c → Result TrustError (A × TrustService c)) → Run A
  on_trust f b = elim (f b.trust) [
    | ok (a, t) ↦ (ok a, record b { trust = t })
    | err e ↦ (err (of_trust e), b)
  ]

  -- a call of the ledger, likewise
  abbrev pub on_ledger : (Ledger → Made) → Run LedgerEntry
  on_ledger f b = elim (f b.ledger) [
    | ok (e, l) ↦ (ok e, record b { ledger = l })
    | err e ↦ (err (of_ledger e), b)
  ]

  -- `if receipt.decision == ALLOW: entry = ledger.spend(...)`
  unfoldable pub spend_if_allowed :
      PolicyDecision → Draws → String → ℤ → String → Run (Option LedgerEntry)
  unfolding place_spend
  spend_if_allowed allow w key amount reference =
      on_ledger (place_spend w.entry_id w.ts key amount reference) >>= λ e. pure (some e)
  spend_if_allowed _ w key amount reference = pure none

  unfoldable pub run_purchase : Draws → String → ℤ → String → String → Run Outcome
  unfolding decide spend_if_allowed
  run_purchase w requester_key amount description reference = do
    receipt ←
        on_trust (decide c w.receipt_id w.now requester_key "purchase" (some amount) description)
    entry ← spend_if_allowed receipt.decision w requester_key amount reference
    pure (record {
      receipt_id = receipt.id;
      decision = receipt.decision;
      reasoning = receipt.reasoning;
      ledger_entry = entry;
    })
