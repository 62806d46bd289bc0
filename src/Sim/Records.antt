-- ===== src/Sim/Records.antt =====
-- The simulation records and their store in memory (core/simcore/adapters/memory.py), without its lock.
-- A record, a dict with fixed keys, is replaced in the store where the code changes it in place. The
-- share of the limit that is used is the exact fraction that the code rounds.
use builder_league.Prelude.{
  Bool, List, Option, String, [], false, reverse, slice_last, true, ℕ, ◌++◌, ◌∷◌, nat_eq, string_eq,
}
use builder_league.Prelude.Int.{ℤ}
use builder_league.Prelude.Dict.{Dict}
use builder_league.Prelude.Values.{Fields, Value, null}
use builder_league.Trust.Policy.{PolicyDecision}
use builder_league.Sim.Ledger.{LedgerEntry, Violation}
use builder_league.Prelude.Dict

pub data Status : Type 0 where
  pending rejected executed escalated rolled_back : Status

abbrev pub is_pending : Status → Bool
is_pending pending = true
is_pending _ = false

-- `status in ("executed", "escalated")`
abbrev pub is_executed : Status → Bool
is_executed executed = true
is_executed escalated = true
is_executed _ = false

pub record Event : Type 0 where
  pub ts : ℕ
  pub event : String
  pub detail : Value

pub record Intent : Type 0 where
  pub requester_key : String
  pub amount : ℤ
  pub description : String

-- an entry of the rollback preview
pub data RollbackEntry : Type 0 where
  refund_of : ℤ → RollbackEntry
  revoke_authority : RollbackEntry

pub record PredictedEffects : Type 0 where
  pub decision : PolicyDecision
  pub balance_after : ℤ
  pub limit : ℤ
  pub scope_usage_pct : ℤ × ℤ
  pub reasoning : Value

pub record PostCheck : Type 0 where
  pub ok : Bool
  pub violations : List Violation
  pub checked_at : ℕ

pub record Simulation : Type 0 where
  pub id : String
  pub created_at : ℕ
  pub intent : Intent
  pub status : Status
  pub fork_diff : Fields
  pub rollback_preview : List RollbackEntry
  pub predicted_effects : PredictedEffects
  pub decision_receipt_id : Option String
  pub executed_entry : Option LedgerEntry
  pub post_check : Option PostCheck
  pub events : List Event

-- `InMemorySimulationStore`; the order of the keys is the insertion order of the dict
abbrev pub SimulationStore : Type 0
SimulationStore = Dict String Simulation

unfoldable pub save : Simulation → SimulationStore → SimulationStore
unfolding Dict.insert
save s m = Dict.insert s.id s m

unfoldable pub get : String → SimulationStore → Option Simulation
unfolding Dict.lookup
get i m = Dict.lookup i m

unfoldable pub list_recent : ℕ → SimulationStore → List Simulation
list_recent limit m = reverse (slice_last limit (Dict.values m))

abbrev pub event_of : ℕ → String → Event
event_of now name = record { ts = now; event = name; detail = null }

abbrev pub log_event : ℕ → String → Simulation → Simulation
log_event now name s = record s { events = s.events ++ (event_of now name ∷ []) }
