-- ===== src/Tower/Errors.antt =====
-- The exceptions that the control plane raises: `ValueError` by what it complains of, and
-- `AgentHalted` of core/towercore/domain/gate.py.
use builder_league.Prelude.{ℕ, String}

-- The states of the control state machine (gate.py, ACTIVE to KILLED).
pub data State : Type 0 where
  active paused awaiting killed : State

-- The status of an approval.
pub data Status : Type 0 where
  pending approved denied : Status

pub data Error : Type 0 where
  missing_ids : Error
  unknown_kind : String → Error
  bad_seq : ℕ → Error
  seq_gap : String → ℕ → ℕ → Error
  agent_halted : String → State → Error
  agent_killed : String → Error
  unknown_approval : ℕ → Error
  not_pending : ℕ → Status → Error
  bad_number : Error
  bad_text : Error
  unknown_agent : String → Error
  not_seeded : Error
