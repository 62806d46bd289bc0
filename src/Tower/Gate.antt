-- ===== src/Tower/Gate.antt =====
-- The intervention gate (core/towercore/domain/gate.py): the control state of each agent and the
-- approval queue. The id `ap-n` of an approval is the number n. A method that raises has written
-- nothing, so a call is a result over the new gate.
pub mod Terminal
pub mod Invariant
pub mod Steps
use builder_league.Prelude.{
  Bool, List, Option, Result, String, [], any, false, filter, if◌then◌else◌, none, not, ok,
  or_raise, raise_if, some, suc, true, ℕ, ◌&&◌, ◌==◌, ◌∷◌, nat_eq, string_eq, ◌>>=◌, ◌>>◌,
}
use builder_league.Prelude.Dict
use builder_league.Prelude.Dict.{Dict}
use builder_league.Prelude.Int.{ℤ}
use builder_league.Prelude.Values.{Fields}
use builder_league.Tower.Errors.{
  Error, State, Status, active, agent_halted, agent_killed, approved, awaiting, denied, killed,
  not_pending, paused, pending, unknown_approval,
}

pub record Approval : Type 0 where
  pub id : ℕ
  pub agent_id : String
  pub action : String
  pub amount : Option ℤ
  pub reason : String
  pub payload : Fields
  pub status : Status
  pub operator : Option String

pub record Gate : Type 0 where
  pub states : Dict String State
  pub approvals : Dict ℕ Approval
  pub next_id : ℕ

abbrev pub initial : Gate
initial = record { states = []; approvals = []; next_id = 1 }

abbrev pub is_active : State → Bool
is_active active = true
is_active _ = false

abbrev pub is_killed : State → Bool
is_killed killed = true
is_killed _ = false

abbrev pub is_pending : Status → Bool
is_pending pending = true
is_pending _ = false

unfoldable pub state : Gate → String → State
unfolding Dict.lookup
state g agent_id = Dict.get_or agent_id active g.states

abbrev pub set_state : String → State → Gate → Gate
set_state agent_id s g = record g { states = Dict.insert agent_id s g.states }

-- The enforcement point.
unfoldable pub check : String → Gate → Result Error (Unit {0})
check agent_id g =
    raise_if (not (is_active (state g agent_id))) (agent_halted agent_id (state g agent_id))

abbrev pub require_not_killed : String → Gate → Result Error (Unit {0})
require_not_killed agent_id g = raise_if (is_killed (state g agent_id)) (agent_killed agent_id)

unfoldable pub pause : String → Gate → Result Error (State × Gate)
pause agent_id g = do require_not_killed agent_id g; ok (paused, set_state agent_id paused g)

unfoldable pub force_pause : String → Gate → Result Error (State × Gate)
force_pause agent_id g = do require_not_killed agent_id g; ok (paused, set_state agent_id paused g)

-- whether the approval waits for a decision about this agent
abbrev pub waits_for : String → Approval → Bool
waits_for agent_id a = (a.agent_id == agent_id) && is_pending a.status

unfoldable pub has_pending : String → Gate → Bool
has_pending agent_id g = any (waits_for agent_id) (Dict.values g.approvals)

unfoldable pub resume : String → Gate → Result Error (State × Gate)
unfolding has_pending
resume agent_id g = do
  require_not_killed agent_id g
  let s = if has_pending agent_id g then awaiting else active
  ok (s, set_state agent_id s g)

abbrev pub resolve : Status → String → Approval → Approval
resolve status operator a = record a { status = status; operator = some operator }

-- the loop of `kill` over the approvals
unfoldable pub deny_all : String → Dict ℕ Approval → Dict ℕ Approval
deny_all agent_id [] = []
deny_all agent_id ((i, a) ∷ r) =
    (i, (if waits_for agent_id a then resolve denied "system:kill" a else a)) ∷ deny_all agent_id r

unfoldable pub kill : String → Gate → State × Gate
unfolding deny_all
kill agent_id g = (
  killed,
  record g {
    states = Dict.insert agent_id killed g.states;
    approvals = deny_all agent_id g.approvals;
  },
)

-- `Approval(...)` in `request_approval`
abbrev pub new_approval : ℕ → String → String → Option ℤ → String → Fields → Approval
new_approval i agent_id action amount reason payload = record {
  id = i;
  agent_id = agent_id;
  action = action;
  amount = amount;
  reason = reason;
  payload = payload;
  status = pending;
  operator = none;
}

-- the writes of `request_approval`
abbrev pub enqueue : Approval → Gate → Gate
enqueue a g = record g {
  states = Dict.insert a.agent_id awaiting g.states;
  approvals = Dict.insert a.id a g.approvals;
  next_id = suc g.next_id;
}

unfoldable pub request_approval :
    String → String → Option ℤ → String → Fields → Gate → Result Error (Approval × Gate)
request_approval agent_id action amount reason payload g = do
  require_not_killed agent_id g
  let a = new_approval g.next_id agent_id action amount reason payload
  ok (a, enqueue a g)

unfoldable pub get_approval : ℕ → Gate → Option Approval
unfolding Dict.lookup
get_approval i g = Dict.lookup i g.approvals

unfoldable pub require_pending : ℕ → Gate → Result Error Approval
require_pending i g = do
  a ← or_raise (get_approval i g) (unknown_approval i)
  raise_if (not (is_pending a.status)) (not_pending i a.status)
  ok a

-- the writes that `approve` and `deny` share
abbrev pub settle : Status → String → Approval → Gate → Approval × Gate
settle status operator a g =
    let resolved = resolve status operator a in
    (
      resolved,
      record g {
        states = Dict.insert a.agent_id active g.states;
        approvals = Dict.insert a.id resolved g.approvals;
      },
    )

unfoldable pub approve : ℕ → String → Gate → Result Error (Approval × Gate)
unfolding require_pending
approve i operator g = do a ← require_pending i g; ok (settle approved operator a g)

unfoldable pub deny : ℕ → String → Gate → Result Error (Approval × Gate)
unfolding require_pending
deny i operator g = do a ← require_pending i g; ok (settle denied operator a g)

unfoldable pub pending_approvals : Gate → List Approval
pending_approvals g = filter (λ a. is_pending a.status) (Dict.values g.approvals)

-- `reset`; the counter of the ids runs on
unfoldable pub reset : Gate → Gate
reset g = record g { states = []; approvals = [] }
