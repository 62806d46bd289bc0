-- ===== src/Tower/Stream.antt =====
-- The append-only event stream (core/towercore/domain/stream.py). A subscriber is a name for its
-- callback. A callback's call is recorded in `calls` and its outcome is dropped, as the `try` in
-- `append` drops it; a callback that calls back into the stream is not modelled.
pub mod Contiguous
use builder_league.Prelude.{
  ℕ, ◌+◌, String, not, List, [], ◌∷◌, ◌++◌, map, ◌==◌, string_eq, eqb, ltb, last_n, filter,
  contains, Result, ok, raise_if, ◌>>◌, if◌then◌else◌,
}
use builder_league.Prelude.Dict
use builder_league.Prelude.Dict.{Dict}
use builder_league.Prelude.Values.{Fields}
use builder_league.Tower.Errors.{Error, seq_gap}
use builder_league.Tower.Events.{AgentEvent, as_dict}

pub record EventStream : Type 0 where
  pub events : List AgentEvent
  pub next_seqs : Dict String ℕ
  pub subscribers : List String
  pub calls : List (String × AgentEvent)

abbrev pub empty : EventStream
empty = record { events = []; next_seqs = []; subscribers = []; calls = [] }

-- `next_seq`, and `expected` in `append`
unfoldable pub next_seq : EventStream → String → ℕ
next_seq s agent_id = Dict.get_or agent_id 1 s.next_seqs

-- the loop over `list(self._subscribers)`
abbrev notify : AgentEvent → List String → List (String × AgentEvent)
notify e subs = map (λ sub. (sub, e)) subs

-- the writes of `append`, behind its check
unfoldable pub record_event : AgentEvent → EventStream → EventStream
unfolding next_seq
record_event e s = record s {
  events = s.events ++ e ∷ [];
  next_seqs = Dict.insert e.agent_id (next_seq s e.agent_id + 1) s.next_seqs;
  calls = s.calls ++ notify e s.subscribers;
}

unfoldable pub append : AgentEvent → EventStream → Result Error EventStream
unfolding next_seq record_event
append e s = do
  let expected = next_seq s e.agent_id
  raise_if (not (eqb e.seq expected)) (seq_gap e.agent_id expected e.seq)
  ok (record_event e s)

unfoldable pub reset : EventStream → EventStream
reset s = record s { events = []; next_seqs = [] }

-- `for_agent`
unfoldable pub for_agent : EventStream → String → List AgentEvent
for_agent s agent_id = filter (λ e. e.agent_id == agent_id) s.events

unfoldable pub tail : EventStream → String → ℕ → List AgentEvent
unfolding for_agent
tail s agent_id n = if ltb 0 n then last_n n (for_agent s agent_id) else []

unfoldable pub export : EventStream → List Fields
unfolding as_dict
export s = map as_dict s.events

unfoldable pub subscribe : String → EventStream → EventStream
subscribe callback s = record s { subscribers = s.subscribers ++ callback ∷ [] }

-- `list.remove`: the first occurrence goes
remove_first : String → List String → List String
remove_first a [] = []
remove_first a (x ∷ xs) = let rest = remove_first a xs in if x == a then xs else x ∷ rest

-- the closure that `subscribe` returns
unfoldable pub unsubscribe : String → EventStream → EventStream
unfolding remove_first
unsubscribe callback s =
    if contains callback s.subscribers
    then record s { subscribers = remove_first callback s.subscribers }
    else s
