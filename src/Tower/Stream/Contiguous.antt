-- ===== src/Tower/Stream/Contiguous.antt =====
-- No event of an agent is ever lost: its numbers run 1, 2, 3 and so on.
use mathlib.Core.List.{append-nil}
use builder_league.Prelude.{
  ==_cases, List, String, [], ap, arith, err, filter-append, if◌then◌else◌, inl, inr, length,
  length-append, ok, refl, suc, ℕ, ◌++◌, ◌+◌, ◌==◌, ◌∙◌, ◌∷◌, ◌≡◌, ◌≢◌, nat_eq, string_eq,
}
use builder_league.Prelude.Dict
use builder_league.Prelude.Dict.{Dict, lookup-insert}
use builder_league.Tower.Errors.{seq_gap}
use builder_league.Tower.Events.{AgentEvent}
use builder_league.Tower.Stream.{
  EventStream, append, empty, for_agent, next_seq, record_event, reset,
}

-- The events are numbered n, n + 1, n + 2 and so on.
abbrev pub IsNumbered : ℕ → List AgentEvent → Type 0
IsNumbered n [] = Unit
IsNumbered n (e ∷ es) = (e.seq ≡ n) × IsNumbered (suc n) es

-- The log of each agent is numbered from 1, and the counter stands behind its last event.
pub record IsContiguous (s : EventStream) : Type 0 where
  pub numbered : (a : String) → IsNumbered 1 (for_agent s a)
  pub counted : (a : String) → next_seq s a ≡ suc (length (for_agent s a))

pub empty-IsContiguous : IsContiguous empty
unfolding for_agent next_seq Dict.lookup
empty-IsContiguous = record { numbered = λ a. tt; counted = λ a. refl }

pub reset-IsContiguous : (s : EventStream) → IsContiguous (reset s)
unfolding for_agent next_seq Dict.lookup reset
reset-IsContiguous s = record { numbered = λ a. tt; counted = λ a. refl }

IsNumbered-append :
    (n : ℕ) (es : List AgentEvent) (e : AgentEvent)
    → IsNumbered n es
    → e.seq ≡ n + length es
    → IsNumbered n (es ++ e ∷ [])
IsNumbered-append n [] e h p = (omega arith, tt)
IsNumbered-append n (x ∷ es) e h p = (h.0, IsNumbered-append (suc n) es e h.1 (omega arith))

module _ (e : AgentEvent) (s : EventStream) where
  -- An event with the expected number is recorded.
  pub append-ok : e.seq ≡ next_seq s e.agent_id → append e s ≡ ok (record_event e s)
  unfolding append
  append-ok h = ground arith

  -- An event with another number is refused.
  pub append-err :
      e.seq ≢ next_seq s e.agent_id
      → append e s ≡ err (seq_gap e.agent_id (next_seq s e.agent_id) e.seq)
  unfolding append
  append-err h = ground arith

  pub for_agent-record_event :
      (a : String)
      → for_agent (record_event e s) a ≡ for_agent s a ++ (if e.agent_id == a then e ∷ [] else [])
  unfolding for_agent record_event
  for_agent-record_event a = filter-append (λ x. x.agent_id == a) s.events (e ∷ [])

  pub next_seq-record_event :
      (a : String)
      → next_seq (record_event e s) a
        ≡ (if e.agent_id == a then next_seq s e.agent_id + 1 else next_seq s a)
  unfolding next_seq record_event
  next_seq-record_event a =
      ground (arith, lookup-insert e.agent_id a (next_seq s e.agent_id + 1) s.next_seqs)

  pub record_event-IsContiguous :
      e.seq ≡ next_seq s e.agent_id → IsContiguous s → IsContiguous (record_event e s)
  record_event-IsContiguous h c = record {
    numbered = λ a. rw for_agent-record_event (numbered_at a);
    counted = λ a. rw (for_agent-record_event, next_seq-record_event) (counted_at a);
  }
    where
      numbered_at :
          (a : String) → IsNumbered 1 (for_agent s a ++ (if e.agent_id == a then e ∷ [] else []))
      numbered_at a = elim (==_cases e.agent_id a) [
        | inl (p, q) ↦ rw q (
            IsNumbered-append 1 (for_agent s a) e (c.numbered a)
              (omega (arith, h ∙ ap (next_seq s) p, c.counted a)))
        | inr (p, q) ↦ rw q (rw append-nil (c.numbered a))
      ]

      counted_at :
          (a : String)
          → (if e.agent_id == a then next_seq s e.agent_id + 1 else next_seq s a)
            ≡ suc (length (for_agent s a ++ (if e.agent_id == a then e ∷ [] else [])))
      counted_at a = elim (==_cases e.agent_id a) [
        | inl (p, q) ↦
            rw q (
              omega (arith, ap (next_seq s) p, c.counted a, length-append (for_agent s a) (e ∷ [])))
        | inr (p, q) ↦ rw q (rw append-nil (c.counted a))
      ]

-- When an event is appended to a contiguous log and accepted, the log stays contiguous.
pub append-IsContiguous :
    (e : AgentEvent) (s : EventStream) {t : EventStream}
    → IsContiguous s
    → append e s ≡ ok t
    → IsContiguous t
append-IsContiguous e s c h = elim (==_cases e.seq (next_seq s e.agent_id)) [
  | inl (p, _) ↦ ground (arith, append-ok e s p, record_event-IsContiguous e s p c)
  | inr (p, _) ↦ cc (append-err e s p)
]
