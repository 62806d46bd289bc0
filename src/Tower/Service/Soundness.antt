-- ===== src/Tower/Service/Soundness.antt =====
-- No call of the service breaks the numbering of the log or the invariant of the gate.
use builder_league.Prelude.Exec.{Keeps}
use builder_league.Tower.Errors.{Error}
use builder_league.Prelude.{
  Result, Result-cases, String, arith, false, inl, inr, ok, refl, suc, true, ℕ, ◌==◌, ◌∙◌, ◌≡◌,
  nat_eq, string_eq,
}
use builder_league.Prelude.Values.{Fields}
use builder_league.Tower.Events.{AgentEvent, is_kind, make_event, make_event-ok}
use builder_league.Tower.Stream.{append, next_seq, record_event}
use builder_league.Tower.Stream.Contiguous.{
  IsContiguous, append-IsContiguous, append-ok, empty-IsContiguous,
}
use builder_league.Tower.Gate.Invariant.{IsValid, initial-IsValid}
use builder_league.Tower.Service.Frame.{emit-Keeps}
use builder_league.Tower.Service.{Tower, emit, post, start}

pub record IsSound (t : Tower) : Type 0 where
  pub log : IsContiguous t.stream
  pub gate : IsValid t.gate

module _ (now : ℕ → String) (agent_id : String) where
  -- the event that `post` builds
  abbrev pub next_event : String → Fields → Tower → AgentEvent
  next_event kind payload t = record {
    agent_id = agent_id;
    run_id = "run-1";
    seq = next_seq t.stream agent_id;
    ts = now t.readings;
    kind = kind;
    payload = payload;
  }

  abbrev pub posted : String → Fields → Tower → Tower
  posted kind payload t = record t {
    readings = suc t.readings;
    stream = record_event (next_event kind payload t) t.stream;
  }

  -- With a name for the agent and a known kind the event is logged.
  pub post-ok :
      (kind : String) (payload : Fields) (t : Tower)
      → IsContiguous t.stream
      → (agent_id == "") ≡ false
      → is_kind kind ≡ true
      → post now agent_id kind payload t ≡ (ok (next_event kind payload t), posted kind payload t)
  unfolding post
  post-ok kind payload t c named known =
      let e = next_event kind payload t in
      rw
        (
          make_event-ok agent_id "run-1" e.seq e.ts kind payload named refl known
              (omega (arith, c.counted agent_id)),
          post,
        )
        (rw (append-ok e t.stream refl, post))

module _ (now : ℕ → String) where
  abbrev event_of : String → String → Fields → Tower → Result Error AgentEvent
  event_of agent_id kind payload t =
      make_event agent_id "run-1" (next_seq t.stream agent_id) (now t.readings) kind payload

  -- Whatever the event, the log stays contiguous, and nothing else but the clock has moved.
  post-IsContiguous :
      (agent_id kind : String) (payload : Fields) (t : Tower)
      → IsContiguous t.stream
      → IsContiguous (post now agent_id kind payload t).1.stream
  unfolding post
  post-IsContiguous agent_id kind payload t c =
      elim (Result-cases (event_of agent_id kind payload t)) [
        | inr (x, e) ↦ rw (e, post) c
        | inl (ev, e) ↦ elim (Result-cases (append ev t.stream)) [
          | inr (x, f) ↦ rw (e, post) (rw (f, post) c)
          | inl (s, f) ↦ rw (e, post) (rw (f, post) (append-IsContiguous ev t.stream c f))
        ]
      ]

  pub gate-post :
      (agent_id kind : String) (payload : Fields) (t : Tower)
      → (post now agent_id kind payload t).1.gate ≡ t.gate
  unfolding post
  gate-post agent_id kind payload t = elim (Result-cases (event_of agent_id kind payload t)) [
    | inr (x, e) ↦ rw (e, post)
    | inl (ev, e) ↦ elim (Result-cases (append ev t.stream)) [
      | inr (x, f) ↦ rw (e, post) (rw (f, post))
      | inl (s, f) ↦ rw (e, post) (rw (f, post))
    ]
  ]

module _ (now : ℕ → String) (agent_id kind : String) (payload : Fields) where
  -- `emit` keeps the log contiguous.
  pub log-emit : Keeps (λ t. IsContiguous t.stream) (emit now agent_id kind payload)
  log-emit =
      emit-Keeps now {P = λ t. IsContiguous t.stream}
        (λ a k p. record { at = post-IsContiguous now a k p }) (λ t m v. v) agent_id kind payload

  -- `emit` leaves the gate alone.
  pub gate-emit : (t : Tower) → (emit now agent_id kind payload t).1.gate ≡ t.gate
  gate-emit t =
      (emit-Keeps now {P = λ u. u.gate ≡ t.gate}
          (λ a k p. record { at = λ u e. gate-post now a k p u ∙ e }) (λ u m e. e) agent_id kind
          payload).at
        t refl

pub start-IsSound : IsSound start
start-IsSound = record { log = empty-IsContiguous; gate = initial-IsValid }
