-- ===== src/Adaptive/Events.antt =====
-- The world event stream (core/adaptivecore/domain/events.py). The identifier, which the code draws
-- from `uuid4`, is an argument.
use builder_league.Prelude.{
  All, Bool-cases, List, Option, String, [], ap, arith, contains, filter, if◌then◌else◌, inl, inr,
  ltb, max, none, refl, some, sym, ℕ, ◌<◌, ◌∙◌, ◌∷◌, ◌≡◌, ◌≤◌, nat_eq, string_eq,
}
use builder_league.Prelude.Values.{Fields, dict, end, field, int, list, str, texts_of}

abbrev event_kinds : List String
event_kinds =
    "price_changed" ∷ "supplier_unavailable" ∷ "hold_placed" ∷ "hold_released" ∷ "authority_revoked"
    ∷ "delivery_delayed" ∷ []

pub record WorldEvent : Type 0 where
  pub id : String
  pub ts : String
  pub seq : ℕ
  pub kind : String
  pub payload : Fields
  pub applied_effects : List String

-- `WorldEvent.as_dict`
unfoldable pub as_dict : WorldEvent → Fields
as_dict e = field "id" (str e.id) (
    field "ts" (str e.ts) (
      field "seq" (int e.seq) (
        field "kind" (str e.kind) (
          field "payload" (dict e.payload)
            (field "applied_effects" (list (texts_of e.applied_effects)) end)))))

-- `make_event`, with the check of `WorldEvent.__post_init__`
unfoldable pub make_event : String → ℕ → String → String → Fields → List String → Option WorldEvent
make_event id seq ts kind payload applied_effects =
    if contains kind event_kinds
    then some (record {
      id = id;
      ts = ts;
      seq = seq;
      kind = kind;
      payload = payload;
      applied_effects = applied_effects;
    })
    else none

unfoldable pub new_events : List WorldEvent → ℕ → List WorldEvent
new_events events cursor = filter (λ e. ltb cursor e.seq) events

-- `max(e.seq for e in seen)`, from a first maximum on
abbrev max_seq : ℕ → List WorldEvent → ℕ
max_seq m [] = m
max_seq m (e ∷ es) = max_seq (max m e.seq) es

unfoldable pub advance_cursor : List WorldEvent → ℕ → ℕ
unfolding new_events
advance_cursor events cursor = elim (new_events events cursor) [
  | [] ↦ cursor
  | e ∷ es ↦ max_seq e.seq es
]

max_seq-ge : (m : ℕ) (es : List WorldEvent) → m ≤ max_seq m es
max_seq-ge m [] = omega arith
max_seq-ge m (e ∷ es) = omega (arith, max_seq-ge (max m e.seq) es)

-- nothing of a part of the log is beyond its maximum
none_beyond :
    (c m : ℕ) (es : List WorldEvent) → max_seq m es ≤ c → filter (λ e. ltb c e.seq) es ≡ []
none_beyond c m [] h = refl
none_beyond c m (e ∷ es) h =
    let rest = none_beyond c (max m e.seq) es h in
    ground (arith, rest, max_seq-ge (max m e.seq) es, h)

-- what is new beyond a later position was new beyond an earlier one
later-new :
    (c d : ℕ) (es : List WorldEvent)
    → c ≤ d
    → filter (λ e. ltb d e.seq) (filter (λ e. ltb c e.seq) es) ≡ filter (λ e. ltb d e.seq) es
later-new c d [] h = refl
later-new c d (e ∷ es) h = ground (arith, later-new c d es h)

above : (c : ℕ) (es : List WorldEvent) → All (λ e. c < e.seq) (filter (λ e. ltb c e.seq) es)
above c [] = tt
above c (e ∷ es) = elim (Bool-cases (ltb c e.seq)) [
  | inl b ↦ rw b (ground (arith, b), above c es)
  | inr b ↦ rw b (above c es)
]

-- Moving the cursor never takes it back, and leaves no event of the log beyond it.
pub advance_cursor-observes :
    (events : List WorldEvent) (cursor : ℕ)
    → (cursor ≤ advance_cursor events cursor)
      × (new_events events (advance_cursor events cursor) ≡ [])
unfolding advance_cursor new_events
advance_cursor-observes events cursor =
    by_new (filter (λ e. ltb cursor e.seq) events) refl (above cursor events)
  where
    target : List WorldEvent → ℕ
    target seen = elim seen [ [] ↦ cursor | e ∷ es ↦ max_seq e.seq es ]

    by_new :
        (seen : List WorldEvent)
        → filter (λ e. ltb cursor e.seq) events ≡ seen
        → All (λ e. cursor < e.seq) seen
        → (cursor ≤ target seen) × (filter (λ e. ltb (target seen) e.seq) events ≡ [])
    by_new [] q a = (omega arith, q)
    by_new (e ∷ es) q a =
        let d = max_seq e.seq es in
        (
          omega (arith, max_seq-ge e.seq es, a.0),
          sym (later-new cursor d events (omega (arith, max_seq-ge e.seq es, a.0)))
              ∙ (ap (filter (λ x. ltb d x.seq)) q
                  ∙ ground (arith, none_beyond d e.seq es (omega arith), max_seq-ge e.seq es)),
        )
