-- ===== src/Adaptive/Damping/Stability.antt =====
-- What the damping rules promise, over sequences of observations.
use builder_league.Prelude.{
  ==_refl, Bool-cases, List, String, [], ap, arith, false, filter, inl, inr, leb, not, refl, some,
  true, ℕ, ◌++◌, ◌+◌, ◌<◌, ◌∷◌, ◌≡◌, ◌≢◌, ◌≤◌, nat_eq, string_eq,
}
use builder_league.Adaptive.Checks.{Contradiction}
use builder_league.Adaptive.Damping.{
  DampingDecision, DampingState, Verdict, allowed, damped_cooldown, damped_empty, damped_margins,
  escalate_budget, escalate_oscillation, evaluate_damping, is_absorbed, is_near, judge_surviving,
  observed_number, record_revision, remember, repeats,
}
use builder_league.Prelude.Dict.{Dict, lookup-insert}
use builder_league.Prelude.Dict

-- one observation: the contradictions, the shape of the plan that would answer them, and the position
abbrev pub Round : Type 0
Round = List Contradiction × String × ℕ

abbrev answer : DampingState → String → ℕ → DampingDecision → DampingState
answer s shape seq d = elim d.verdict [ allowed ↦ record_revision s d.surviving shape seq | _ ↦ s ]

-- a round records a revision when it is allowed, as `_observe` does
-- (core/adaptivecore/application/services.py) when nothing else stops the new plan
unfoldable pub observe : DampingState → Round → DampingState
unfolding evaluate_damping record_revision
observe s (cs, shape, seq) = answer s shape seq (evaluate_damping s cs shape seq)

unfoldable pub observe_all : DampingState → List Round → DampingState
unfolding observe
observe_all s [] = s
observe_all s (r ∷ rs) = observe_all (observe s r) rs

-- the revision budget is not overdrawn
abbrev pub IsWithin : DampingState → Type 0
IsWithin s = s.revision_count ≤ s.max_revisions

answer-IsWithin :
    (s : DampingState) (shape : String) (seq : ℕ) (d : DampingDecision)
    → IsWithin s
    → (d.verdict ≡ allowed → s.revision_count < s.max_revisions)
    → IsWithin (answer s shape seq d)
unfolding record_revision
answer-IsWithin s shape seq d w h = by_verdict d.verdict refl
  where
    by_verdict :
        (v : Verdict)
        → d.verdict ≡ v
        → IsWithin (elim v [ allowed ↦ record_revision s d.surviving shape seq | _ ↦ s ])
    by_verdict allowed q = omega (arith, h q)
    by_verdict damped_empty q = w
    by_verdict (damped_cooldown n) q = w
    by_verdict damped_margins q = w
    by_verdict (escalate_budget m n) q = w
    by_verdict escalate_oscillation q = w

judged : (l : List Contradiction) → (judge_surviving l).surviving ≡ l
judged [] = refl
judged (c ∷ cs) = refl

-- When contradictions are allowed to trigger a revision, the budget is not used up, the cooldown is
-- over, the shape is not that of two revisions ago, and those that survive are those that the
-- hysteresis does not absorb.
allowed_means :
    (s : DampingState) (cs : List Contradiction) (shape : String) (seq : ℕ)
    → (evaluate_damping s cs shape seq).verdict ≡ allowed
    → (s.revision_count < s.max_revisions)
      × (s.cooldown_until_seq < seq)
      × (repeats shape s.recent_plan_shapes ≡ false)
      × ((evaluate_damping s cs shape seq).surviving ≡ filter (λ x. not (is_absorbed s x)) cs)
unfolding evaluate_damping
allowed_means s [] shape seq h = cc
allowed_means s (c ∷ cs) shape seq h = elim (Bool-cases (repeats shape s.recent_plan_shapes)) [
  | inl r ↦ ground (arith, r, h)
  | inr r ↦ elim (Bool-cases (leb s.max_revisions s.revision_count)) [
    | inl m ↦ ground (arith, r, m, h)
    | inr m ↦ elim (Bool-cases (leb seq s.cooldown_until_seq)) [
      | inl q ↦ ground (arith, r, m, q, h)
      | inr q ↦ (
        ground (arith, m),
        ground (arith, q),
        r,
        rw (r, m, q) (judged (filter (λ x. not (is_absorbed s x)) (c ∷ cs))),
      )
    ]
  ]
]

observe-IsWithin : (s : DampingState) (r : Round) → IsWithin s → IsWithin (observe s r)
unfolding observe
observe-IsWithin s (cs, shape, seq) w =
    answer-IsWithin s shape seq (evaluate_damping s cs shape seq) w
      (λ h. (allowed_means s cs shape seq h).0)

-- From a state within its budget, however the world flaps, the revisions recorded never pass
-- `max_revisions`.
pub revisions_are_bounded :
    (s : DampingState) (rs : List Round) → IsWithin s → IsWithin (observe_all s rs)
unfolding observe_all
revisions_are_bounded s [] w = w
revisions_are_bounded s (r ∷ rs) w = revisions_are_bounded (observe s r) rs (observe-IsWithin s r w)

-- After a revision at a position, nothing is allowed up to `cooldown_span` positions later.
pub cooldown_holds :
    (s : DampingState) (old new : List Contradiction) (shape shape2 : String) (seq seq2 : ℕ)
    → seq2 ≤ seq + s.cooldown_span
    → (evaluate_damping (record_revision s old shape seq) new shape2 seq2).verdict ≢ allowed
unfolding record_revision
cooldown_holds s old new shape shape2 seq seq2 h q =
    omega (arith, (allowed_means (record_revision s old shape seq) new shape2 seq2 q).1, h)

repeats-append : (a b : String) (xs : List String) → repeats a (xs ++ (a ∷ b ∷ [])) ≡ true
unfolding repeats
repeats-append a b [] = ==_refl a
repeats-append a b (x ∷ []) = ==_refl a
repeats-append a b (x ∷ y ∷ []) = ==_refl a
repeats-append a b (x ∷ y ∷ z ∷ r) = repeats-append a b (y ∷ z ∷ r)

append_assoc : (xs : List String) (a b : String) → (xs ++ (a ∷ [])) ++ (b ∷ []) ≡ xs ++ (a ∷ b ∷ [])
append_assoc [] a b = refl
append_assoc (x ∷ xs) a b = ap (λ l. x ∷ l) (append_assoc xs a b)

-- Two revisions to the shapes A and B, and then a contradiction that asks for A again: whatever the
-- state was, the answer is to escalate, and all the contradictions are handed over.
pub flip_flop_escalates :
    (s : DampingState) (one two : List Contradiction) (c : Contradiction) (cs : List Contradiction)
    (a b : String) (i j k : ℕ)
    → evaluate_damping (record_revision (record_revision s one a i) two b j) (c ∷ cs) a k
      ≡ record { verdict = escalate_oscillation; surviving = c ∷ cs }
unfolding evaluate_damping record_revision
flip_flop_escalates s one two c cs a b i j k =
    rw (append_assoc s.recent_plan_shapes a b, repeats-append a b s.recent_plan_shapes) refl

near_self : (s : DampingState) (n : ℕ) → is_near s n n ≡ true
near_self s n = ground arith

remembered :
    (c : Contradiction) (n : ℕ) (m : Dict String ℕ)
    → observed_number c ≡ some n
    → Dict.lookup c.assumption_kind (remember (c ∷ []) m) ≡ some n
unfolding remember
remembered c n m h =
    ground
      (arith, h, lookup-insert c.assumption_kind c.assumption_kind n m, ==_refl c.assumption_kind)

absorbed :
    (s : DampingState) (c : Contradiction) (n : ℕ)
    → observed_number c ≡ some n
    → Dict.lookup c.assumption_kind s.last_trigger_values ≡ some n
    → is_absorbed s c ≡ true
unfolding is_absorbed
absorbed s c n h l = ground (arith, h, l, near_self s n)

-- A contradiction with a numeric reading, just recorded as the one trigger of a revision, is
-- absorbed when it is seen again.
pub same_reading_is_absorbed :
    (s : DampingState) (c : Contradiction) (n : ℕ) (shape : String) (seq : ℕ)
    → observed_number c ≡ some n
    → is_absorbed (record_revision s (c ∷ []) shape seq) c ≡ true
unfolding record_revision remember
same_reading_is_absorbed s c n shape seq h =
    absorbed (record_revision s (c ∷ []) shape seq) c n h (remembered c n s.last_trigger_values h)
