-- ===== src/Adaptive/Detection/Scope.antt =====
-- What the detection looks at, and which events it names.
use mathlib.Core.Path.{subst}
use builder_league.Prelude.{
  ==_refl, >>=-eq-ok, All, All-append, Bool, Bool-cases, List, Option, Result, [], any, arith,
  eq_iff, false, if◌then◌else◌, inl, inr, none, ok, ok-inj, refl, some, true, ◌&&◌, ◌==◌, ◌∷◌, ◌≡◌,
  nat_eq, string_eq,
}
use builder_league.Prelude.Values.{Fields}
use builder_league.Adaptive.Events.{WorldEvent}
use builder_league.Adaptive.Plans.{Assumption, PlanStep, better_alternative}
use builder_league.Adaptive.Checks.{Contradiction}
use builder_league.Adaptive.Detection.{
  check_all, check_assumption, check_steps, detect_contradictions, is_checked, is_open, relevant,
}
use builder_league.Adaptive.Worlds.{ReadError}

-- an open step may ask for nothing
none_open :
    (world : Fields) (events : List WorldEvent) (steps : List PlanStep)
    → any is_open steps ≡ false
    → check_steps false world events steps ≡ ok []
unfolding check_steps
none_open world events [] h = refl
none_open world events (s ∷ ss) h = elim (Bool-cases (s.status == "done")) [
  | inl d ↦ ground (arith, none_open world events ss, d)
  | inr d ↦ ground (arith, none_open world events ss, d)
]

-- A plan with no step ahead has no contradictions, whatever the world and the events.
pub finished_plan_is_quiet :
    (world : Fields) (events : List WorldEvent) (steps : List PlanStep)
    → any is_open steps ≡ false
    → detect_contradictions steps world events ≡ ok []
unfolding detect_contradictions
finished_plan_is_quiet world events steps h = rw h (none_open world events steps h)

-- No event is ever attributed to an assumption of the kind `better_alternative`.
pub better_alternative_is_untriggered :
    (e : WorldEvent) (a : Assumption) → a.kind ≡ better_alternative → relevant e a ≡ false
unfolding relevant
better_alternative_is_untriggered e a h =
    rw h (ground (arith, eq_iff "price_changed" e.kind, eq_iff "supplier_unavailable" e.kind))

-- every contradiction carries the name of a step that the detection looks at
abbrev IsFrom : Bool → List PlanStep → Contradiction → Type 0
IsFrom pending steps x = any (λ s. is_checked pending s && (s.id == x.step_id)) steps ≡ true

check_all-step_id :
    (s : PlanStep) (world : Fields) (events : List WorldEvent) (more : List Assumption)
    (cs : List Contradiction)
    → check_all s world events more ≡ ok cs
    → All (λ x. (s.id == x.step_id) ≡ true) cs
unfolding check_all
check_all-step_id s world events [] cs h = subst (All _) (ok-inj h) tt
check_all-step_id s world events (a ∷ more) cs h =
    let (c, _, h1) = >>=-eq-ok (check_assumption a world events) _ h in
    let (rest, hr, h2) = >>=-eq-ok (check_all s world events more) _ h1 in
    by_outcome c rest (check_all-step_id s world events more rest hr) h2
  where
    by_outcome :
        (c : Option Contradiction) (rest : List Contradiction)
        → All (λ (x : Contradiction). (s.id == x.step_id) ≡ true) rest
        → ◌≡◌ {A = Result ReadError (List Contradiction)}
            (ok (elim c [ none ↦ rest | some x ↦ record x { step_id = s.id } ∷ rest ]))
            (ok cs)
        → All (λ (x : Contradiction). (s.id == x.step_id) ≡ true) cs
    by_outcome none rest a q = subst (All _) (ok-inj q) a
    by_outcome (some x) rest a q = subst (All _) (ok-inj q) (==_refl s.id, a)

IsFrom-later :
    (pending : Bool) (s : PlanStep) (ss : List PlanStep) (cs : List Contradiction)
    → All (IsFrom pending ss) cs
    → All (IsFrom pending (s ∷ ss)) cs
IsFrom-later pending s ss [] h = tt
IsFrom-later pending s ss (c ∷ cs) h = (ground (arith, h.0), IsFrom-later pending s ss cs h.1)

IsFrom-here :
    (pending : Bool) (s : PlanStep) (ss : List PlanStep) (cs : List Contradiction)
    → is_checked pending s ≡ true
    → All (λ x. (s.id == x.step_id) ≡ true) cs
    → All (IsFrom pending (s ∷ ss)) cs
IsFrom-here pending s ss [] k h = tt
IsFrom-here pending s ss (c ∷ cs) k h = (rw (k, h.0) refl, IsFrom-here pending s ss cs k h.1)

check_steps-IsFrom :
    (pending : Bool) (world : Fields) (events : List WorldEvent) (steps : List PlanStep)
    (cs : List Contradiction)
    → check_steps pending world events steps ≡ ok cs
    → All (IsFrom pending steps) cs
unfolding check_steps
check_steps-IsFrom pending world events [] cs h = subst (All _) (ok-inj h) tt
check_steps-IsFrom pending world events (s ∷ ss) cs h =
    let (here, hh, h1) =
      >>=-eq-ok (if is_checked pending s then check_all s world events s.assumptions else ok []) _
        h in
    let (rest, hr, h2) = >>=-eq-ok (check_steps pending world events ss) _ h1 in
    subst (All _) (ok-inj h2) (
      All-append (IsFrom pending (s ∷ ss)) here rest (by_check (is_checked pending s) refl here hh)
        (IsFrom-later pending s ss rest (check_steps-IsFrom pending world events ss rest hr)))
  where
    by_check :
        (b : Bool)
        → is_checked pending s ≡ b
        → (here : List Contradiction)
        → (if b then check_all s world events s.assumptions else ok []) ≡ ok here
        → All (IsFrom pending (s ∷ ss)) here
    by_check true q here hh =
        IsFrom-here pending s ss here q (check_all-step_id s world events s.assumptions here hh)
    by_check false q here hh = subst (All _) (ok-inj hh) tt

-- When the detection returns, every contradiction belongs to a step that is ahead, or to a step that
-- is done while another is ahead.
pub detect_contradictions-IsFrom :
    (world : Fields) (events : List WorldEvent) (steps : List PlanStep) (cs : List Contradiction)
    → detect_contradictions steps world events ≡ ok cs
    → All (IsFrom (any is_open steps) steps) cs
unfolding detect_contradictions
detect_contradictions-IsFrom world events steps cs h =
    check_steps-IsFrom (any is_open steps) world events steps cs h
