-- ===== src/Adaptive/Detection.antt =====
-- Re-verification of the assumptions of a plan (core/adaptivecore/domain/detection.py). The branches of
-- `check_assumption` are in Adaptive/Checks.
pub mod Scope
use builder_league.Prelude.{
  Bool, List, Result, String, [], any, contains, false, filter, if◌then◌else◌, map, none, ok, some,
  ◌&&◌, ◌++◌, ◌==◌, ◌||◌, ◌∷◌, nat_eq, string_eq, ◌>>=◌, ◌>>◌,
}
use builder_league.Prelude.Values.{Fields, get, get_or, same}
use builder_league.Adaptive.Events.{WorldEvent}
use builder_league.Adaptive.Plans.{
  Assumption, PlanStep, authority_valid, better_alternative, budget_headroom_at_least,
  delivery_within_days, price_at_most, supplier_available,
}
use builder_league.Adaptive.Worlds.{ReadError}
use builder_league.Adaptive.Checks.{
  Checked, Contradiction, check_alternative, check_authority, check_available, check_delivery,
  check_headroom, check_price,
}

-- `p.get("supplier") == supplier`
abbrev pub same_at : String → Fields → Fields → Bool
same_at k p q = same (get k p) (get k q)

-- `_relevant`
unfoldable pub relevant : WorldEvent → Assumption → Bool
unfolding same get_or
relevant e a =
    if e.kind == "price_changed"
    then (a.kind == price_at_most) && same_at "supplier" e.payload a.params
    else if e.kind == "supplier_unavailable"
    then contains a.kind (supplier_available ∷ price_at_most ∷ delivery_within_days ∷ [])
      && same_at "supplier" e.payload a.params
    else if e.kind == "delivery_delayed"
    then (a.kind == delivery_within_days) && same_at "supplier" e.payload a.params
    else if contains e.kind ("hold_placed" ∷ "hold_released" ∷ [])
    then a.kind == budget_headroom_at_least
    else if e.kind == "authority_revoked"
    then (a.kind == authority_valid) && same_at "action" e.payload a.params
    else if a.kind == better_alternative
    then contains e.kind ("price_changed" ∷ "supplier_unavailable" ∷ [])
    else false

-- `[e.id for e in events if _relevant(e, a)]`
unfoldable pub triggers_of : Assumption → List WorldEvent → List String
unfolding relevant
triggers_of a events = map (λ e. e.id) (filter (λ e. relevant e a) events)

-- `check_assumption`
unfoldable pub check_assumption : Assumption → Fields → List WorldEvent → Checked
unfolding check_price check_available check_headroom check_authority check_delivery
    check_alternative triggers_of
check_assumption a world events =
    let triggers = triggers_of a events in
    if a.kind == price_at_most
    then check_price a triggers world
    else if a.kind == supplier_available
    then check_available a triggers world
    else if a.kind == budget_headroom_at_least
    then check_headroom a triggers world
    else if a.kind == authority_valid
    then check_authority a triggers world
    else if a.kind == delivery_within_days
    then check_delivery a triggers world
    else if a.kind == better_alternative
    then check_alternative a triggers world
    else ok none

abbrev pub is_open : PlanStep → Bool
is_open s = contains s.status ("pending" ∷ "running" ∷ [])

-- whether the loop looks at a step, given that a step is open; a step with no assumptions adds nothing
abbrev pub is_checked : Bool → PlanStep → Bool
is_checked pending s = is_open s || ((s.status == "done") && pending)

unfoldable pub check_all :
    PlanStep → Fields → List WorldEvent → List Assumption → Result ReadError (List Contradiction)
unfolding check_assumption
check_all s world events [] = ok []
check_all s world events (a ∷ more) = do
  c ← check_assumption a world events
  rest ← check_all s world events more
  ok (elim c [ none ↦ rest | some x ↦ record x { step_id = s.id } ∷ rest ])

unfoldable pub check_steps :
    Bool → Fields → List WorldEvent → List PlanStep → Result ReadError (List Contradiction)
unfolding check_all
check_steps pending world events [] = ok []
check_steps pending world events (s ∷ ss) = do
  here ← if is_checked pending s then check_all s world events s.assumptions else ok []
  rest ← check_steps pending world events ss
  ok (here ++ rest)

-- `detect_contradictions`
unfoldable pub detect_contradictions :
    List PlanStep → Fields → List WorldEvent → Result ReadError (List Contradiction)
unfolding check_steps
detect_contradictions steps world events = check_steps (any is_open steps) world events steps
