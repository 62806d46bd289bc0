-- ===== src/Adaptive/Checks.antt =====
-- The six kinds of assumption, checked against a world (`check_assumption` of
-- core/adaptivecore/domain/detection.py, a function for each branch). Numbers are exact multiples of
-- one millionth, and a severity is kept as the quotient that it is.
use builder_league.Prelude.{
  Bool, List, Option, Result, String, [], err, false, if◌then◌else◌, none, ok, some, ℕ, ◌&&◌, ◌>>=◌,
  ◌∷◌,
}
use builder_league.Prelude.Values.{
  Fields, Value, end, field, flag, get, get_or, null, num, same, str, truthy,
}
use builder_league.Prelude.Int.{eqb_ℤ, leb_ℤ, ltb_ℤ, mul_ℤ, pos, ℤ, ◌-ℤ◌}
use builder_league.Adaptive.Plans.{Assumption, spelt}
use builder_league.Adaptive.Worlds.{
  Best, ReadError, available, bad_type, best_supplier, item, number, number_at, number_or, supplier,
  suppliers_of, zero_division,
}

-- a severity: a fixed one, in millionths, or a number of millionths over a number of billionths
pub data Severity : Type 0 where
  fixed : ℕ → Severity
  ratio : ℤ → ℤ → Severity

pub record Contradiction : Type 0 where
  pub assumption_id : String
  pub assumption_kind : String
  pub step_id : String
  pub statement : Value
  pub expected : Value
  pub observed : Value
  pub severity : Severity
  pub critical : Bool
  pub triggering_event_ids : List String

abbrev pub Checked : Type 0
Checked = Result ReadError (Option Contradiction)

abbrev pub money : String → ℤ → Value
money label n = spelt (str label ∷ num n ∷ [])

-- `max(x, 1e-9)`, in billionths
abbrev at_least_nano : ℤ → ℤ
at_least_nano x = if ltb_ℤ (pos 0) x then mul_ℤ (pos 1000) x else pos 1

abbrev in_nano : ℤ → ℤ
in_nano x = mul_ℤ (pos 1000) x

module _ (a : Assumption) (triggers : List String) where
  abbrev found : Value → Value → Severity → Bool → Contradiction
  found expected observed severity critical = record {
    assumption_id = a.id;
    assumption_kind = a.kind;
    step_id = "";
    statement = a.statement;
    expected = expected;
    observed = observed;
    severity = severity;
    critical = critical;
    triggering_event_ids = triggers;
  }

  -- the three outcomes for the price of a supplier that is available
  abbrev pub judge_price : ℤ → ℤ → Checked
  judge_price cap price =
      let inside = leb_ℤ (mul_ℤ (pos 100) price) (mul_ℤ (pos 103) cap) in
      if leb_ℤ price cap && inside
      then ok none
      else if inside
      then ok (
          some (
            found (money "price ≤ " cap)
              (spelt (str "price = " ∷ num price ∷ str " (within tolerance, at the boundary)" ∷ []))
              (fixed 50000) false))
      else if eqb_ℤ cap (pos 0)
      then err zero_division
      else ok (
          some (
            found (money "price ≤ " cap) (money "price = " price)
              (ratio (price -ℤ cap) (in_nano cap)) a.critical))

  unfoldable pub check_price : Fields → Checked
  unfolding suppliers_of supplier available number_at item
  check_price world = do
    suppliers ← suppliers_of world
    name ← item "supplier" a.params
    s ← supplier name suppliers
    elim s [
      | none ↦ ok none
      | some (end) ↦ ok none
      | some (field k v r) ↦ item "price" (field k v r) >>= λ p.
          if available (field k v r)
          then (number_at "max_price" a.params >>= λ cap.
              number p >>= λ price. judge_price cap price)
          else ok none
    ]

  unfoldable pub check_available : Fields → Checked
  unfolding suppliers_of supplier available item
  check_available world = do
    suppliers ← suppliers_of world
    name ← item "supplier" a.params
    s ← supplier name suppliers
    ok (
        if elim s [ none ↦ false | some d ↦ available d ]
        then none
        else some (
            found (str "supplier available") (str "supplier unavailable") (fixed 1000000)
              a.critical))

  unfoldable pub check_headroom : Fields → Checked
  unfolding number_at
  check_headroom world = do
    limit ← number_at "budget_limit" world
    committed ← number_at "budget_committed" world
    need ← number_at "min_headroom" a.params
    let headroom = limit -ℤ committed
    ok (
        if leb_ℤ need headroom
        then none
        else some (
            found (money "headroom ≥ " need)
              (spelt (
                str "headroom = "
                ∷ num headroom
                ∷ str " (committed "
                ∷ num committed
                ∷ str " of "
                ∷ num limit
                ∷ str ")"
                ∷ []))
              (ratio (need -ℤ headroom) (at_least_nano need)) a.critical))

  unfoldable pub check_authority : Fields → Checked
  unfolding truthy get_or item
  check_authority world =
      if truthy (get_or "authority_valid" (flag false) world)
      then ok none
      else item "action" a.params >>= λ action. ok (
          some (
            found (spelt (str "valid authority for " ∷ action ∷ []))
              (str "no valid signed grant (revoked/expired/forged)") (fixed 1000000) a.critical))

  -- `days or p["max_days"] * 2`
  abbrev days_or : Option ℤ → ℤ → ℤ
  days_or none most = mul_ℤ (pos 2) most
  days_or (some d) most = if eqb_ℤ d (pos 0) then mul_ℤ (pos 2) most else d

  abbrev pub judge_delivery : ℤ → Option ℤ → Option Contradiction
  judge_delivery most days =
      if elim days [ none ↦ false | some d ↦ leb_ℤ d most ]
      then none
      else some (
          found (spelt (str "delivery ≤ " ∷ num most ∷ str " days" ∷ []))
            (elim days [
              | none ↦ str "no delivery estimate"
              | some d ↦ spelt (str "delivery = " ∷ num d ∷ str " days" ∷ [])
            ])
            (ratio (days_or days most -ℤ most)
              (in_nano (if ltb_ℤ (pos 1000000) most then most else pos 1000000)))
            a.critical)

  abbrev pub days_of : Option Fields → Result ReadError (Option ℤ)
  unfolding get_or
  days_of none = ok none
  days_of (some s) = elim (get "delivery_days" s) [
    | null ↦ ok none
    | num n ↦ ok (some n)
    | _ ↦ err bad_type
  ]

  unfoldable pub check_delivery : Fields → Checked
  unfolding suppliers_of supplier number_at item
  check_delivery world = do
    suppliers ← suppliers_of world
    name ← item "supplier" a.params
    s ← supplier name suppliers
    days ← days_of s
    most ← number_at "max_days" a.params
    ok (judge_delivery most days)

  -- what another feasible supplier, the best, means for the one that the plan chose
  abbrev pub judge_margin : Value → ℤ → ℤ → Best → Option Contradiction
  judge_margin name price margin b =
      if leb_ℤ (mul_ℤ price (pos 1000000 -ℤ margin)) (mul_ℤ b.price (pos 1000000))
      then none
      else some (
          found (spelt (name ∷ str " remains the best feasible supplier" ∷ []))
            (spelt (
              str b.name
              ∷ str " at $"
              ∷ num b.price
              ∷ str " beats "
              ∷ name
              ∷ str " at $"
              ∷ num price
              ∷ []))
            (ratio (price -ℤ b.price) (at_least_nano price)) a.critical)

  abbrev pub search_alternative : Value → Fields → Fields → Fields → Checked
  unfolding number_at number_or item get_or best_supplier same
  search_alternative name current suppliers world = do
    price ← number_at "price" current
    limit ← number_or "budget_limit" (pos 0) world
    committed ← number_or "budget_committed" (pos 0) world
    best ←
        best_supplier (get "max_days" a.params) (get "price_cap" world) (limit -ℤ committed)
          suppliers none
    elim best [
      | none ↦ ok none
      | some b ↦
          if same (str b.name) name
          then ok none
          else (number_at "margin_pct" a.params >>= λ margin. ok (judge_margin name price margin b))
    ]

  unfoldable pub check_alternative : Fields → Checked
  unfolding suppliers_of supplier available item
  check_alternative world = do
    suppliers ← suppliers_of world
    name ← item "supplier" a.params
    s ← supplier name suppliers
    elim s [
      | none ↦ ok none
      | some d ↦ if available d then search_alternative name d suppliers world else ok none
    ]
