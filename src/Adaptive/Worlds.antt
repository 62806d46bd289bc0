-- ===== src/Adaptive/Worlds.antt =====
-- Reading a world snapshot (the accesses to `params` and `world` in
-- core/adaptivecore/domain/detection.py): a missing key or a value of another type raises.
use builder_league.Prelude.{
  Bool, Option, Result, String, err, false, if◌then◌else◌, none, ok, some, ◌&&◌, ◌==◌, ◌>>=◌, ◌||◌,
  nat_eq, string_eq,
}
use builder_league.Prelude.Values.{
  Fields, Value, dict, end, field, flag, get, get_or, null, num, str, to_int, truthy,
}
use builder_league.Prelude.Int.{ltb_ℤ, mul_ℤ, pos, ℤ, ◌+ℤ◌}

pub data ReadError : Type 0 where
  missing : String → ReadError
  bad_type : ReadError
  zero_division : ReadError

-- `d[k]`
unfoldable pub item : String → Fields → Result ReadError Value
item k end = err (missing k)
item k (field j v r) = if j == k then ok v else item k r

abbrev pub number : Value → Result ReadError ℤ
number (num n) = ok n
number _ = err bad_type

-- `float(d[k])`, or `d[k]` where it is compared with a number
unfoldable pub number_at : String → Fields → Result ReadError ℤ
unfolding item
number_at k d = item k d >>= number

-- `float(d.get(k, n))`
unfoldable pub number_or : String → ℤ → Fields → Result ReadError ℤ
unfolding get_or
number_or k n d = number (get_or k (num n) d)

-- `world.get("suppliers", {})`
unfoldable pub suppliers_of : Fields → Result ReadError Fields
unfolding get_or
suppliers_of world = elim (get_or "suppliers" (dict end) world) [ dict d ↦ ok d | _ ↦ err bad_type ]

-- `suppliers.get(name)`
unfoldable pub supplier : Value → Fields → Result ReadError (Option Fields)
unfolding get_or
supplier (str name) d = elim (get name d) [
  | null ↦ ok none
  | dict s ↦ ok (some s)
  | _ ↦ err bad_type
]
supplier _ d = ok none

-- `s.get("available", False)`, as a truth value
unfoldable pub available : Fields → Bool
unfolding truthy get_or
available s = truthy (get_or "available" (flag false) s)

pub record Best : Type 0 where
  pub name : String
  pub price : ℤ

abbrev pub over_days : Value → Fields → Result ReadError Bool
unfolding get_or to_int
over_days null s = ok false
over_days (num m) s = elim (to_int (get_or "delivery_days" (num (m +ℤ pos 1000000)) s)) [
  | none ↦ err bad_type
  | some d ↦ ok (ltb_ℤ m (mul_ℤ d (pos 1000000)))
]
over_days _ s = err bad_type

abbrev pub over_cap : Value → ℤ → Result ReadError Bool
over_cap null price = ok false
over_cap (num c) price = ok (ltb_ℤ c price)
over_cap _ price = err bad_type

-- not even one unit: `price > 0 and int(headroom // price) <= 0`
abbrev pub too_dear : ℤ → ℤ → Bool
too_dear headroom price = ltb_ℤ (pos 0) price && ltb_ℤ headroom price

abbrev pub cheaper : Option Best → Best → Option Best
cheaper none b = some b
cheaper (some a) b = if ltb_ℤ b.price a.price then some b else some a

-- what the loop over the suppliers does with one of them
unfoldable pub consider :
    Value → Value → ℤ → String → Fields → Option Best → Result ReadError (Option Best)
unfolding available
consider max_days price_cap headroom name s best =
    if available s
    then over_days max_days s >>= (λ late.
      if late
      then ok best
      else number_at "price" s >>= λ price. over_cap price_cap price >>= λ dear. ok (
          if dear || too_dear headroom price
          then best
          else cheaper best (record { name = name; price = price })))
    else ok best

-- the loop over `suppliers.items()`
unfoldable pub best_supplier :
    Value → Value → ℤ → Fields → Option Best → Result ReadError (Option Best)
unfolding consider
best_supplier max_days price_cap headroom end best = ok best
best_supplier max_days price_cap headroom (field name (dict s) rest) best =
    consider max_days price_cap headroom name s best >>= λ b.
    best_supplier max_days price_cap headroom rest b
best_supplier max_days price_cap headroom (field name _ rest) best = err bad_type
