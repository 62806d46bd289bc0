-- ===== src/Prelude/Texts.antt =====
-- Texts: what Python does by `s + t`, `s[:n]` and `str(n)`.
use Prim.Native.String.{String, [], ◌∷◌, ◌++◌, compare}
use Prim.Native.Nat.{ℕ, zero, suc, Ordering, ◌/◌, ◌%◌}
use builder_league.Prelude.Tests.{if◌then◌else◌, leb}
use mathlib.Core.Bool.{Bool, true, false}

unfoldable pub concat : String → String → String
concat s t = s ++ t

-- Python's `s <= t` on texts.
unfoldable pub string_leb : String → String → Bool
string_leb s t = elim (compare s t) [
  | Ordering.lt ↦ true
  | Ordering.eq ↦ true
  | Ordering.gt ↦ false
]

-- Python's `s[:n]`.
unfoldable pub first : ℕ → String → String
first zero s = []
first (suc n) [] = []
first (suc n) (c ∷ r) = c ∷ first n r

-- the character at a place
unfoldable pub char_at : ℕ → String → String
char_at n [] = []
char_at zero (c ∷ r) = c ∷ []
char_at (suc n) (c ∷ r) = char_at n r

abbrev pub digit : ℕ → String
unfolding char_at
digit n = char_at n "0123456789"

-- the decimal digits of a number below 10 ^ fuel
unfoldable pub digits : ℕ → ℕ → String
unfolding digit
digits zero n = []
digits (suc fuel) n =
    let rest = digits fuel (n / 10) in if leb n 9 then digit n else rest ++ digit (n % 10)

-- Python's `str(n)`
unfoldable pub decimal : ℕ → String
unfolding digits
decimal n = digits (suc n) n
