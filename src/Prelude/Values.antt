-- ===== src/Prelude/Values.antt =====
-- The dynamic values of event payloads, claims and contexts (`dict[str, Any]`).
-- A number, `int` or `float`, is an exact multiple of one millionth. An f-string is the list of its
-- pieces: the wording is kept and the numbers in it are not printed.
use Prim.Native.Nat.{ℕ, zero, suc, ◌*◌, ◌/◌}
use Prim.Native.String.{String}
use mathlib.Core.Bool.{Bool, true, false, ◌&&◌, not}
use mathlib.Core.Option.{Option, none, some}
use mathlib.Core.List.{List, [], ◌∷◌}
use builder_league.Prelude.Tests.{◌==◌, nat_eq, string_eq, if◌then◌else◌}
use builder_league.Prelude.Int.{eqb_ℤ, negsuc, pos, ℤ}

mutual
  pub data Value : Type 0 where
    null : Value
    flag : Bool → Value
    num : ℤ → Value
    str : String → Value
    format : Values → Value
    list : Values → Value
    dict : Fields → Value

  pub data Values : Type 0 where
    nil : Values
    cons : Value → Values → Values

  pub data Fields : Type 0 where
    end : Fields
    field : String → Value → Fields → Fields

-- An `int` as a value.
abbrev pub int : ℕ → Value
int n = num (pos (n * 1000000))

abbrev pub values_of : List Value → Values
values_of [] = nil
values_of (v ∷ vs) = cons v (values_of vs)

abbrev pub texts_of : List String → Values
texts_of [] = nil
texts_of (s ∷ ss) = cons (str s) (texts_of ss)

-- `d.get(k, default)`
unfoldable pub get_or : String → Value → Fields → Value
get_or k default end = default
get_or k default (field j v r) = if j == k then v else get_or k default r

-- `d.get(k)`, which is `None` for a key that is not there.
abbrev pub get : String → Fields → Value
get k d = get_or k null d

-- Python's truth of a value.
unfoldable pub truthy : Value → Bool
truthy null = false
truthy (flag b) = b
truthy (num n) = not (eqb_ℤ n (pos 0))
truthy (str s) = not (s == "")
truthy (format vs) = true
truthy (list nil) = false
truthy (list (cons _ _)) = true
truthy (dict end) = false
truthy (dict (field _ _ _)) = true

-- how many keys a dictionary has
abbrev pub size : Fields → ℕ
size end = 0
size (field k v r) = suc (size r)

-- `k in d`
abbrev pub has_key : String → Fields → Bool
has_key k end = false
has_key k (field j v r) = if j == k then true else has_key k r

-- `a == b`, on values of one shape; dictionaries are compared whatever the order of their keys.
unfoldable mutual
  unfolding get_or

  pub same : Value → Value → Bool
  same null null = true
  same (flag a) (flag b) = if a then b else not b
  same (num a) (num b) = eqb_ℤ a b
  same (str a) (str b) = a == b
  same (format a) (format b) = same_values a b
  same (list a) (list b) = same_values a b
  same (dict a) (dict b) = (size a == size b) && within a b
  same _ _ = false

  pub same_values : Values → Values → Bool
  same_values nil nil = true
  same_values (cons a r) (cons b t) = same a b && same_values r t
  same_values _ _ = false

  -- every key of the one has the same value in the other
  pub within : Fields → Fields → Bool
  within end b = true
  within (field k v r) b = (has_key k b && same v (get_or k null b)) && within r b

-- -n, as an integer.
abbrev neg_ℕ : ℕ → ℤ
neg_ℕ zero = pos 0
neg_ℕ (suc n) = negsuc n

-- `float(v)`, given what Python reads in a text; `none` where it raises.
unfoldable pub to_float : (String → Option ℤ) → Value → Option ℤ
to_float read (num n) = some n
to_float read (flag b) = some (if b then pos 1000000 else pos 0)
to_float read (str s) = read s
to_float read _ = none

-- where no text stands for a number
abbrev pub unread : String → Option ℤ
unread s = none

-- `int(v)`, in whole units; `none` where it raises.
unfoldable pub to_int : Value → Option ℤ
to_int (num (pos n)) = some (pos (n / 1000000))
to_int (num (negsuc n)) = some (neg_ℕ (suc n / 1000000))
to_int (flag b) = some (if b then pos 1 else pos 0)
to_int _ = none
