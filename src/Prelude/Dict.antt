-- ===== src/Prelude/Dict.antt =====
-- Python's `dict`, in insertion order: `d[k] = v` keeps the place of a known key
-- and appends a new one.
use mathlib.Core.Path.{◌≡◌, refl, ap}
use mathlib.Core.Bool.{Bool, true, false}
use mathlib.Core.Option.{Option, none, some}
use mathlib.Core.List.{List, [], ◌∷◌, ◌++◌}
use native.Mathlib.Omega.{arith}
use builder_league.Prelude.Lists.{any}
use builder_league.Prelude.Tests.{Eq, ◌==◌, ==_iff, if◌then◌else◌}

abbrev pub Dict {ℓ} : Type 0 → Type ℓ → Type ℓ
Dict K V = List (K × V)

module _ {ℓ} {K : Type 0} {V : Type ℓ} where
  -- `d.values()`
  abbrev pub values : Dict K V → List V
  values [] = []
  values ((_, v) ∷ m) = v ∷ values m

  -- `list(d)`
  abbrev pub keys : Dict K V → List K
  keys [] = []
  keys ((k, _) ∷ m) = k ∷ keys m

module _ {ℓ} {K : Type 0} ⦃e : Eq K⦄ {V : Type ℓ} where
  -- `d.get(k)`
  unfoldable pub lookup : K → Dict K V → Option V
  lookup k [] = none
  lookup k ((j, v) ∷ m) = if j == k then some v else lookup k m

  -- `d[k] = v`
  unfoldable pub insert : K → V → Dict K V → Dict K V
  insert k v [] = (k, v) ∷ []
  insert k v ((j, w) ∷ m) = if j == k then (j, v) ∷ m else (j, w) ∷ insert k v m

  -- `d.pop(k, None)`
  unfoldable pub erase : K → Dict K V → Dict K V
  erase k [] = []
  erase k ((j, v) ∷ m) = let rest = erase k m in if j == k then rest else (j, v) ∷ rest

  -- `d.get(k, v)`
  abbrev pub get_or : K → V → Dict K V → V
  get_or k v m = elim (lookup k m) [ none ↦ v | some w ↦ w ]

  abbrev pub contains : K → Dict K V → Bool
  contains k m = elim (lookup k m) [ none ↦ false | some w ↦ true ]

  pub lookup-insert :
      (k q : K) (v : V) (m : Dict K V)
      → lookup q (insert k v m) ≡ (if k == q then some v else lookup q m)
  unfolding lookup insert
  lookup-insert k q v [] = refl
  lookup-insert k q v ((j, w) ∷ m) =
      ground (arith, lookup-insert k q v m, ==_iff k q, ==_iff j k, ==_iff j q)

  pub lookup-erase :
      (k j : K) (m : Dict K V) → lookup j (erase k m) ≡ (if k == j then none else lookup j m)
  unfolding lookup erase
  lookup-erase k j [] = ground arith
  lookup-erase k j ((i, w) ∷ m) =
      ground (arith, ==_iff k j, ==_iff i k, ==_iff i j, lookup-erase k j m)

  -- To write what is there changes nothing.
  pub insert-same : (k : K) (v : V) (m : Dict K V) → lookup k m ≡ some v → insert k v m ≡ m
  unfolding lookup insert
  insert-same k v [] h = cc
  insert-same k v ((j, w) ∷ m) h = ground (arith, insert-same k v m)

  -- A new key goes to the end.
  pub insert-new :
      (k : K) (v : V) (m : Dict K V) → lookup k m ≡ none → insert k v m ≡ m ++ ((k, v) ∷ [])
  unfolding lookup insert
  insert-new k v [] h = refl
  insert-new k v ((j, w) ∷ m) h = ground (arith, insert-new k v m)

  pub values-append : (m n : Dict K V) → values (m ++ n) ≡ values m ++ values n
  values-append [] n = refl
  values-append ((j, w) ∷ m) n = ap (λ vs. w ∷ vs) (values-append m n)

module _ {ℓ} {K : Type 0} ⦃e : Eq K⦄ {V : Type ℓ} (p : V → Bool) where
  -- A write adds no other value that passes a test.
  pub any-insert_new :
      (k : K) (v : V) (m : Dict K V)
      → p v ≡ false
      → any p (values m) ≡ false
      → any p (values (insert k v m)) ≡ false
  unfolding insert
  any-insert_new k v [] h n = ground arith
  any-insert_new k v ((j, w) ∷ m) h n = ground (arith, any-insert_new k v m h)

  -- A write keeps a value that passes a test if it passes the test itself.
  pub any-insert_self :
      (k : K) (v : V) (m : Dict K V) → p v ≡ true → any p (values (insert k v m)) ≡ true
  unfolding insert
  any-insert_self k v [] h = ground arith
  any-insert_self k v ((j, w) ∷ m) h = ground (arith, any-insert_self k v m h)

  -- A write over a value that the test judges alike changes nothing that the test finds.
  pub any-insert_same :
      (k : K) (v w : V) (m : Dict K V)
      → lookup k m ≡ some w
      → p v ≡ p w
      → any p (values (insert k v m)) ≡ any p (values m)
  unfolding lookup insert
  any-insert_same k v w [] h n = cc
  any-insert_same k v w ((j, u) ∷ m) h n = ground (arith, any-insert_same k v w m)

  -- A write under a new key keeps what the test found.
  pub any-insert_keep :
      (k : K) (v : V) (m : Dict K V)
      → lookup k m ≡ none
      → any p (values m) ≡ true
      → any p (values (insert k v m)) ≡ true
  unfolding lookup insert
  any-insert_keep k v [] h n = cc
  any-insert_keep k v ((j, u) ∷ m) h n = ground (arith, any-insert_keep k v m)

  -- A value that is found is among the values.
  pub any-of_lookup :
      (k : K) (w : V) (m : Dict K V) → lookup k m ≡ some w → p w ≡ true → any p (values m) ≡ true
  unfolding lookup
  any-of_lookup k w [] h n = cc
  any-of_lookup k w ((j, u) ∷ m) h n = ground (arith, any-of_lookup k w m)

pub ruleset dict_laws = (lookup-insert, lookup-erase)
