-- ===== src/Memory/Forgetting.antt =====
-- Forgetting (core/memorycore/domain/forgetting.py). The frontier is a stack with its top first, and the
-- set of doomed facts is a list without repetitions.
pub mod Cascade
use builder_league.Prelude.{
  Bool, List, Option, String, [], any, filter, if◌then◌else◌, length, ltb, none, some, suc, zero, ℕ,
  ◌++◌, ◌==◌, ◌||◌, ◌∷◌, nat_eq, string_eq,
}
use builder_league.Prelude.Dict.{Dict}
use builder_league.Prelude.Dict
use builder_league.Prelude.Values.{Value}
use builder_league.Memory.Facts.{Fact, Python, effective_confidence, is_expired}

-- `USEFULNESS_FLOOR`
abbrev pub usefulness_floor : ℕ
usefulness_floor = 200000000

pub data ForgetReason : Type 0 where
  stale contradicted superseded revoked : ForgetReason

pub record Tombstone : Type 0 where
  pub fact_id : String
  pub slot : String
  pub value : String
  pub reason : ForgetReason
  pub forgotten_at : ℕ
  pub detail : Value

module _ (py : Python) where
  abbrev pub is_stale : ℕ → Fact → Bool
  unfolding is_expired effective_confidence
  is_stale now f = is_expired f now || ltb (effective_confidence py f now) usefulness_floor

  unfoldable pub stale_facts : ℕ → List Fact → List Fact
  unfolding is_stale
  stale_facts now facts = filter (is_stale now) facts

abbrev pub among : String → List String → Bool
among i js = any (λ j. j == i) js

-- `by_parent.setdefault(parent, []).append(child)`
abbrev pub add_child : String → String → Dict String (List String) → Dict String (List String)
unfolding Dict.insert Dict.lookup
add_child child parent m = Dict.insert parent (Dict.get_or parent [] m ++ (child ∷ [])) m

abbrev pub add_children :
    String → List String → Dict String (List String) → Dict String (List String)
unfolding add_child
add_children child [] m = m
add_children child (parent ∷ ps) m = add_children child ps (add_child child parent m)

unfoldable pub by_parent : List Fact → Dict String (List String) → Dict String (List String)
unfolding add_children
by_parent [] m = m
by_parent (f ∷ fs) m = by_parent fs (add_children f.id f.derived_from m)

-- the inner loop: the doomed facts and the frontier after the children
unfoldable pub doom : List String → List String × List String → List String × List String
doom [] (doomed, frontier) = (doomed, frontier)
doom (x ∷ xs) (doomed, frontier) =
    if among x doomed then doom xs (doomed, frontier) else doom xs (x ∷ doomed, x ∷ frontier)

-- the outer loop, on fuel
unfoldable pub spread :
    ℕ → Dict String (List String) → List String × List String → Option (List String)
unfolding doom Dict.lookup
spread n m (doomed, []) = some doomed
spread zero m (doomed, x ∷ frontier) = none
spread (suc n) m (doomed, x ∷ frontier) = spread n m (doom (Dict.get_or x [] m) (doomed, frontier))

unfoldable pub cascaded_forgets : String → List Fact → Option (List String)
unfolding spread by_parent
cascaded_forgets root facts =
    spread (suc (length facts)) (by_parent facts []) (root ∷ [], root ∷ [])
