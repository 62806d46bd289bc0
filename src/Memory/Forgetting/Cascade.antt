-- ===== src/Memory/Forgetting/Cascade.antt =====
-- `cascaded_forgets` ends, with the root and exactly what is derived from it.
use mathlib.Core.Path.{subst}
use builder_league.Prelude.{
  ==_cases, ==_iff, ==_refl, Bool, Bool-cases, List, String, [], any, any-append, arith, false,
  filter, inl, inr, length, length-filter-le, not, refl, some, suc, sym, true, zero, ℕ, ◌&&◌, ◌++◌,
  ◌+◌, ◌<◌, ◌==◌, ◌||◌, ◌∙◌, ◌∷◌, ◌≡◌, ◌≢◌, ◌≤◌, ◌⊎◌, nat_eq, string_eq,
}
use builder_league.Prelude.Dict.{Dict, get_or, lookup, lookup-insert}
use builder_league.Memory.Facts.{Fact}
use builder_league.Memory.Forgetting.{
  add_child, add_children, among, by_parent, cascaded_forgets, doom, spread,
}

-- `i` is derived from `p` in one step: a fact of that identifier names `p` among its parents
abbrev pub is_linked : List Fact → String → String → Bool
is_linked facts p i = any (λ f. among p f.derived_from && (f.id == i)) facts

abbrev pub is_known : List Fact → String → Bool
is_known facts i = any (λ f. f.id == i) facts

-- what is derived from the root in any number of steps
pub data Derives (facts : List Fact) (root : String) : String → Type 0 where
  itself : Derives facts root root
  through :
      (p i : String) → Derives facts root p → is_linked facts p i ≡ true → Derives facts root i

among-add_child :
    (child parent p i : String) (m : Dict String (List String))
    → among i (get_or p [] (add_child child parent m))
      ≡ (among i (get_or p [] m) || ((parent == p) && (child == i)))
unfolding add_child
among-add_child child parent p i m = elim (==_cases parent p) [
  | inl (e, b) ↦ ground (
    arith,
    lookup-insert parent p (get_or parent [] m ++ (child ∷ [])) m,
    b,
    e,
    any-append (λ j. j == i) (get_or p [] m) (child ∷ []),
  )
  | inr (e, b) ↦ ground (arith, lookup-insert parent p (get_or parent [] m ++ (child ∷ [])) m, b)
]

among-add_children :
    (child p i : String) (ps : List String) (m : Dict String (List String))
    → among i (get_or p [] (add_children child ps m))
      ≡ (among i (get_or p [] m) || (among p ps && (child == i)))
unfolding add_children
among-add_children child p i [] m = ground arith
among-add_children child p i (q ∷ ps) m =
    ground
      (arith, among-add_children child p i ps (add_child child q m), among-add_child child q p i m)

among-by_parent :
    (p i : String) (facts : List Fact) (m : Dict String (List String))
    → among i (get_or p [] (by_parent facts m)) ≡ (among i (get_or p [] m) || is_linked facts p i)
unfolding by_parent
among-by_parent p i [] m = ground arith
among-by_parent p i (f ∷ fs) m = ground (
  arith,
  among-by_parent p i fs (add_children f.id f.derived_from m),
  among-add_children f.id p i f.derived_from m,
)

linked-known :
    (facts : List Fact) (p i : String) → is_linked facts p i ≡ true → is_known facts i ≡ true
linked-known [] p i h = cc
linked-known (f ∷ fs) p i h = ground (arith, h, linked-known fs p i)

-- how many facts are not doomed
abbrev spared : List Fact → List String → ℕ
spared facts doomed = length (filter (λ f. not (among f.id doomed)) facts)

spared-le :
    (facts : List Fact) (x : String) (doomed : List String)
    → spared facts (x ∷ doomed) ≤ spared facts doomed
spared-le [] x doomed = omega arith
spared-le (f ∷ fs) x doomed = ground (arith, spared-le fs x doomed)

spared-lt :
    (facts : List Fact) (x : String) (doomed : List String)
    → is_known facts x ≡ true
    → among x doomed ≡ false
    → spared facts (x ∷ doomed) < spared facts doomed
spared-lt [] x doomed k n = cc
spared-lt (f ∷ fs) x doomed k n = elim (==_cases f.id x) [
  | inl (e, b) ↦ ground (arith, spared-le fs x doomed, e, b, n, ==_refl x)
  | inr (e, b) ↦ ground (arith, spared-lt fs x doomed (ground (arith, k, b)) n)
]

among-doom :
    (i : String) (xs : List String) (s : List String × List String)
    → among i (doom xs s).0 ≡ (among i s.0 || among i xs)
unfolding doom
among-doom i [] (doomed, frontier) = ground arith
among-doom i (x ∷ xs) (doomed, frontier) = elim (Bool-cases (among x doomed)) [
  | inl b ↦ rw b (ground (arith, among-doom i xs (doomed, frontier), b, ==_iff x i))
  | inr b ↦ rw b (ground (arith, among-doom i xs (x ∷ doomed, x ∷ frontier)))
]

-- the frontier keeps what it has, and what is newly doomed is put there
frontier-doom :
    (i : String) (xs : List String) (s : List String × List String)
    → (among i s.1 ≡ true → among i (doom xs s).1 ≡ true)
      × (among i xs ≡ true → among i s.0 ≡ false → among i (doom xs s).1 ≡ true)
unfolding doom
frontier-doom i [] (doomed, frontier) = (λ h. h, λ h n. cc)
frontier-doom i (x ∷ xs) (doomed, frontier) = elim (Bool-cases (among x doomed)) [
  | inl b ↦
      let (k, n) = frontier-doom i xs (doomed, frontier) in
      rw b (k, λ h q. n (ground (arith, h, q, b, ==_iff x i)) q)
  | inr b ↦
      let (k, n) = frontier-doom i xs (x ∷ doomed, x ∷ frontier) in
      rw b (
        λ h. k (ground (arith, h)),
        λ h q. elim (==_cases x i) [
          | inl (e, c) ↦ k (ground (arith, c))
          | inr (e, c) ↦ n (ground (arith, h, c)) (ground (arith, q, c))
        ],
      )
]

spared-doom :
    (facts : List Fact) (xs : List String) (s : List String × List String)
    → ((i : String) → among i xs ≡ true → is_known facts i ≡ true)
    → spared facts (doom xs s).0 + length (doom xs s).1 ≤ spared facts s.0 + length s.1
unfolding doom
spared-doom facts [] (doomed, frontier) h = omega arith
spared-doom facts (x ∷ xs) (doomed, frontier) h = elim (Bool-cases (among x doomed)) [
  | inl b ↦ rw b (spared-doom facts xs (doomed, frontier) (λ i q. h i (ground (arith, q))))
  | inr b ↦ rw b (
      ground (
        arith,
        spared-doom facts xs (x ∷ doomed, x ∷ frontier) (λ i q. h i (ground (arith, q))),
        spared-lt facts x doomed (h x (ground (arith, ==_refl x))) b,
      ))
]

-- what holds of the doomed facts and the frontier whenever the loop tests its condition
record IsCascading (facts : List Fact) (root : String) (s : List String × List String)
    : Type 0 where
  rooted : among root s.0 ≡ true
  derived : (i : String) → among i s.0 ≡ true → Derives facts root i
  waiting : (i : String) → among i s.1 ≡ true → among i s.0 ≡ true
  closed :
      (p i : String)
      → among p s.0 ≡ true
      → among p s.1 ≡ false
      → is_linked facts p i ≡ true
      → among i s.0 ≡ true

-- the facts that the loop dooms for a parent are the ones linked to it
children-linked :
    (facts : List Fact) (p i : String)
    → among i (get_or p [] (by_parent facts [])) ≡ is_linked facts p i
unfolding lookup
children-linked facts p i = ground (arith, among-by_parent p i facts [])

waiting-doom :
    (xs : List String) (s : List String × List String)
    → ((i : String) → among i s.1 ≡ true → among i s.0 ≡ true)
    → (i : String) → among i (doom xs s).1 ≡ true
    → among i (doom xs s).0 ≡ true
unfolding doom
waiting-doom [] (doomed, frontier) w = w
waiting-doom (x ∷ xs) (doomed, frontier) w = elim (Bool-cases (among x doomed)) [
  | inl b ↦ rw b (waiting-doom xs (doomed, frontier) w)
  | inr b ↦ rw b (waiting-doom xs (x ∷ doomed, x ∷ frontier) (λ i h. ground (arith, h, w i)))
]

module _ (facts : List Fact) (root : String) where
  abbrev children : String → List String
  children x = get_or x [] (by_parent facts [])

  IsCascading-doom :
      (x : String) (doomed frontier : List String)
      → IsCascading facts root (doomed, x ∷ frontier)
      → IsCascading facts root (doom (children x) (doomed, frontier))
  IsCascading-doom x doomed frontier c =
      let xs = children x in
      let s : List String × List String = (doomed, frontier) in
      record {
        rooted = ground (arith, among-doom root xs s, c.rooted);
        derived = λ i h. elim (Bool-cases (among i doomed)) [
          | inl b ↦ c.derived i b
          | inr b ↦
              through x i (c.derived x (c.waiting x (ground (arith, ==_refl x))))
                (ground (arith, among-doom i xs s, children-linked facts x i, h, b))
        ];
        waiting = waiting-doom xs s λ i h. c.waiting i (ground (arith, h));
        closed = λ p i h n l. elim (Bool-cases (among p doomed)) [
          | inr b ↦
              ground
                (arith, (frontier-doom p xs s).1 (ground (arith, among-doom p xs s, h, b)) b, n)
          | inl b ↦ elim (==_cases x p) [
            | inl (e, q) ↦ ground (arith, among-doom i xs s, children-linked facts x i, l, e)
            | inr (e, q) ↦ elim (Bool-cases (among p frontier)) [
              | inl f ↦ ground (arith, (frontier-doom p xs s).0 f, n)
              | inr f ↦ ground (arith, among-doom i xs s, c.closed p i b (ground (arith, q, f)) l)
            ]
          ]
        ];
      }

  spread-ends :
      (n : ℕ) (s : List String × List String)
      → spared facts s.0 + length s.1 ≤ n
      → IsCascading facts root s
      → (doomed : List String) × (spread n (by_parent facts []) s ≡ some doomed)
        × IsCascading facts root (doomed, [])
  unfolding spread
  spread-ends n (doomed, []) h c = (doomed, refl, c)
  spread-ends zero (doomed, x ∷ frontier) h c = absurd (omega (arith, h))
  spread-ends (suc n) (doomed, x ∷ frontier) h c =
      spread-ends n (doom (children x) (doomed, frontier))
        (omega (
          arith,
          h,
          spared-doom facts (children x) (doomed, frontier)
              (λ i q. linked-known facts x i (sym (children-linked facts x i) ∙ q)),
        ))
        (IsCascading-doom x doomed frontier c)

  IsCascading-start : IsCascading facts root (root ∷ [], root ∷ [])
  IsCascading-start = record {
    rooted = ground (arith, ==_refl root);
    derived = λ i h. derived_root i (==_cases root i) h;
    waiting = λ i h. h;
    closed = λ p i h n l. cc;
  }
    where
      derived_root :
          (i : String)
          → ((root ≡ i) × ((root == i) ≡ true)) ⊎ ((root ≢ i) × ((root == i) ≡ false))
          → among i (root ∷ []) ≡ true
          → Derives facts root i
      derived_root i (inl (e, b)) h = subst (Derives facts root) e itself
      derived_root i (inr (e, b)) h = cc

-- The search for the facts to forget always ends with a set: it has the root, every fact derived in one
-- step from a member is a member, and every member is derived from the root.
pub cascaded_forgets-exact :
    (root : String) (facts : List Fact)
    → (doomed : List String) × (cascaded_forgets root facts ≡ some doomed)
      × (among root doomed ≡ true)
      × ((p i : String)
          → among p doomed ≡ true
          → is_linked facts p i ≡ true
          → among i doomed ≡ true)
      × ((i : String) → among i doomed ≡ true → Derives facts root i)
unfolding cascaded_forgets
cascaded_forgets-exact root facts =
    let (doomed, q, c) =
      spread-ends facts root (suc (length facts)) (root ∷ [], root ∷ [])
        (omega (arith, length-filter-le (λ f. not (among f.id (root ∷ []))) facts))
        (IsCascading-start facts root) in
    (doomed, q, c.rooted, λ p i h l. c.closed p i h refl l, c.derived)
