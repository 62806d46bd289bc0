-- ===== src/Sim/Ledger/Integrity.antt =====
-- What every ledger that the calls build looks like, when each call draws a new identifier.
use mathlib.Core.Path.{subst}
use builder_league.Prelude.{
  ==_cases, ==_iff, All, All-append, List, Option-cases, String, [], arith, false, filter,
  filter-append, inl, inr, length, length-append, none, refl, some, sym, true, ◌++◌, ◌==◌, ◌||◌,
  ◌∙◌, ◌∷◌, ◌≡◌, ◌≢◌, ◌≤◌, ◌⊎◌, nat_eq, string_eq,
}
use builder_league.Prelude.Int.{ltb_ℤ, pos}
use builder_league.Sim.Ledger.{
  Ledger, LedgerEntry, Made, compensates?, find, is_refund, is_refunded, refund,
}
use builder_league.Sim.Ledger.Totals.{IsUnique, find-append, is_refunded-append}
use builder_league.Sim.Ledger.Calls.{
  Call, IsPosting, Posts, after, call, call-Posts, id_of, posted, raised, run,
}

abbrev pub refunds_of : String → Ledger → Ledger
refunds_of i l = filter (compensates? i) l

pub record IsValid (l : Ledger) : Type 0 where
  pub unique : IsUnique l
  pub positive : All (λ e. ltb_ℤ (pos 0) e.amount ≡ true) l
  pub targets : (i : String) → is_refunded i l ≡ true → find i l ≢ none
  pub once : (i : String) → length (refunds_of i l) ≤ 1

-- what the call at the end is allowed to do
abbrev pub IsFresh : Ledger → Call → Type 0
IsFresh l c = find (id_of c) l ≡ none

pub find-append_none : (i : String) (l m : Ledger) → find i l ≡ none → find i (l ++ m) ≡ find i m
unfolding find
find-append_none i [] m h = refl
find-append_none i (x ∷ l) m h = ground (arith, find-append_none i l m)

IsUnique-append :
    (l : Ledger) (e : LedgerEntry) → IsUnique l → find e.id l ≡ none → IsUnique (l ++ (e ∷ []))
unfolding find
IsUnique-append [] e u n = (refl, tt)
IsUnique-append (x ∷ l) e u n = elim (==_cases x.id e.id) [
  | inl (q, b) ↦ ground (arith, b)
  | inr (q, b) ↦ (
    ground (arith, find-append_none x.id l (e ∷ []) u.0, ==_iff e.id x.id, q),
    IsUnique-append l e u.1 (ground (arith, b)),
  )
]

unrefunded : (i : String) (l : Ledger) → is_refunded i l ≡ false → length (refunds_of i l) ≡ 0
unfolding is_refunded
unrefunded i [] h = refl
unrefunded i (x ∷ l) h = ground (arith, unrefunded i l)

module _ (l : Ledger) (e : LedgerEntry) where
  -- an entry that is no refund refunds nothing
  pub is_refunded-plain :
      e.compensates ≡ none → (i : String) → is_refunded i (l ++ (e ∷ [])) ≡ is_refunded i l
  unfolding is_refunded
  is_refunded-plain n i = ground (arith, is_refunded-append i l (e ∷ []), n)

  pub is_refunded-refund :
      (t : String)
      → e.kind ≡ refund
      → e.compensates ≡ some t
      → (i : String) → is_refunded i (l ++ (e ∷ [])) ≡ (is_refunded i l || (t == i))
  unfolding is_refunded
  is_refunded-refund t k c i = ground (arith, is_refunded-append i l (e ∷ []), k, c)

post-IsValid :
    (l : Ledger) (i : String) (e : LedgerEntry)
    → IsValid l
    → find i l ≡ none
    → IsPosting l i e
    → IsValid (l ++ (e ∷ []))
post-IsValid l i e v f p = by_link p.link
  where
    new : find e.id l ≡ none
    new = subst (λ j. find j l ≡ none) (sym p.named) f

    Link : Type 0
    Link =
        ((e.compensates ≡ none) × (is_refund e.kind ≡ false))
        ⊎ ((t : LedgerEntry) × (e.kind ≡ refund)
            × (e.compensates ≡ some t.id)
            × (find t.id l ≡ some t)
            × (is_refund t.kind ≡ false)
            × (is_refunded t.id l ≡ false)
            × (e.amount ≡ t.amount))

    kept : (j : String) → find j l ≢ none → find j (l ++ (e ∷ [])) ≢ none
    kept j h q = elim (Option-cases (find j l)) [
      | inl n ↦ h n
      | inr (x, s) ↦ ground (arith, find-append j l (e ∷ []) x s)
    ]

    by_link : Link → IsValid (l ++ (e ∷ []))
    by_link (inl (n, k)) = record {
      unique = IsUnique-append l e v.unique new;
      positive = All-append _ l (e ∷ []) v.positive (p.positive, tt);
      targets = λ j r. kept j (v.targets j (sym (is_refunded-plain l e n j) ∙ r));
      once = λ j. ground (
        arith,
        filter-append (compensates? j) l (e ∷ []),
        length-append (refunds_of j l) [],
        v.once j,
        n,
      );
    }
    by_link (inr (t, k, c, q, kt, r, am)) = record {
      unique = IsUnique-append l e v.unique new;
      positive = All-append _ l (e ∷ []) v.positive (p.positive, tt);
      targets = λ j h. elim (==_cases t.id j) [
        | inl (s, b) ↦ kept j (subst (λ x. find x l ≢ none) s (λ n. ground arith))
        | inr (s, b) ↦ kept j (v.targets j (ground (arith, is_refunded-refund l e t.id k c j, b)))
      ];
      once = λ j. elim (==_cases t.id j) [
        | inl (s, b) ↦
            subst (λ x. length (refunds_of x (l ++ (e ∷ []))) ≤ 1) s
              (ground (
                arith,
                filter-append (compensates? t.id) l (e ∷ []),
                length-append (refunds_of t.id l) (refunds_of t.id (e ∷ [])),
                unrefunded t.id l r,
                k,
                c,
              ))
        | inr (s, b) ↦ ground (
          arith,
          filter-append (compensates? j) l (e ∷ []),
          length-append (refunds_of j l) (refunds_of j (e ∷ [])),
          v.once j,
          k,
          c,
          b,
        )
      ];
    }

after-IsValid :
    (l : Ledger) (i : String) (r : Made)
    → IsValid l
    → find i l ≡ none
    → Posts l i r
    → IsValid (after l r)
after-IsValid l i _ v f (raised x) = v
after-IsValid l i _ v f (posted e p) = post-IsValid l i e v f p

-- Each call of the sequence draws an identifier that no entry has.
abbrev pub AreFresh : Ledger → List Call → Type 0
AreFresh l [] = Unit
AreFresh l (c ∷ cs) = IsFresh l c × AreFresh (after l (call c l)) cs

-- Calls that each draw a new identifier keep a valid ledger valid: identifiers are unique, amounts
-- are positive, every refund names an entry, and no entry has two refunds.
pub calls-IsValid : (l : Ledger) (cs : List Call) → IsValid l → AreFresh l cs → IsValid (run l cs)
unfolding run
calls-IsValid l [] v f = v
calls-IsValid l (c ∷ cs) v f =
    calls-IsValid (after l (call c l)) cs
      (after-IsValid l (id_of c) (call c l) v f.0 (call-Posts c l)) f.1
