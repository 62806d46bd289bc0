-- ===== src/Sim/Ledger/Totals.antt =====
-- What one more entry does to the totals of the ledger.
use mathlib.Core.Path.{subst}
use builder_league.Prelude.{
  ==_cases, ==_iff, Bool, Option, String, [], any-append, arith, false, if◌then◌else◌, inl, inr,
  none, refl, some, ◌++◌, ◌==◌, ◌||◌, ◌∷◌, ◌≡◌, nat_eq, string_eq,
}
use builder_league.Prelude.Int.{+ℤ_assoc, +ℤ_comm, +ℤ_zero, pos, ℤ, ◌+ℤ◌}
use builder_league.Sim.Ledger.{
  Kind, Ledger, LedgerEntry, compensates?, counts, find, is_refunded, sum_counted,
}

pub find-append :
    (i : String) (l m : Ledger) (e : LedgerEntry) → find i l ≡ some e → find i (l ++ m) ≡ some e
unfolding find
find-append i [] m e h = cc
find-append i (x ∷ l) m e h = ground (arith, find-append i l m e)

pub is_refunded-append :
    (i : String) (l m : Ledger) → is_refunded i (l ++ m) ≡ (is_refunded i l || is_refunded i m)
unfolding is_refunded
is_refunded-append i l m = any-append (compensates? i) l m

-- No two entries have the same identifier.
abbrev pub IsUnique : Ledger → Type 0
IsUnique [] = Unit
IsUnique (e ∷ l) = (find e.id l ≡ none) × IsUnique l

-- what an entry adds to a total
abbrev pub share : (Kind → Bool) → Ledger → LedgerEntry → ℤ
share p whole e = if counts p whole e then e.amount else pos 0

module _ (p : Kind → Bool) where
  pub sum-append :
      (w l : Ledger) (e : LedgerEntry)
      → sum_counted p w (l ++ (e ∷ [])) ≡ sum_counted p w l +ℤ share p w e
  sum-append w [] e =
      ground (arith, +ℤ_comm (pos 0) (share p w e), +ℤ_zero (share p w e), +ℤ_zero e.amount)
  sum-append w (x ∷ l) e =
      ground (arith, sum-append w l e, +ℤ_assoc x.amount (sum_counted p w l) (share p w e))

  -- An entry that refunds nothing that is listed changes no other entry's share.
  pub sum-kept :
      (w m l : Ledger)
      → ((e : LedgerEntry) → is_refunded e.id (w ++ m) ≡ is_refunded e.id w)
      → sum_counted p (w ++ m) l ≡ sum_counted p w l
  sum-kept w m [] h = refl
  sum-kept w m (x ∷ l) h = ground (arith, h x, sum-kept w m l h)

  -- what the refund of an entry takes out of the total
  abbrev pub released : Option LedgerEntry → ℤ
  released none = pos 0
  released (some e) = if p e.kind then e.amount else pos 0

  -- The refund of an entry takes its amount out of the total that it counts in.
  pub sum-refunded :
      (w m : Ledger) (t : String)
      → ((i : String) → is_refunded i (w ++ m) ≡ (is_refunded i w || (t == i)))
      → is_refunded t w ≡ false
      → (l : Ledger) → IsUnique l
      → sum_counted p (w ++ m) l +ℤ released (find t l) ≡ sum_counted p w l
  unfolding find
  sum-refunded w m t h n [] u = +ℤ_zero (pos 0)
  sum-refunded w m t h n (x ∷ l) u = elim (==_cases x.id t) [
    | inl (q, b) ↦
        let rest = sum-refunded w m t h n l u.1 in
        let gone : find t l ≡ none = subst (λ i. find i l ≡ none) q u.0 in
        ground (
          arith,
          h x.id,
          b,
          gone,
          rest,
          ==_iff t x.id,
          q,
          +ℤ_comm x.amount (sum_counted p w l),
          +ℤ_zero (sum_counted p (w ++ m) l),
        )
    | inr (q, b) ↦ ground (
      arith,
      h x.id,
      b,
      sum-refunded w m t h n l u.1,
      ==_iff t x.id,
      +ℤ_assoc x.amount (sum_counted p (w ++ m) l) (released (find t l)),
    )
  ]
