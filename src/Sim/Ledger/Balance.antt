-- ===== src/Sim/Ledger/Balance.antt =====
-- What a call does to the projected balance.
use mathlib.Core.Path.{subst}
use builder_league.Prelude.{
  All, Bool, Bool-cases, String, [], ap, arith, err, false, if◌then◌else◌, inl, inr, none, ok, refl,
  some, sym, true, ◌++◌, ◌∙◌, ◌∷◌, ◌≡◌,
}
use builder_league.Prelude.Int.{
  +ℤ_assoc, +ℤ_comm, +ℤ_parts, +ℤ_zero, leb_ℤ, ltb_ℤ, neg_part, pos, pos_part, ℤ, ◌+ℤ◌, ◌≤ℤ◌,
}
use builder_league.Sim.Ledger.{
  Kind, Ledger, LedgerEntry, Made, active_holds_total, find, hold, invariant_violations, is_hold,
  is_refund, is_refunded, is_spend, projected_balance, refund, spend, spent_total, sum_counted,
}
use builder_league.Sim.Ledger.Totals.{sum-append, sum-kept, sum-refunded}
use builder_league.Sim.Ledger.Integrity.{IsFresh, IsValid, is_refunded-plain, is_refunded-refund}
use builder_league.Sim.Ledger.Answers.{IsAnswer, call-IsAnswer, is_unrefundable}
use builder_league.Sim.Ledger.Calls.{
  Call, Posts, after, call, call-Posts, holds, id_of, posted, raised, refunds, spends,
}

-- what a posted entry means for the balance: a spend or a hold adds its amount, a refund takes out the
-- amount that it gives back
abbrev Adds : Bool → ℤ → ℤ → ℤ → Type 0
Adds true amount before now = now +ℤ amount ≡ before
Adds false amount before now = now ≡ before +ℤ amount

abbrev IsPosted : Ledger → Made → Type 0
IsPosted l (err x) = Unit
IsPosted l (ok (e, m)) =
    Adds (is_refund e.kind) e.amount (projected_balance l) (projected_balance m)

module _ (l : Ledger) (e : LedgerEntry) (v : IsValid l) (new : find e.id l ≡ none) where
  not_refunded : is_refunded e.id l ≡ false
  not_refunded = elim (Bool-cases (is_refunded e.id l)) [
    | inl r ↦ absurd (v.targets e.id r new)
    | inr r ↦ r
  ]

  total_plain :
      (p : Kind → Bool)
      → e.compensates ≡ none
      → sum_counted p (l ++ (e ∷ [])) (l ++ (e ∷ []))
        ≡ sum_counted p l l +ℤ (if p e.kind then e.amount else pos 0)
  total_plain p n = ground (
    arith,
    sum-append p (l ++ (e ∷ [])) l e,
    is_refunded-plain l e n e.id,
    not_refunded,
    sum-kept p l (e ∷ []) l (λ x. is_refunded-plain l e n x.id),
  )

  plain_balance :
      e.compensates ≡ none
      → is_refund e.kind ≡ false
      → projected_balance (l ++ (e ∷ [])) ≡ projected_balance l +ℤ e.amount
  unfolding projected_balance spent_total active_holds_total
  plain_balance n k =
      rw (total_plain is_spend n, total_plain is_hold n)
        (split_plain e.kind (sum_counted is_spend l l) (sum_counted is_hold l l) k)
    where
      split_plain :
          (kind : Kind) (a b : ℤ)
          → is_refund kind ≡ false
          → (a +ℤ (if is_spend kind then e.amount else pos 0))
              +ℤ (b +ℤ (if is_hold kind then e.amount else pos 0))
            ≡ (a +ℤ b) +ℤ e.amount
      split_plain hold a b h = ground (arith, +ℤ_zero a, +ℤ_assoc a b e.amount)
      split_plain spend a b h =
          ground
            (arith, +ℤ_zero b, +ℤ_assoc a e.amount b, +ℤ_assoc a b e.amount, +ℤ_comm b e.amount)
      split_plain refund a b h = cc

  total_refunded :
      (p : Kind → Bool) (t : LedgerEntry)
      → p refund ≡ false
      → e.kind ≡ refund
      → e.compensates ≡ some t.id
      → find t.id l ≡ some t
      → is_refunded t.id l ≡ false
      → sum_counted p (l ++ (e ∷ [])) (l ++ (e ∷ [])) +ℤ (if p t.kind then t.amount else pos 0)
        ≡ sum_counted p l l
  total_refunded p t np k c f r = ground (
    arith,
    sum-append p (l ++ (e ∷ [])) l e,
    k,
    f,
    np,
    +ℤ_zero (sum_counted p (l ++ (e ∷ [])) l),
    sum-refunded p l (e ∷ []) t.id (is_refunded-refund l e t.id k c) r l v.unique,
  )

  refund_balance :
      (t : LedgerEntry)
      → e.kind ≡ refund
      → e.compensates ≡ some t.id
      → find t.id l ≡ some t
      → is_refund t.kind ≡ false
      → is_refunded t.id l ≡ false
      → projected_balance (l ++ (e ∷ [])) +ℤ t.amount ≡ projected_balance l
  unfolding projected_balance spent_total active_holds_total
  refund_balance t k c f kt r =
      rw (sym (total_refunded is_spend t refl k c f r), sym (total_refunded is_hold t refl k c f r))
        (split t.kind (sum_counted is_spend (l ++ (e ∷ [])) (l ++ (e ∷ [])))
          (sum_counted is_hold (l ++ (e ∷ [])) (l ++ (e ∷ []))) kt)
    where
      split :
          (kind : Kind) (a b : ℤ)
          → is_refund kind ≡ false
          → (a +ℤ b) +ℤ t.amount
            ≡ (a +ℤ (if is_spend kind then t.amount else pos 0))
              +ℤ (b +ℤ (if is_hold kind then t.amount else pos 0))
      split hold a b h = ground (arith, +ℤ_zero a, +ℤ_assoc a b t.amount)
      split spend a b h =
          ground
            (arith, +ℤ_zero b, +ℤ_assoc a t.amount b, +ℤ_assoc a b t.amount, +ℤ_comm b t.amount)
      split refund a b h = cc

module _ (a before now : ℤ) where
  raised_by : (b : Bool) → b ≡ false → now ≡ before +ℤ a → Adds b a before now
  raised_by true h e = cc
  raised_by false h e = e

  lowered_by : (b : Bool) → b ≡ true → now +ℤ a ≡ before → Adds b a before now
  lowered_by true h e = e
  lowered_by false h e = cc

posts-IsPosted :
    (l : Ledger) (i : String) (r : Made) → IsValid l → find i l ≡ none → Posts l i r → IsPosted l r
posts-IsPosted l i _ v f (raised x) = tt
posts-IsPosted l i _ v f (posted e p) = elim p.link [
  | inl (n, k) ↦
      raised_by e.amount (projected_balance l) (projected_balance (l ++ (e ∷ [])))
        (is_refund e.kind) k (plain_balance l e v (ap (λ j. find j l) p.named ∙ f) n k)
  | inr (t, k, c, q, kt, r, am) ↦
      lowered_by e.amount (projected_balance l) (projected_balance (l ++ (e ∷ [])))
        (is_refund e.kind) (ap is_refund k)
        (ap (λ a. projected_balance (l ++ (e ∷ [])) +ℤ a) am
          ∙ refund_balance l e v (ap (λ j. find j l) p.named ∙ f) t k c q kt r)
]

-- What a call does to the balance. A spend or a hold of an amount raises it by that amount, and is refused
-- only if the amount is not positive. A refund lowers it by the amount of the entry that it names, and is
-- refused only if there is no such entry, if that is a refund, is refunded already or has no positive
-- amount.
abbrev pub IsBalanced : Ledger → Call → Made → Type 0
IsBalanced l (spends id ts agent_key amount reference) (ok (e, m)) =
    projected_balance m ≡ projected_balance l +ℤ amount
IsBalanced l (holds id ts agent_key amount reference) (ok (e, m)) =
    projected_balance m ≡ projected_balance l +ℤ amount
IsBalanced l (refunds id ts target agent_key reference) (ok (e, m)) =
    (t : LedgerEntry) × (find target l ≡ some t)
    × (projected_balance m +ℤ t.amount ≡ projected_balance l)
IsBalanced l (spends id ts agent_key amount reference) (err x) = leb_ℤ amount (pos 0) ≡ true
IsBalanced l (holds id ts agent_key amount reference) (err x) = leb_ℤ amount (pos 0) ≡ true
IsBalanced l (refunds id ts target agent_key reference) (err x) =
    (t : LedgerEntry) → find target l ≡ some t → is_unrefundable target l t ≡ true

module _ (l m : Ledger) where
  rises :
      (k : Bool) (a b : ℤ)
      → a ≡ b
      → k ≡ false
      → Adds k a (projected_balance l) (projected_balance m)
      → projected_balance m ≡ projected_balance l +ℤ b
  rises true a b e f h = cc
  rises false a b e f h = h ∙ ap (λ x. projected_balance l +ℤ x) e

  falls :
      (k : Bool) (a b : ℤ)
      → a ≡ b
      → k ≡ true
      → Adds k a (projected_balance l) (projected_balance m)
      → projected_balance m +ℤ b ≡ projected_balance l
  falls true a b e f h = ap (λ x. projected_balance m +ℤ x) (sym e) ∙ h
  falls false a b e f h = cc

balance_of : (l : Ledger) (c : Call) (r : Made) → IsAnswer l c r → IsPosted l r → IsBalanced l c r
balance_of l (spends id ts agent_key amount reference) (ok (e, m)) (a, k) h =
    rises l m (is_refund e.kind) e.amount amount a k h
balance_of l (holds id ts agent_key amount reference) (ok (e, m)) (a, k) h =
    rises l m (is_refund e.kind) e.amount amount a k h
balance_of l (refunds id ts target agent_key reference) (ok (e, m)) (t, q, a, k) h =
    (t, q, falls l m (is_refund e.kind) e.amount t.amount a k h)
balance_of l (spends id ts agent_key amount reference) (err x) a h = a
balance_of l (holds id ts agent_key amount reference) (err x) a h = a
balance_of l (refunds id ts target agent_key reference) (err x) a h = a

call-IsPosted : (l : Ledger) (c : Call) → IsValid l → IsFresh l c → IsPosted l (call c l)
call-IsPosted l c v f = posts-IsPosted l (id_of c) (call c l) v f (call-Posts c l)

-- A call with a new identifier on a valid ledger: a spend or a hold raises the projected balance by the
-- amount that the call asks for, and raises an error only if that is not positive; a refund lowers it by
-- the amount of the entry that it names, and raises an error only if there is no such entry, it is itself a
-- refund, it is refunded already, or its amount is not positive.
pub call-IsBalanced : (l : Ledger) (c : Call) → IsValid l → IsFresh l c → IsBalanced l c (call c l)
call-IsBalanced l c v f = balance_of l c (call c l) (call-IsAnswer l c) (call-IsPosted l c v f)

-- What it takes to fit a limit: nothing for a refund, and for a spend or a hold that the balance and the
-- amount that the call asks for are within it.
abbrev pub Fits : ℤ → Ledger → Call → Type 0
Fits limit l (spends id ts agent_key amount reference) = projected_balance l +ℤ amount ≤ℤ limit
Fits limit l (holds id ts agent_key amount reference) = projected_balance l +ℤ amount ≤ℤ limit
Fits limit l (refunds id ts target agent_key reference) = Unit

within : (l : Ledger) (limit : ℤ) → projected_balance l ≤ℤ limit → invariant_violations l limit ≡ []
unfolding invariant_violations projected_balance
within l limit h = ground arith

within_of :
    (l : Ledger) (limit : ℤ) → invariant_violations l limit ≡ [] → projected_balance l ≤ℤ limit
unfolding invariant_violations projected_balance
within_of l limit h = ground arith

positive-find :
    (i : String) (l : Ledger) (t : LedgerEntry)
    → find i l ≡ some t
    → All (λ e. ltb_ℤ (pos 0) e.amount ≡ true) l
    → ltb_ℤ (pos 0) t.amount ≡ true
unfolding find
positive-find i [] t q h = cc
positive-find i (x ∷ l) t q (h, hs) = ground (arith, h, positive-find i l t, hs, q)

lowered_stays :
    (limit a b now : ℤ) → ltb_ℤ (pos 0) a ≡ true → now +ℤ a ≡ b → b ≤ℤ limit → now ≤ℤ limit
lowered_stays limit a b now p e h = ground (arith, +ℤ_parts now a, ap pos_part e, ap neg_part e)

balance_after :
    (limit : ℤ) (l : Ledger) (c : Call) (r : Made)
    → IsValid l
    → IsBalanced l c r
    → Fits limit l c
    → projected_balance l ≤ℤ limit
    → projected_balance (after l r) ≤ℤ limit
balance_after limit l c (err x) v b f h = h
balance_after limit l (spends id ts agent_key amount reference) (ok (e, m)) v b f h =
    subst (λ x. x ≤ℤ limit) (sym b) f
balance_after limit l (holds id ts agent_key amount reference) (ok (e, m)) v b f h =
    subst (λ x. x ≤ℤ limit) (sym b) f
balance_after limit l (refunds id ts target agent_key reference) (ok (e, m)) v (t, q, b) f h =
    lowered_stays limit t.amount (projected_balance l) (projected_balance m)
      (positive-find target l t q v.positive) b h

-- A call with a new identifier, on a valid ledger with no violation of the limit, leaves no violation if it
-- is a refund, or a spend or a hold whose amount, as the call asks for it, fits into the limit together
-- with the balance.
pub call_stays_in_limit :
    (l : Ledger) (c : Call) (limit : ℤ)
    → IsValid l
    → IsFresh l c
    → Fits limit l c
    → invariant_violations l limit ≡ []
    → invariant_violations (after l (call c l)) limit ≡ []
call_stays_in_limit l c limit v n f h =
    within (after l (call c l)) limit
      (balance_after limit l c (call c l) v (call-IsBalanced l c v n) f (within_of l limit h))
