-- ===== src/Sim/Ledger/Calls.antt =====
-- Sequences of calls of the ledger. A call that raises leaves the ledger as it was.
use builder_league.Prelude.{
  ==_iff, Bool-cases, List, Option-cases, String, [], ap, arith, err, false, inl, inr, none, ok,
  refl, some, sym, true, ◌++◌, ◌∙◌, ◌∷◌, ◌≡◌, ◌⊎◌, nat_eq, string_eq,
}
use builder_league.Prelude.Int.{leb_ℤ, ltb_ℤ, pos, ℤ}
use builder_league.Sim.Ledger.{
  Kind, Ledger, LedgerEntry, LedgerError, Made, already_refunded, append, find, hold, is_refund,
  is_refunded, not_positive, place_hold, place_refund, place_spend, refund, refund_of_refund, spend,
  unknown_entry,
}

pub data Call : Type 0 where
  spends : String → String → String → ℤ → String → Call
  holds : String → String → String → ℤ → String → Call
  refunds : String → String → String → String → String → Call

-- the identifier that the call draws
abbrev pub id_of : Call → String
id_of (spends id ts agent_key amount reference) = id
id_of (holds id ts agent_key amount reference) = id
id_of (refunds id ts target agent_key reference) = id

unfoldable pub call : Call → Ledger → Made
unfolding place_spend place_hold place_refund
call (spends id ts agent_key amount reference) l = place_spend id ts agent_key amount reference l
call (holds id ts agent_key amount reference) l = place_hold id ts agent_key amount reference l
call (refunds id ts target agent_key reference) l = place_refund id ts target agent_key reference l

abbrev pub after : Ledger → Made → Ledger
after l (ok (e, m)) = m
after l (err x) = l

unfoldable pub run : Ledger → List Call → Ledger
unfolding call
run l [] = l
run l (c ∷ cs) = run (after l (call c l)) cs

-- What an entry that is about to be posted looks like.
pub record IsPosting (l : Ledger) (i : String) (e : LedgerEntry) : Type 0 where
  pub named : e.id ≡ i
  pub positive : ltb_ℤ (pos 0) e.amount ≡ true
  pub link :
      ((e.compensates ≡ none) × (is_refund e.kind ≡ false))
      ⊎ ((t : LedgerEntry) × (e.kind ≡ refund)
          × (e.compensates ≡ some t.id)
          × (find t.id l ≡ some t)
          × (is_refund t.kind ≡ false)
          × (is_refunded t.id l ≡ false)
          × (e.amount ≡ t.amount))

-- A call raises, or posts one entry at the end.
pub data Posts (l : Ledger) (i : String) : Made → Type 0 where
  raised : (x : LedgerError) → Posts l i (err x)
  posted : (e : LedgerEntry) → IsPosting l i e → Posts l i (ok (e, l ++ (e ∷ [])))

append-Posts :
    (id ts : String) (kind : Kind) (agent_key : String) (amount : ℤ) (reference : String)
    (l : Ledger)
    → is_refund kind ≡ false
    → Posts l id (append id ts kind agent_key amount reference none l)
unfolding append
append-Posts id ts kind agent_key amount reference l k = elim (Bool-cases (leb_ℤ amount (pos 0))) [
  | inl b ↦ rw b (raised (not_positive kind amount))
  | inr b ↦ rw b (posted _ (record { named = refl; positive = ground arith; link = inl (refl, k) }))
]

find-id : (i : String) (l : Ledger) (e : LedgerEntry) → find i l ≡ some e → e.id ≡ i
unfolding find
find-id i [] e h = cc
find-id i (x ∷ l) e h = ground (arith, find-id i l e, ==_iff x.id i)

refund-Posts :
    (id ts target agent_key reference : String) (l : Ledger) (t : LedgerEntry)
    → find target l ≡ some t
    → t.id ≡ target
    → is_refund t.kind ≡ false
    → is_refunded target l ≡ false
    → Posts l id (append id ts refund agent_key t.amount reference (some target) l)
unfolding append
refund-Posts id ts target agent_key reference l t f i k r =
    elim (Bool-cases (leb_ℤ t.amount (pos 0))) [
      | inl b ↦ rw b (raised (not_positive refund t.amount))
      | inr b ↦ rw b (
          posted _ (record {
            named = refl;
            positive = ground arith;
            link = inr (
              t,
              refl,
              ap some (sym i),
              ap (λ j. find j l) i ∙ f,
              k,
              ap (λ j. is_refunded j l) i ∙ r,
              refl,
            );
          }))
    ]

pub call-Posts : (c : Call) (l : Ledger) → Posts l (id_of c) (call c l)
unfolding call place_spend place_hold place_refund
call-Posts (spends id ts agent_key amount reference) l =
    append-Posts id ts spend agent_key amount reference l refl
call-Posts (holds id ts agent_key amount reference) l =
    append-Posts id ts hold agent_key amount reference l refl
call-Posts (refunds id ts target agent_key reference) l = elim (Option-cases (find target l)) [
  | inl n ↦ rw n (raised (unknown_entry target))
  | inr (t, q) ↦ elim (Bool-cases (is_refund t.kind)) [
    | inl k ↦ rw (q, k) (raised refund_of_refund)
    | inr k ↦ elim (Bool-cases (is_refunded target l)) [
      | inl r ↦ rw (q, k, r) (raised (already_refunded target))
      | inr r ↦
          rw (q, k, r)
            (refund-Posts id ts target agent_key reference l t q (find-id target l t q) k r)
    ]
  ]
]
