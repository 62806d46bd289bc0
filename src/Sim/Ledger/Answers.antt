-- ===== src/Sim/Ledger/Answers.antt =====
-- What a call of the ledger answers, read off the call: the amount that it posts, or why it raises.
use builder_league.Prelude.{
  Bool, Bool-cases, Option-cases, String, arith, err, false, inl, inr, ok, refl, some, true, ◌||◌,
  ◌≡◌,
}
use builder_league.Prelude.Int.{leb_ℤ, pos}
use builder_league.Sim.Ledger.{
  Ledger, LedgerEntry, Made, append, find, is_refund, is_refunded, place_hold, place_refund,
  place_spend,
}
use builder_league.Sim.Ledger.Calls.{Call, call, holds, refunds, spends}

-- why a refund of an entry may raise
abbrev pub is_unrefundable : String → Ledger → LedgerEntry → Bool
is_unrefundable target l t = is_refund t.kind || (is_refunded target l || leb_ℤ t.amount (pos 0))

abbrev pub IsAnswer : Ledger → Call → Made → Type 0
IsAnswer l (spends id ts agent_key amount reference) (ok (e, m)) =
    (e.amount ≡ amount) × (is_refund e.kind ≡ false)
IsAnswer l (spends id ts agent_key amount reference) (err x) = leb_ℤ amount (pos 0) ≡ true
IsAnswer l (holds id ts agent_key amount reference) (ok (e, m)) =
    (e.amount ≡ amount) × (is_refund e.kind ≡ false)
IsAnswer l (holds id ts agent_key amount reference) (err x) = leb_ℤ amount (pos 0) ≡ true
IsAnswer l (refunds id ts target agent_key reference) (ok (e, m)) =
    (t : LedgerEntry) × (find target l ≡ some t) × (e.amount ≡ t.amount) × (is_refund e.kind ≡ true)
IsAnswer l (refunds id ts target agent_key reference) (err x) =
    (t : LedgerEntry) → find target l ≡ some t → is_unrefundable target l t ≡ true

refund-IsAnswer :
    (id ts target agent_key reference : String) (l : Ledger)
    → IsAnswer l
        (refunds id ts target agent_key reference)
        (place_refund id ts target agent_key reference l)
unfolding place_refund append
refund-IsAnswer id ts target agent_key reference l = elim (Option-cases (find target l)) [
  | inl n ↦ rw n (λ t q. cc)
  | inr (t, q) ↦ elim (Bool-cases (is_refund t.kind)) [
    | inl k ↦ rw (q, k) (λ u p. ground (arith, p, k))
    | inr k ↦ elim (Bool-cases (is_refunded target l)) [
      | inl r ↦ rw (q, k, r) (λ u p. ground (arith, p, k, r))
      | inr r ↦ elim (Bool-cases (leb_ℤ t.amount (pos 0))) [
        | inl b ↦ rw (q, k, r, b) (λ u p. ground (arith, p, k, r, b))
        | inr b ↦ rw (q, k, r, b) (t, q, refl, refl)
      ]
    ]
  ]
]

pub call-IsAnswer : (l : Ledger) (c : Call) → IsAnswer l c (call c l)
unfolding call place_spend place_hold append
call-IsAnswer l (spends id ts agent_key amount reference) =
    elim (Bool-cases (leb_ℤ amount (pos 0))) [ inl b ↦ rw b b | inr b ↦ rw b (refl, refl) ]
call-IsAnswer l (holds id ts agent_key amount reference) =
    elim (Bool-cases (leb_ℤ amount (pos 0))) [ inl b ↦ rw b b | inr b ↦ rw b (refl, refl) ]
call-IsAnswer l (refunds id ts target agent_key reference) =
    refund-IsAnswer id ts target agent_key reference l
