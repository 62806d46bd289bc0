-- ===== src/Sim/Ledger/Once.antt =====
-- An entry is refunded once: the ledger keeps its history, and so the refusal of a second refund.
use mathlib.Core.Path.{subst}
use builder_league.Prelude.{
  ==_refl, >>=-eq-ok, Bool, Bool-cases, List, Option, String, [], arith, err, false, inl, inr, none,
  ok, or_raise, raise_if, refl, some, sym, true, ◌++◌, ◌∷◌, ◌≡◌, nat_eq, string_eq,
}
use builder_league.Sim.Ledger.{
  Kind, Ledger, LedgerEntry, Made, already_refunded, append, find, is_refund, is_refunded,
  place_refund, refund, refund_of_refund, unknown_entry,
}
use builder_league.Sim.Ledger.Totals.{find-append, is_refunded-append}
use builder_league.Sim.Ledger.Calls.{
  Call, Posts, after, call, call-Posts, id_of, posted, raised, run,
}
use builder_league.Prelude.Int.{leb_ℤ, pos, ℤ}

-- A second refund of the entry is refused.
abbrev pub IsSettled : String → Ledger → Type 0
IsSettled t l =
    (is_refunded t l ≡ true)
    × ((e : LedgerEntry) × (find t l ≡ some e) × (is_refund e.kind ≡ false))

IsSettled-append : (t : String) (l m : Ledger) → IsSettled t l → IsSettled t (l ++ m)
IsSettled-append t l m (r, (e, f, k)) =
    (ground (arith, is_refunded-append t l m, r), (e, find-append t l m e f, k))

IsSettled-after :
    (t i : String) (l : Ledger) (r : Made) → IsSettled t l → Posts l i r → IsSettled t (after l r)
IsSettled-after t i l _ s (raised x) = s
IsSettled-after t i l _ s (posted e p) = IsSettled-append t l (e ∷ []) s

IsSettled-run : (t : String) (l : Ledger) (cs : List Call) → IsSettled t l → IsSettled t (run l cs)
unfolding run
IsSettled-run t l [] s = s
IsSettled-run t l (c ∷ cs) s =
    IsSettled-run t (after l (call c l)) cs
      (IsSettled-after t (id_of c) l (call c l) s (call-Posts c l))

IsSettled-refuses :
    (id ts t agent_key reference : String) (l : Ledger)
    → IsSettled t l
    → place_refund id ts t agent_key reference l ≡ err (already_refunded t)
unfolding place_refund
IsSettled-refuses id ts t agent_key reference l (r, (e, f, k)) = rw (f, k, r) refl

append-ok :
    (id ts : String) (kind : Kind) (agent_key : String) (amount : ℤ) (reference : String)
    (c : Option String) (l m : Ledger) (x : LedgerEntry)
    → append id ts kind agent_key amount reference c l ≡ ok (x, m)
    → (m ≡ l ++ (x ∷ [])) × (x.kind ≡ kind) × (x.compensates ≡ c)
unfolding append
append-ok id ts kind agent_key amount reference c l m x h =
    elim (Bool-cases (leb_ℤ amount (pos 0))) [ inl b ↦ ground arith | inr b ↦ ground arith ]

raise_if-ok : {E : Type 0} (b : Bool) (e : E) (u : Unit {0}) → raise_if b e ≡ ok u → b ≡ false
raise_if-ok true e u h = cc
raise_if-ok false e u h = refl

or_raise-ok : {E A : Type 0} (o : Option A) (e : E) (a : A) → or_raise o e ≡ ok a → o ≡ some a
or_raise-ok none e a h = cc
or_raise-ok (some b) e a h = cc

-- A refund that succeeded settles its target.
refund-settles :
    (id ts t agent_key reference : String) (l m : Ledger) (x : LedgerEntry)
    → place_refund id ts t agent_key reference l ≡ ok (x, m)
    → IsSettled t m
unfolding place_refund is_refunded
refund-settles id ts t agent_key reference l m x h =
    let (e, fe, h1) = >>=-eq-ok (or_raise (find t l) (unknown_entry t)) _ h in
    let (u, k, h2) = >>=-eq-ok (raise_if (is_refund e.kind) refund_of_refund) _ h1 in
    let (w, r, h3) = >>=-eq-ok (raise_if (is_refunded t l) (already_refunded t)) _ h2 in
    let (q, kx, c) = append-ok id ts refund agent_key e.amount reference (some t) l m x h3 in
    subst (IsSettled t) (sym q) (
      ground (arith, is_refunded-append t l (x ∷ []), kx, c, ==_refl t),
      (
        e,
        find-append t l (x ∷ []) e (or_raise-ok (find t l) (unknown_entry t) e fe),
        raise_if-ok (is_refund e.kind) refund_of_refund u k,
      ),
    )

-- After a refund that succeeded, no sequence of calls makes the ledger accept another refund of the
-- same entry: it raises that the entry is already refunded.
pub refund_once :
    (id ts t agent_key reference : String) (l m : Ledger) (x : LedgerEntry)
    → place_refund id ts t agent_key reference l ≡ ok (x, m)
    → (cs : List Call) (id2 ts2 agent2 reference2 : String)
    → place_refund id2 ts2 t agent2 reference2 (run m cs) ≡ err (already_refunded t)
refund_once id ts t agent_key reference l m x h cs id2 ts2 agent2 reference2 =
    IsSettled-refuses id2 ts2 t agent2 reference2 (run m cs)
      (IsSettled-run t m cs (refund-settles id ts t agent_key reference l m x h))
