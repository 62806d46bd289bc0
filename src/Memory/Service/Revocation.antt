-- ===== src/Memory/Service/Revocation.antt =====
-- What a signed request to forget a fact forgets.
use mathlib.Core.Path.{subst}
use builder_league.Prelude.{
  ==_cases, ==_refl, Bool, Bool-cases, List, Option, String, [], any-append, ap, arith, err, false,
  inl, inr, none, ok, refl, some, sym, true, ℕ, ◌==◌, ◌||◌, ◌∙◌, ◌∷◌, ◌≡◌, ◌⊎◌, nat_eq, string_eq,
}
use builder_league.Prelude.Dict.{Dict, lookup, values}
use builder_league.Trust.Crypto.{Crypto, IsLawful, sign_payload, verify_payload}
use builder_league.Memory.Facts.{Fact, bad_revocation}
use builder_league.Memory.Forgetting.{Tombstone, among, revoked}
use builder_league.Memory.Forgetting.Cascade.{
  Derives, cascaded_forgets-exact, is_linked, itself, through,
}
use builder_league.Memory.Store.{Memory, bury, is_forgotten, place, sorted, tombstone_of}
use builder_league.Memory.Service.{
  doomed_by, forget, forget_all, forget_derived, forget_detail, forget_found, forget_one,
  revocation,
}

among-place : (i x : String) (ys : List String) → among i (place x ys) ≡ ((x == i) || among i ys)
among-place i x [] = ground arith
among-place i x (y ∷ ys) = ground (arith, among-place i x ys)

among-sorted : (i : String) (xs : List String) → among i (sorted xs) ≡ among i xs
unfolding sorted
among-sorted i [] = refl
among-sorted i (x ∷ xs) = among-place i x (sorted xs) ∙ ap (λ b. (x == i) || b) (among-sorted i xs)

module _ (c : Crypto) (now : ℕ) (fact_id reason : String) where
  -- the facts stay, and what is forgotten stays forgotten
  forget_found-keeps :
      (fid i : String) (o : Option Fact) (b : Bool) (m : Memory c)
      → ((forget_found c now fact_id reason fid o b m).1.facts ≡ m.facts)
        × (is_forgotten m.tombstones i ≡ true
            → is_forgotten (forget_found c now fact_id reason fid o b m).1.tombstones i ≡ true)
  unfolding forget_found is_forgotten bury
  forget_found-keeps fid i none b m = (refl, λ h. h)
  forget_found-keeps fid i (some f) true m = (refl, λ h. h)
  forget_found-keeps fid i (some f) false m =
      let t = tombstone_of now f revoked (forget_detail c fact_id reason fid) in
      (refl, λ h. ground (arith, any-append (λ x. x.fact_id == i) m.tombstones (t ∷ []), h))

  forget_one-keeps :
      (fid i : String) (m : Memory c)
      → ((forget_one c now fact_id reason fid m).1.facts ≡ m.facts)
        × (is_forgotten m.tombstones i ≡ true
            → is_forgotten (forget_one c now fact_id reason fid m).1.tombstones i ≡ true)
  unfolding forget_one
  forget_one-keeps fid i m =
      forget_found-keeps fid i (lookup fid m.facts) (is_forgotten m.tombstones fid) m

  forget_found-forgets :
      (fid : String) (f : Fact) (b : Bool) (m : Memory c)
      → is_forgotten m.tombstones fid ≡ b
      → f.id ≡ fid
      → is_forgotten (forget_found c now fact_id reason fid (some f) b m).1.tombstones fid ≡ true
  unfolding forget_found is_forgotten bury
  forget_found-forgets fid f true m q e = q
  forget_found-forgets fid f false m q e =
      let t = tombstone_of now f revoked (forget_detail c fact_id reason fid) in
      ground (arith, any-append (λ x. x.fact_id == fid) m.tombstones (t ∷ []), e, ==_refl fid)

  forget_one-forgets :
      (fid : String) (f : Fact) (m : Memory c)
      → lookup fid m.facts ≡ some f
      → f.id ≡ fid
      → is_forgotten (forget_one c now fact_id reason fid m).1.tombstones fid ≡ true
  unfolding forget_one
  forget_one-forgets fid f m q e =
      subst
        (λ o.
          is_forgotten
            (forget_found c now fact_id reason fid o (is_forgotten m.tombstones fid) m).1.tombstones
            fid
          ≡ true)
        (sym q) (forget_found-forgets fid f (is_forgotten m.tombstones fid) m refl e)

  forget_all-keeps :
      (fids : List String) (i : String) (m : Memory c)
      → ((forget_all c now fact_id reason fids m).1.facts ≡ m.facts)
        × (is_forgotten m.tombstones i ≡ true
            → is_forgotten (forget_all c now fact_id reason fids m).1.tombstones i ≡ true)
  unfolding forget_all
  forget_all-keeps [] i m = (refl, λ h. h)
  forget_all-keeps (fid ∷ fids) i m =
      let (e, h) = forget_one-keeps fid i m in
      let (e2, h2) = forget_all-keeps fids i (forget_one c now fact_id reason fid m).1 in
      (e2 ∙ e, λ x. h2 (h x))

  forget_all-forgets :
      (fids : List String) (i : String) (f : Fact) (m : Memory c)
      → among i fids ≡ true
      → lookup i m.facts ≡ some f
      → f.id ≡ i
      → is_forgotten (forget_all c now fact_id reason fids m).1.tombstones i ≡ true
  unfolding forget_all
  forget_all-forgets [] i f m a q e = cc
  forget_all-forgets (fid ∷ fids) i f m a q e = elim (==_cases fid i) [
    | inl (x, b) ↦ (forget_all-keeps fids i (forget_one c now fact_id reason fid m).1).1 (
        subst (λ j. is_forgotten (forget_one c now fact_id reason j m).1.tombstones i ≡ true)
          (sym x) (forget_one-forgets i f m q e))
    | inr (x, b) ↦
        forget_all-forgets fids i f (forget_one c now fact_id reason fid m).1 (ground (arith, a, b))
          (ap (lookup i) (forget_one-keeps fid i m).0 ∙ q) e
  ]

-- every fact stands under its own identifier
abbrev pub IsKeyed : Dict String Fact → Type 0
IsKeyed facts = (i : String) (f : Fact) → lookup i facts ≡ some f → f.id ≡ i

module _ (c : Crypto) (now : ℕ) (fact_id reason : String) where
  -- nothing else is forgotten
  forget_found-only :
      (fid x : String) (o : Option Fact) (b : Bool) (m : Memory c)
      → ((f : Fact) → o ≡ some f → f.id ≡ fid)
      → is_forgotten (forget_found c now fact_id reason fid o b m).1.tombstones x ≡ true
      → (is_forgotten m.tombstones x ≡ true) ⊎ ((fid == x) ≡ true)
  unfolding forget_found is_forgotten bury
  forget_found-only fid x none b m h q = inl q
  forget_found-only fid x (some f) true m h q = inl q
  forget_found-only fid x (some f) false m h q = elim (Bool-cases (is_forgotten m.tombstones x)) [
    | inl e ↦ inl e
    | inr e ↦
        let t = tombstone_of now f revoked (forget_detail c fact_id reason fid) in
        inr (ground (arith, any-append (λ y. y.fact_id == x) m.tombstones (t ∷ []), e, q, h f refl))
  ]

  forget_one-only :
      (fid x : String) (m : Memory c)
      → IsKeyed m.facts
      → is_forgotten (forget_one c now fact_id reason fid m).1.tombstones x ≡ true
      → (is_forgotten m.tombstones x ≡ true) ⊎ ((fid == x) ≡ true)
  unfolding forget_one
  forget_one-only fid x m k q =
      forget_found-only fid x (lookup fid m.facts) (is_forgotten m.tombstones fid) m (k fid) q

  forget_all-only :
      (fids : List String) (x : String) (m : Memory c)
      → IsKeyed m.facts
      → is_forgotten (forget_all c now fact_id reason fids m).1.tombstones x ≡ true
      → (is_forgotten m.tombstones x ≡ true) ⊎ (among x fids ≡ true)
  unfolding forget_all
  forget_all-only [] x m k q = inl q
  forget_all-only (fid ∷ fids) x m k q =
      let n = (forget_one c now fact_id reason fid m).1 in
      let kept : n.facts ≡ m.facts = (forget_one-keeps c now fact_id reason fid x m).0 in
      elim (forget_all-only fids x n (subst IsKeyed (sym kept) k) q) [
        | inr e ↦ inr (ground (arith, e))
        | inl e ↦ elim (forget_one-only fid x m k e) [
          | inl b ↦ inl b
          | inr b ↦ inr (ground (arith, b))
        ]
      ]

-- a closed set with the root has all that is derived from it
closed-among :
    (facts : List Fact) (root i : String) (doomed : List String)
    → among root doomed ≡ true
    → ((p j : String) → among p doomed ≡ true → is_linked facts p j ≡ true → among j doomed ≡ true)
    → Derives facts root i
    → among i doomed ≡ true
closed-among facts root _ doomed r closed itself = r
closed-among facts root _ doomed r closed (through p j h l) =
    closed p j (closed-among facts root p doomed r closed h) l

derived-doomed :
    (c : Crypto) (root i : String) (m : Memory c)
    → Derives (values m.facts) root i
    → among i (doomed_by c root m) ≡ true
unfolding doomed_by
derived-doomed c root i m d =
    let (doomed, q, r, closed, derived) = cascaded_forgets-exact root (values m.facts) in
    subst (λ o. among i (elim o [ none ↦ [] | some ds ↦ ds ]) ≡ true) (sym q)
      (closed-among (values m.facts) root i doomed r closed d)

doomed-derived :
    (c : Crypto) (root i : String) (m : Memory c)
    → among i (doomed_by c root m) ≡ true
    → Derives (values m.facts) root i
unfolding doomed_by
doomed-derived c root i m =
    let (doomed, q, r, closed, derived) = cascaded_forgets-exact root (values m.facts) in
    subst
      (λ o. among i (elim o [ none ↦ [] | some ds ↦ ds ]) ≡ true → Derives (values m.facts) root i)
      (sym q) (derived i)

-- A request to forget a stored fact that carries any public key at all, where facts stand under their own
-- identifiers. If the signature does not verify under that key, the request is refused. If it is made with
-- the key pair of that key, the request succeeds, whoever holds the pair and whichever user the fact is of:
-- every stored fact that is derived from the fact in any number of steps is forgotten, the fact itself
-- included, and nothing else that was not forgotten before.
pub forget_cascades :
    (c : Crypto) (k : c.KeyPair) (event_id fact_id reason : String) (now : ℕ) (bad : c.Signature)
    (m : Memory c) (fact : Fact)
    → IsLawful c
    → IsKeyed m.facts
    → lookup fact_id m.facts ≡ some fact
    → verify_payload c (c.public_key k) (revocation c fact_id reason) bad ≡ false
    → (forget c event_id now fact_id (c.public_key k) bad reason m ≡ err bad_revocation)
      × ((written : List Tombstone) × (n : Memory c) × (forget c event_id now fact_id
              (c.public_key k)
              (sign_payload c k (revocation c fact_id reason))
              reason
              m
            ≡ ok (written, n))
          × ((i : String) (f : Fact)
              → lookup i m.facts ≡ some f
              → Derives (values m.facts) fact_id i
              → is_forgotten n.tombstones i ≡ true)
          × ((i : String)
              → is_forgotten n.tombstones i ≡ true
              → (is_forgotten m.tombstones i ≡ true) ⊎ Derives (values m.facts) fact_id i))
unfolding forget forget_derived sign_payload verify_payload
forget_cascades c k event_id fact_id reason now bad m fact law filed g b =
    let signed = law.accepts k (c.canonical (revocation c fact_id reason)) in
    let done = forget_derived c event_id now fact_id reason fact m in
    let fids = sorted (doomed_by c fact_id m) in
    (
      rw b refl,
      (
        done.0,
        done.1,
        rw (signed, g) refl,
        λ i f q d.
            forget_all-forgets c now fact_id reason fids i f m
              (among-sorted i (doomed_by c fact_id m) ∙ derived-doomed c fact_id i m d) q
              (filed i f q),
        λ i h. elim (forget_all-only c now fact_id reason fids i m filed h) [
          | inl e ↦ inl e
          | inr e ↦
              inr (doomed-derived c fact_id i m (sym (among-sorted i (doomed_by c fact_id m)) ∙ e))
        ],
      ),
    )
