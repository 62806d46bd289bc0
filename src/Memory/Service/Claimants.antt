-- ===== src/Memory/Service/Claimants.antt =====
-- At most one fact that is not forgotten claims a slot of a user and an agent.
use mathlib.Core.Path.{subst}
use builder_league.Prelude.{
  ==_cases, ==_iff, ==_refl, >>=-eq-ok, All, All-filter, Bool, Bool-cases, List, String, [],
  any-append, ap, arith, filter, filter-append, inl, inr, length, length-append, length-filter-le,
  none, not, ok, ok-inj, raise_if, refl, some, suc, sym, true, ℕ, ◌&&◌, ◌++◌, ◌==◌, ◌||◌, ◌∙◌, ◌∷◌,
  ◌≡◌, ◌≤◌, nat_eq, string_eq,
}
use builder_league.Prelude.Dict.{Dict, insert, insert-new, lookup, values, values-append}
use builder_league.Memory.Facts.{
  Fact, Provenance, Python, bad_ttl, is_bad_ttl, make_fact, scope_required, slot_required,
  value_required,
}
use builder_league.Memory.Forgetting.{Tombstone, contradicted, superseded}
use builder_league.Memory.Store.{
  Memory, bury, by_slot, claims, is_forgotten, note_event, save_fact, tombstone_of,
}
use builder_league.Memory.Service.{
  Claim, Learned, apply_outcome, champion, fact_of, learn, provenance_of, rivals, settle,
}
use builder_league.Prelude.Values.{Value}
use builder_league.Trust.Crypto.{Crypto}
use builder_league.Memory.Contradiction.{
  ConflictOutcome, contradiction, corroborate, reject_incoming, resolve_conflict, supersede,
}

-- a fact that is not forgotten
unfoldable pub is_live : List Tombstone → Fact → Bool
unfolding is_forgotten
is_live ts f = not (is_forgotten ts f.id)

-- the live facts of a slot
abbrev pub live : String → String → String → List Tombstone → Dict String Fact → List Fact
live user_id agent_id slot ts facts =
    filter (is_live ts) (filter (claims user_id agent_id slot) (values facts))

abbrev pub IsSettled : List Tombstone → Dict String Fact → Type 0
IsSettled ts facts =
    (user_id agent_id slot : String) → length (live user_id agent_id slot ts facts) ≤ 1

-- one more tombstone drops the facts of its identifier
filter-buried :
    (ts : List Tombstone) (t : Tombstone) (fs : List Fact)
    → filter (is_live (ts ++ (t ∷ []))) fs
      ≡ filter (λ f. not (t.fact_id == f.id)) (filter (is_live ts) fs)
unfolding is_live is_forgotten
filter-buried ts t [] = refl
filter-buried ts t (f ∷ fs) =
    ground (arith, filter-buried ts t fs, any-append (λ x. x.fact_id == f.id) ts (t ∷ []))

filter-both :
    (p q : Fact → Bool) (fs : List Fact) → filter p (filter q fs) ≡ filter (λ f. q f && p f) fs
filter-both p q [] = refl
filter-both p q (f ∷ fs) = ground (arith, filter-both p q fs)

-- to overwrite a fact by one that is judged alike keeps the number
length-overwritten :
    (p : Fact → Bool) (i : String) (old new : Fact) (facts : Dict String Fact)
    → lookup i facts ≡ some old
    → p new ≡ p old
    → length (filter p (values (insert i new facts))) ≡ length (filter p (values facts))
unfolding lookup insert
length-overwritten p i old new [] h q = cc
length-overwritten p i old new ((j, w) ∷ m) h q = elim (==_cases j i) [
  | inl (e, b) ↦ ground (arith, b, h, q)
  | inr (e, b) ↦ ground (arith, b, length-overwritten p i old new m (ground (arith, h, b)) q)
]

module _ (ts : List Tombstone) (facts : Dict String Fact) (s : IsSettled ts facts) where
  buried-IsSettled : (t : Tombstone) → IsSettled (ts ++ (t ∷ [])) facts
  buried-IsSettled t u a k =
      let base = filter (claims u a k) (values facts) in
      ground (
        arith,
        s u a k,
        ap (λ (fs : List Fact). length fs) (filter-buried ts t base),
        length-filter-le (λ f. not (t.fact_id == f.id)) (filter (is_live ts) base),
      )

  overwritten-IsSettled :
      (old new : Fact)
      → lookup old.id facts ≡ some old
      → ((u a k : String)
          → (claims u a k new && is_live ts new) ≡ (claims u a k old && is_live ts old))
      → IsSettled ts (insert old.id new facts)
  overwritten-IsSettled old new h q u a k = ground (
    arith,
    s u a k,
    ap (λ (fs : List Fact). length fs) (filter-both (is_live ts) (claims u a k) (values facts)),
    ap (λ (fs : List Fact). length fs)
        (filter-both (is_live ts) (claims u a k) (values (insert old.id new facts))),
    length-overwritten (λ f. claims u a k f && is_live ts f) old.id old new facts h (q u a k),
  )

  -- a new fact of a slot without live facts
  added-IsSettled :
      (new : Fact)
      → lookup new.id facts ≡ none
      → ((u a k : String) → claims u a k new ≡ true → live u a k ts facts ≡ [])
      → IsSettled ts (insert new.id new facts)
  added-IsSettled new h q u a k =
      let all =
        ap values (insert-new new.id new facts h) ∙ values-append facts ((new.id, new) ∷ []) in
      let c1 =
        ap (filter (claims u a k)) all ∙ filter-append (claims u a k) (values facts) (new ∷ []) in
      let c2 =
        ap (filter (is_live ts)) c1
        ∙ filter-append (is_live ts) (filter (claims u a k) (values facts))
            (filter (claims u a k) (new ∷ [])) in
      let n =
        ap (λ (fs : List Fact). length fs) c2
        ∙ length-append (live u a k ts facts)
            (filter (is_live ts) (filter (claims u a k) (new ∷ []))) in
      elim (Bool-cases (claims u a k new)) [
        | inl b ↦ ground (
          arith,
          n,
          ap (λ (fs : List Fact). length fs) (q u a k b),
          b,
          length-filter-le (is_live ts) (new ∷ []),
        )
        | inr b ↦ ground (arith, n, s u a k, b)
      ]

-- the fact that a claim makes, under the identifier that it draws
record IsMadeOf (py : Python) (id : String) (k : Claim) (f : Fact) : Type 0 where
  id_of : f.id ≡ id
  user : f.user_id ≡ k.user_id
  agent : f.agent_id ≡ k.agent_id
  slot : f.slot ≡ py.strip k.slot

fact_of-IsMadeOf :
    (c : Crypto) (py : Python) (id : String) (now : ℕ) (k : Claim) (p : Provenance) (f : Fact)
    → fact_of c py id now k p ≡ ok f
    → IsMadeOf py id k f
unfolding fact_of make_fact
fact_of-IsMadeOf c py id now k p f h =
    let (_, _, h1) = >>=-eq-ok (raise_if (py.strip k.slot == "") slot_required) _ h in
    let (_, _, h2) = >>=-eq-ok (raise_if (py.strip k.value == "") value_required) _ h1 in
    let (_, _, h3) =
      >>=-eq-ok (raise_if ((k.user_id == "") || (k.agent_id == "")) scope_required) _ h2 in
    let (_, _, h5) = >>=-eq-ok (raise_if (is_bad_ttl k.ttl_days) bad_ttl) _ h3 in
    let q = ok-inj h5 in
    record {
      id_of = ap (λ (x : Fact). x.id) (sym q);
      user = ap (λ (x : Fact). x.user_id) (sym q);
      agent = ap (λ (x : Fact). x.agent_id) (sym q);
      slot = ap (λ (x : Fact). x.slot) (sym q);
    }

-- every fact is found under its own identifier
abbrev pub IsFiled : Dict String Fact → Type 0
IsFiled facts = All (λ f. lookup f.id facts ≡ some f) (values facts)

module _ (c : Crypto) (py : Python) (now : ℕ) (k : Claim) (m : Memory c) (new : Fact) where
  abbrev scope : List Tombstone → List Fact
  scope ts = live k.user_id k.agent_id k.slot ts m.facts

  abbrev IsDone : Learned × Memory c → Type 0
  IsDone x = IsSettled x.1.tombstones x.1.facts

  -- the scope of the claim is the only one that the new fact claims
  scope_only :
      (id : String) (ts : List Tombstone)
      → IsMadeOf py id k new
      → py.strip k.slot ≡ k.slot
      → scope ts ≡ []
      → (u a s : String) → claims u a s new ≡ true
      → live u a s ts m.facts ≡ []
  scope_only id ts d q e u a s h =
      let same : (k.user_id ≡ u) × (k.agent_id ≡ a) × (k.slot ≡ s) = ground (
        arith,
        h,
        d.user,
        d.agent,
        d.slot,
        q,
        ==_iff new.user_id u,
        ==_iff new.agent_id a,
        ==_iff new.slot s,
      ) in
      subst (λ x. live x a s ts m.facts ≡ []) same.0
        (subst (λ x. live k.user_id x s ts m.facts ≡ []) same.1
          (subst (λ x. live k.user_id k.agent_id x ts m.facts ≡ []) same.2 e))

  -- once the one live fact of the slot is buried, none is left
  scope_buried :
      (f : Fact) (t : Tombstone)
      → scope m.tombstones ≡ f ∷ []
      → t.fact_id ≡ f.id
      → scope (m.tombstones ++ (t ∷ [])) ≡ []
  scope_buried f t e q =
      filter-buried m.tombstones t (filter (claims k.user_id k.agent_id k.slot) (values m.facts))
      ∙ (ap (filter (λ g. not (t.fact_id == g.id))) e ∙ ground (arith, q, ==_refl f.id))

  apply_outcome-IsDone :
      (id : String) (o : ConflictOutcome) (old : Fact) (why : Value)
      → IsMadeOf py id k new
      → py.strip k.slot ≡ k.slot
      → lookup id m.facts ≡ none
      → lookup old.id m.facts ≡ some old
      → scope m.tombstones ≡ old ∷ []
      → IsSettled m.tombstones m.facts
      → IsDone (apply_outcome c py o now old new why m)
  unfolding apply_outcome save_fact bury is_live
  apply_outcome-IsDone id corroborate old why d q n f e s =
      overwritten-IsSettled m.tombstones m.facts s old
        (record old { corroborations = suc old.corroborations }) f (λ u a x. refl)
  apply_outcome-IsDone id supersede old why d q n f e s =
      let t = tombstone_of now old superseded why in
      added-IsSettled (m.tombstones ++ (t ∷ [])) m.facts (buried-IsSettled m.tombstones m.facts s t)
        new (ap (λ i. lookup i m.facts) d.id_of ∙ n)
        (scope_only id (m.tombstones ++ (t ∷ [])) d q (scope_buried old t e refl))
  apply_outcome-IsDone id reject_incoming old why d q n f e s =
      buried-IsSettled m.tombstones m.facts s (tombstone_of now new superseded why)
  apply_outcome-IsDone id contradiction old why d q n f e s =
      let t = tombstone_of now old contradicted why in
      buried-IsSettled (m.tombstones ++ (t ∷ [])) m.facts
        (buried-IsSettled m.tombstones m.facts s t) (tombstone_of now new contradicted why)

  settle-IsDone :
      (id : String) (rs : List Fact) (x : Learned × Memory c)
      → IsMadeOf py id k new
      → py.strip k.slot ≡ k.slot
      → lookup id m.facts ≡ none
      → All (λ f. lookup f.id m.facts ≡ some f) rs
      → scope m.tombstones ≡ rs
      → IsSettled m.tombstones m.facts
      → settle c py now new rs m ≡ ok x
      → IsDone x
  unfolding settle save_fact champion
  settle-IsDone id [] x d q n a e s h = subst IsDone (ok-inj h) (
      added-IsSettled m.tombstones m.facts s new (ap (λ i. lookup i m.facts) d.id_of ∙ n)
        (scope_only id m.tombstones d q e))
  settle-IsDone id (f ∷ []) x d q n a e s h =
      let (r, hr, h1) = >>=-eq-ok (resolve_conflict py f new now) _ h in
      subst IsDone (ok-inj h1) (apply_outcome-IsDone id r.outcome f r.reason d q n a.0 e s)
  settle-IsDone id (f ∷ g ∷ gs) x d q n a e s h =
      absurd (omega (arith, s k.user_id k.agent_id k.slot, ap (λ (fs : List Fact). length fs) e))

-- When at most one fact that is not forgotten claims each slot of each user and agent, this still holds
-- after a claim is learned, whatever its outcome, if the slot of the claim is not padded with white
-- space, its identifier is new, and every fact is found under its own identifier.
pub learn-IsSettled :
    (c : Crypto) (py : Python) (id event_id : String) (now : ℕ) (k : Claim) (m n : Memory c)
    (l : Learned)
    → py.strip k.slot ≡ k.slot
    → lookup id m.facts ≡ none
    → IsFiled m.facts
    → IsSettled m.tombstones m.facts
    → learn c py id event_id now k m ≡ ok (l, n)
    → IsSettled n.tombstones n.facts
unfolding learn rivals by_slot note_event is_live
learn-IsSettled c py id event_id now k m n l q new f s h =
    let (p, hp, h1) = >>=-eq-ok (provenance_of c py k) _ h in
    let (fact, hn, h2) = >>=-eq-ok (fact_of c py id now k p) _ h1 in
    let (x, hx, h3) = >>=-eq-ok (settle c py now fact (rivals c py k m) m) _ h2 in
    let found =
      All-filter _ (is_live m.tombstones) _
        (All-filter _ (claims k.user_id k.agent_id k.slot) (values m.facts) f) in
    subst (λ (y : Learned × Memory c). IsSettled y.1.tombstones y.1.facts) (ok-inj h3)
      (settle-IsDone c py now k m fact id (rivals c py k m) x
        (fact_of-IsMadeOf c py id now k p fact hn) q new found refl s hx)
