-- ===== src/Memory/Service/Conflicts.antt =====
-- What a claim of a slot meets.
use builder_league.Prelude.{
  ==_cases, ==_refl, >>=-eq-ok, All, List, Result, String, [], ap, arith, filter, inl, inr, none,
  not, ok, ok-inj, raise_if, refl, some, sym, ℕ, ◌==◌, ◌>>=◌, ◌||◌, ◌∙◌, ◌∷◌, ◌≡◌, ◌≢◌, nat_eq,
  string_eq,
}
use builder_league.Prelude.Values.{format, str, values_of}
use builder_league.Prelude.Dict.{lookup, lookup-insert, values}
use builder_league.Trust.Crypto.{Crypto}
use builder_league.Memory.Facts.{
  Fact, MemoryError, Provenance, Python, bad_ttl, is_bad_ttl, make_fact, scope_required,
  slot_required, value_required,
}
use builder_league.Memory.Store.{Memory, by_slot, claims, is_forgotten, note_event, save_fact}
use builder_league.Memory.Service.{
  Claim, Learned, fact_of, learn, learn_inputs, outcome_name, provenance_of, rivals, settle,
}

module _ (py : Python) where
  -- the slots of facts are stripped
  abbrev pub IsStripped : Fact → Type 0
  IsStripped f = py.strip f.slot ≡ f.slot

  padded_finds_none :
      (user_id agent_id slot : String) (fs : List Fact)
      → py.strip slot ≢ slot
      → All IsStripped fs
      → filter (claims user_id agent_id slot) fs ≡ []
  padded_finds_none user_id agent_id slot [] n a = refl
  padded_finds_none user_id agent_id slot (f ∷ fs) n (h, a) = elim (==_cases f.slot slot) [
    | inl (e, b) ↦ absurd (n (ap py.strip (sym e) ∙ (h ∙ e)))
    | inr (e, b) ↦ ground (arith, b, padded_finds_none user_id agent_id slot fs n a)
  ]

-- the fact that a claim makes
fact_of-ok :
    (c : Crypto) (py : Python) (id : String) (now : ℕ) (k : Claim) (p : Provenance) (f : Fact)
    → fact_of c py id now k p ≡ ok f
    → (f.id ≡ id) × (f.slot ≡ py.strip k.slot)
unfolding fact_of make_fact
fact_of-ok c py id now k p f h =
    let (_, _, h1) = >>=-eq-ok (raise_if (py.strip k.slot == "") slot_required) _ h in
    let (_, _, h2) = >>=-eq-ok (raise_if (py.strip k.value == "") value_required) _ h1 in
    let (_, _, h3) =
      >>=-eq-ok (raise_if ((k.user_id == "") || (k.agent_id == "")) scope_required) _ h2 in
    let (_, _, h5) = >>=-eq-ok (raise_if (is_bad_ttl k.ttl_days) bad_ttl) _ h3 in
    let q = ok-inj h5 in (ap (λ (x : Fact). x.id) (sym q), ap (λ (x : Fact). x.slot) (sym q))

-- When every stored fact has a stripped slot, a claim whose slot is padded with white space meets no
-- other fact: if it is learned at all it is stored as a fact of the stripped slot, whatever the facts of
-- that slot say, and no fact is forgotten.
pub padded_slot_is_unchallenged :
    (c : Crypto) (py : Python) (id event_id : String) (now : ℕ) (k : Claim) (m n : Memory c)
    (l : Learned)
    → All (IsStripped py) (values m.facts)
    → py.strip k.slot ≢ k.slot
    → learn c py id event_id now k m ≡ ok (l, n)
    → (l.outcome ≡ none)
      × (n.tombstones ≡ m.tombstones)
      × ((f : Fact) × (lookup id n.facts ≡ some f) × (f.slot ≡ py.strip k.slot))
unfolding learn settle save_fact rivals by_slot note_event
padded_slot_is_unchallenged c py id event_id now k m n l a s h =
    let (p, hp, h1) = >>=-eq-ok (provenance_of c py k) _ h in
    let (new, hn, h2) = >>=-eq-ok (fact_of c py id now k p) _ h1 in
    let none_left : rivals c py k m ≡ [] =
      ap (filter (λ f. not (is_forgotten m.tombstones f.id)))
        (padded_finds_none py k.user_id k.agent_id k.slot (values m.facts) s a) in
    let h3 = ap (λ fs. settle c py now new fs m >>= λ done. told done) (sym none_left) ∙ h2 in
    let q = ok-inj h3 in
    let (i, t) = fact_of-ok c py id now k p new hn in
    (
      ap (λ (x : Learned × Memory c). x.0.outcome) (sym q),
      ap (λ (x : Learned × Memory c). x.1.tombstones) (sym q),
      (
        new,
        ap (λ (x : Learned × Memory c). lookup id x.1.facts) (sym q)
            ∙ ground (arith, lookup-insert new.id id new m.facts, i, ==_refl id),
        t,
      ),
    )
  where
    told : Learned × Memory c → Result MemoryError (Learned × Memory c)
    told done = ok (
      done.0,
      note_event c event_id now k.agent_id "memory.learn"
          (format (
            values_of (
              str "slot=" ∷ str k.slot ∷ str " outcome=" ∷ str (outcome_name done.0.outcome) ∷ [])))
          (learn_inputs c py k done.0) done.1,
    )
