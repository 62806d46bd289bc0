-- ===== src/Trust/Service/Listing.antt =====
-- `list_credentials` finds every credential of a registered agent, each once and in the order of the
-- store.
use mathlib.Core.Path.{subst}
use mathlib.Core.List.{append-nil}
use builder_league.Prelude.{
  ==_cases, ==_iff, All, All-filter, Any, Bool-cases, List, Option-cases, String, [], ap, arith,
  false, filter, filter-append, inl, inr, none, refl, some, sym, true, ◌++◌, ◌∙◌, ◌∷◌, ◌≡◌, ◌≢◌,
  nat_eq, string_eq,
}
use builder_league.Prelude.Dict.{
  insert, insert-new, insert-same, lookup, lookup-insert, values, values-append,
}
use builder_league.Trust.Crypto.{Crypto}
use builder_league.Trust.Credentials.{Credential}
use builder_league.Trust.Service.{TrustService, collect, collect_all, list_credentials}
use builder_league.Trust.Store.{Agent, CredentialStore, for_subject, list_agents}
use builder_league.Trust.Service.Filing.{
  IsDistinct-filter, IsFiled, IsFound, collect-known, collect-new, filed, filter-filter, of,
  values-IsDistinct, values-IsFound, values-filed,
}

module _ (c : Crypto) where
  -- what `seen` holds of the store while the loop runs
  pub record IsPart (s seen : CredentialStore c) : Type 0 where
    pub filed_up : IsFiled c seen
    pub inside : (i : String) (e : Credential c) → lookup i seen ≡ some e → lookup i s ≡ some e

  pub IsFiled-insert :
      (d : Credential c) (s : CredentialStore c) → IsFiled c s → IsFiled c (insert d.id d s)
  unfolding lookup insert
  IsFiled-insert d [] f = (refl, refl, tt)
  IsFiled-insert d ((j, e) ∷ m) (n, q, f) = elim (==_cases j d.id) [
    | inl (x, b) ↦ rw b (n, sym x, f)
    | inr (x, b) ↦
        rw b (
          lookup-insert d.id j d m ∙ (ground (arith, n, ==_iff d.id j, x)),
          q,
          IsFiled-insert d m f,
        )
  ]

  IsPart-insert :
      (d : Credential c) (s seen : CredentialStore c)
      → IsFound c s d
      → IsPart s seen
      → IsPart s (insert d.id d seen)
  IsPart-insert d s seen f p = record {
    filed_up = IsFiled-insert d seen p.filed_up;
    inside =
        λ i e h. ground (arith, lookup-insert d.id i d seen, ==_iff d.id i, h, f, p.inside i e);
  }

  IsPart-collect :
      (ds : List (Credential c)) (s seen : CredentialStore c)
      → All (IsFound c s) ds
      → IsPart s seen
      → IsPart s (collect c ds seen)
  IsPart-collect [] s seen a p = p
  IsPart-collect (d ∷ ds) s seen (f, a) p =
      IsPart-collect ds s (insert d.id d seen) a (IsPart-insert d s seen f p)

  -- credentials of another subject do not show up among those of this one
  others-unseen :
      (key : String) (ds : List (Credential c)) (s seen : CredentialStore c)
      → All (IsFound c s) ds
      → All (λ d. of c key d ≡ false) ds
      → IsPart s seen
      → filter (of c key) (values (collect c ds seen)) ≡ filter (of c key) (values seen)
  others-unseen key [] s seen a o p = refl
  others-unseen key (d ∷ ds) s seen (f, a) (n, o) p =
      others-unseen key ds s (insert d.id d seen) a o (IsPart-insert d s seen f p)
      ∙ elim (Option-cases (lookup d.id seen)) [
        | inl h ↦
            ap (λ m. filter (of c key) (values m)) (insert-new d.id d seen h)
            ∙ (ap (filter (of c key)) (values-append seen ((d.id, d) ∷ []))
                ∙ (filter-append (of c key) (values seen) (d ∷ []) ∙ dropped n))
        | inr (e, h) ↦
            ap (λ m. filter (of c key) (values m))
              (insert-same d.id d seen (h ∙ ap some (same_value e h)))
      ]
    where
      same_value : (e : Credential c) → lookup d.id seen ≡ some e → e ≡ d
      same_value e h = ground (arith, p.inside d.id e h, f)

      dropped :
          of c key d ≡ false
          → filter (of c key) (values seen) ++ filter (of c key) (d ∷ [])
            ≡ filter (of c key) (values seen)
      dropped h = rw h (append-nil (filter (of c key) (values seen)))

  unseen :
      (key : String) (i : String) (d : Credential c) (seen : CredentialStore c)
      → lookup i seen ≡ some d
      → of c key d ≡ true
      → filter (of c key) (values seen) ≢ []
  unfolding lookup
  unseen key i d [] h o n = cc
  unseen key i d ((j, e) ∷ m) h o n = elim (==_cases j i) [
    | inl (x, b) ↦ ground (arith, b, h, o, n)
    | inr (x, b) ↦ elim (Bool-cases (of c key e)) [
      | inl u ↦ ground (arith, u, n)
      | inr u ↦ unseen key i d m (ground (arith, b, h)) o (ground (arith, u, n))
    ]
  ]

  All-of_filter :
      (key : String) (ds : List (Credential c))
      → All (λ d. of c key d ≡ true) (filter (of c key) ds)
  All-of_filter key [] = tt
  All-of_filter key (d ∷ ds) = elim (Bool-cases (of c key d)) [
    | inl b ↦ rw b (b, All-of_filter key ds)
    | inr b ↦ rw b (All-of_filter key ds)
  ]

  module _ (key : String) (s : CredentialStore c) (f : IsFiled c s) where
    abbrev mine : List (Credential c)
    mine = filter (of c key) (values s)

    abbrev shown : CredentialStore c → List (Credential c)
    shown seen = filter (of c key) (values seen)

    mine-IsFound : (k : String) → All (IsFound c s) (filter (of c k) (values s))
    mine-IsFound k = All-filter (IsFound c s) (of c k) (values s) (values-IsFound c s f)

    absent :
        (seen : CredentialStore c) (ds : List (Credential c))
        → IsPart s seen
        → shown seen ≡ []
        → All (IsFound c s) ds
        → All (λ d. of c key d ≡ true) ds
        → All (λ d. lookup d.id seen ≡ none) ds
    absent seen [] p q a o = tt
    absent seen (d ∷ ds) p q (g, a) (h, o) = (
      elim (Option-cases (lookup d.id seen)) [
        | inl n ↦ n
        | inr (e, x) ↦ absurd (unseen key d.id d seen (ground (arith, x, g, p.inside d.id e)) h q)
      ],
      absent seen ds p q a o,
    )

    own_first :
        (seen : CredentialStore c)
        → IsPart s seen
        → shown seen ≡ []
        → shown (collect c mine seen) ≡ mine
    own_first seen p q =
        ap shown (
          collect-new c mine seen
            (absent seen mine p q (mine-IsFound key) (All-of_filter key (values s)))
            (IsDistinct-filter c (of c key) (values s) (values-IsDistinct c s f)))
        ∙ (ap (filter (of c key)) (values-append seen (filed c mine))
            ∙ (filter-append (of c key) (values seen) (values (filed c mine))
                ∙ (ap (λ ds. ds ++ filter (of c key) (values (filed c mine))) q
                    ∙ (ap (filter (of c key)) (values-filed c mine)
                        ∙ filter-filter c (of c key) (values s)))))

    own_again :
        (seen : CredentialStore c) → IsPart s seen → shown seen ≡ mine → collect c mine seen ≡ seen
    own_again seen p q = collect-known c mine seen (
        subst (All (IsFound c seen)) q
          (All-filter (IsFound c seen) (of c key) (values seen) (values-IsFound c seen p.filed_up)))

    All-other :
        (k : String) (ds : List (Credential c))
        → k ≢ key
        → All (λ d. of c k d ≡ true) ds
        → All (λ d. of c key d ≡ false) ds
    All-other k [] n a = tt
    All-other k (d ∷ ds) n (h, a) =
        (ground (arith, h, ==_iff d.subject_key k, ==_iff d.subject_key key, n), All-other k ds n a)

    other_agent :
        (k : String) (seen : CredentialStore c)
        → k ≢ key
        → IsPart s seen
        → shown (collect c (filter (of c k) (values s)) seen) ≡ shown seen
    other_agent k seen n p =
        others-unseen key (filter (of c k) (values s)) s seen (mine-IsFound k)
          (All-other k _ n (All-of_filter k (values s))) p

    -- the loop over the agents keeps what is complete
    stays :
        (agents : List Agent) (seen : CredentialStore c)
        → IsPart s seen
        → shown seen ≡ mine
        → IsPart s (collect_all c agents s seen) × (shown (collect_all c agents s seen) ≡ mine)
    unfolding for_subject
    stays [] seen p q = (p, q)
    stays (a ∷ more) seen p q =
        stays more (collect c (for_subject c a.public_key s) seen)
          (IsPart-collect (for_subject c a.public_key s) s seen (mine-IsFound a.public_key) p)
          (elim (==_cases a.public_key key) [
            | inl (e, b) ↦
                subst (λ k. shown (collect c (for_subject c k s) seen) ≡ mine) (sym e)
                  (ap shown (own_again seen p q) ∙ q)
            | inr (e, b) ↦ other_agent a.public_key seen e p ∙ q
          ])

    -- and it completes what is missing
    reaches :
        (agents : List Agent) (seen : CredentialStore c)
        → IsPart s seen
        → shown seen ≡ []
        → Any (λ a. a.public_key ≡ key) agents
        → IsPart s (collect_all c agents s seen) × (shown (collect_all c agents s seen) ≡ mine)
    unfolding for_subject
    reaches [] seen p q h = elim h [ ]
    reaches (a ∷ more) seen p q h =
        let kept =
          IsPart-collect (for_subject c a.public_key s) s seen (mine-IsFound a.public_key) p in
        elim (==_cases a.public_key key) [
          | inl (e, b) ↦ stays more (collect c (for_subject c a.public_key s) seen) kept (
              subst (λ k. shown (collect c (for_subject c k s) seen) ≡ mine) (sym e)
                (own_first seen p q))
          | inr (e, b) ↦
              reaches more (collect c (for_subject c a.public_key s) seen) kept
                (other_agent a.public_key seen e p ∙ q)
                (elim h [ inl x ↦ absurd (e x) | inr x ↦ x ])
        ]

    -- without an agent of that key, nothing of it shows up
    misses :
        (agents : List Agent) (seen : CredentialStore c)
        → IsPart s seen
        → shown seen ≡ []
        → All (λ a. a.public_key ≢ key) agents
        → IsPart s (collect_all c agents s seen) × (shown (collect_all c agents s seen) ≡ [])
    unfolding for_subject
    misses [] seen p q h = (p, q)
    misses (a ∷ more) seen p q (n, h) =
        misses more (collect c (for_subject c a.public_key s) seen)
          (IsPart-collect (for_subject c a.public_key s) s seen (mine-IsFound a.public_key) p)
          (other_agent a.public_key seen n p ∙ q) h

-- the loops start with nothing seen
IsPart-empty : (c : Crypto) (s : CredentialStore c) → IsPart c s []
unfolding lookup
IsPart-empty c s = record { filed_up = tt; inside = λ i e x. cc }

pub list_credentials-misses :
    (c : Crypto) (key : String) (t : TrustService c)
    → IsFiled c t.credentials
    → All (λ a. a.public_key ≢ key) (list_agents t.registry)
    → (s : CredentialStore c) × IsFiled c s
      × (list_credentials c t ≡ values s)
      × (for_subject c key s ≡ [])
unfolding list_credentials for_subject
list_credentials-misses c key t f h =
    let (p, q) =
      misses c key t.credentials f (list_agents t.registry) [] (IsPart-empty c t.credentials) refl
        h in
    (collect_all c (list_agents t.registry) t.credentials [], p.filed_up, refl, q)

-- For a registered agent, the credentials that `list_credentials` gives of it are those that the store
-- has of it, in the same order, and what it gives is filed under the identifiers again.
pub list_credentials_complete :
    (c : Crypto) (key : String) (t : TrustService c)
    → IsFiled c t.credentials
    → Any (λ a. a.public_key ≡ key) (list_agents t.registry)
    → (s : CredentialStore c) × IsFiled c s
      × (list_credentials c t ≡ values s)
      × (for_subject c key s ≡ for_subject c key t.credentials)
unfolding list_credentials for_subject
list_credentials_complete c key t f h =
    let (p, q) =
      reaches c key t.credentials f (list_agents t.registry) [] (IsPart-empty c t.credentials) refl
        h in
    (collect_all c (list_agents t.registry) t.credentials [], p.filed_up, refl, q)
