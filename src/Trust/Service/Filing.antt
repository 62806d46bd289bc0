-- ===== src/Trust/Service/Filing.antt =====
-- The credential store with every credential under its own identifier.
use mathlib.Core.List.{append-nil, append_assoc}
use builder_league.Prelude.{
  ==_iff, ==_refl, All, All-filter, Bool, List, String, [], ap, arith, false, filter, if◌then◌else◌,
  none, refl, some, sym, true, ◌++◌, ◌==◌, ◌∙◌, ◌∷◌, ◌≡◌, ◌≢◌, nat_eq, string_eq,
}
use builder_league.Prelude.Dict.{insert, insert-new, insert-same, lookup, lookup-insert, values}
use builder_league.Trust.Crypto.{Crypto}
use builder_league.Trust.Credentials.{Credential}
use builder_league.Trust.Service.{collect}
use builder_league.Trust.Store.{CredentialStore}

module _ (c : Crypto) where
  -- every credential stands under its own identifier, and once
  abbrev pub IsFiled : CredentialStore c → Type 0
  IsFiled [] = Unit
  IsFiled ((i, d) ∷ m) = (lookup i m ≡ none) × (d.id ≡ i) × IsFiled m

  abbrev pub IsDistinct : List (Credential c) → Type 0
  IsDistinct [] = Unit
  IsDistinct (d ∷ ds) = All (λ e. d.id ≢ e.id) ds × IsDistinct ds

  abbrev pub IsFound : CredentialStore c → Credential c → Type 0
  IsFound s d = lookup d.id s ≡ some d

  abbrev pub filed : List (Credential c) → CredentialStore c
  filed [] = []
  filed (d ∷ ds) = (d.id, d) ∷ filed ds

  abbrev pub of : String → Credential c → Bool
  of key d = d.subject_key == key

  pub All-map :
      (P Q : Credential c → Type 0) (ds : List (Credential c))
      → ((d : Credential c) → P d → Q d)
      → All P ds
      → All Q ds
  All-map P Q [] f h = tt
  All-map P Q (d ∷ ds) f (h, t) = (f d h, All-map P Q ds f t)

  pub values-IsFound : (s : CredentialStore c) → IsFiled s → All (IsFound s) (values s)
  unfolding lookup
  values-IsFound [] f = tt
  values-IsFound ((i, d) ∷ m) (n, q, f) = (
    ground (arith, q, ==_refl i),
    All-map (IsFound m) (IsFound ((i, d) ∷ m)) (values m)
        (λ e h. ground (arith, h, n, ==_iff i e.id)) (values-IsFound m f),
  )

  pub values-IsDistinct : (s : CredentialStore c) → IsFiled s → IsDistinct (values s)
  values-IsDistinct [] f = tt
  values-IsDistinct ((i, d) ∷ m) (n, q, f) = (
    All-map (IsFound m) (λ e. d.id ≢ e.id) (values m) (λ e h x. ground (arith, h, n, q, x))
        (values-IsFound m f),
    values-IsDistinct m f,
  )

  pub IsDistinct-filter :
      (p : Credential c → Bool) (ds : List (Credential c))
      → IsDistinct ds
      → IsDistinct (filter p ds)
  IsDistinct-filter p [] h = tt
  IsDistinct-filter p (d ∷ ds) (a, h) =
      by_test (p d) (All-filter (λ e. d.id ≢ e.id) p ds a) (IsDistinct-filter p ds h)
    where
      by_test :
          (b : Bool)
          → All (λ e. d.id ≢ e.id) (filter p ds)
          → IsDistinct (filter p ds)
          → IsDistinct (if b then d ∷ filter p ds else filter p ds)
      by_test true x y = (x, y)
      by_test false x y = y

  pub filter-filter :
      (p : Credential c → Bool) (ds : List (Credential c)) → filter p (filter p ds) ≡ filter p ds
  filter-filter p [] = refl
  filter-filter p (d ∷ ds) = ground (arith, filter-filter p ds)

  pub values-filed : (ds : List (Credential c)) → values (filed ds) ≡ ds
  values-filed [] = refl
  values-filed (d ∷ ds) = ap (λ es. d ∷ es) (values-filed ds)

  pub filed-values : (s : CredentialStore c) → IsFiled s → filed (values s) ≡ s
  filed-values [] f = refl
  filed-values ((i, d) ∷ m) (n, q, f) = ground (arith, q, filed-values m f)

  -- new credentials go to the end
  pub collect-new :
      (ds : List (Credential c)) (seen : CredentialStore c)
      → All (λ d. lookup d.id seen ≡ none) ds
      → IsDistinct ds
      → collect c ds seen ≡ seen ++ filed ds
  unfolding lookup
  collect-new [] seen a h = sym (append-nil seen)
  collect-new (d ∷ ds) seen (n, a) (x, h) =
      let new = insert-new d.id d seen n in
      let both : All (λ e. lookup e.id (insert d.id d seen) ≡ none) ds = zip_All ds x a in
      collect-new ds (insert d.id d seen) both h
      ∙ (ap (λ m. m ++ filed ds) new ∙ append_assoc seen ((d.id, d) ∷ []) (filed ds))
    where
      zip_All :
          (es : List (Credential c))
          → All (λ e. d.id ≢ e.id) es
          → All (λ e. lookup e.id seen ≡ none) es
          → All (λ e. lookup e.id (insert d.id d seen) ≡ none) es
      zip_All [] u v = tt
      zip_All (e ∷ es) (u, us) (v, vs) =
          (ground (arith, lookup-insert d.id e.id d seen, ==_iff d.id e.id, u, v), zip_All es us vs)

  -- known ones change nothing
  pub collect-known :
      (ds : List (Credential c)) (seen : CredentialStore c)
      → All (IsFound seen) ds
      → collect c ds seen ≡ seen
  collect-known [] seen a = refl
  collect-known (d ∷ ds) seen (n, a) =
      ap (collect c ds) (insert-same d.id d seen n) ∙ collect-known ds seen a

  pub absent_All : (ds : List (Credential c)) → All (λ d. lookup d.id (filed []) ≡ none) ds
  unfolding lookup
  absent_All [] = tt
  absent_All (d ∷ ds) = (refl, absent_All ds)
