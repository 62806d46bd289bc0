-- ===== src/Trust/Service/Lifecycle.antt =====
-- A credential from its issue to its revocation, as the service stores it.
use mathlib.Core.Path.{subst}
use builder_league.Prelude.{
  ==_refl, String, [], arith, leb, none, ok, refl, some, sym, ℕ, ◌*◌, ◌+◌, ◌<◌, ◌∷◌, ◌≡◌, ◌≤◌,
  nat_eq, string_eq,
}
use builder_league.Prelude.Dict.{insert, lookup, lookup-insert}
use builder_league.Trust.Crypto.{Crypto, IsLawful, sign_payload}
use builder_league.Trust.Credentials.{
  Credential, CredentialType, expired, failure_if, invalid_signature, new_unsigned_credential,
  revoke, revoked, sign_credential, signed_payload, verify_credential,
}
use builder_league.Trust.Credentials.Signing.{
  IsSigned, IsSigned-sign_payload, revoked_fails, sign-verifies, signed_fails-expired,
}
use builder_league.Trust.Service.{
  TrustService, day, get_credential, issue_credential, register_signed_credential,
  revoke_credential,
}
use builder_league.Trust.Store.{save}
use builder_league.Prelude.Values.{Fields}

module _ (c : Crypto) where
  saved-found :
      (d : Credential c) (t : TrustService c)
      → get_credential c d.id (record t { credentials = save c d t.credentials }) ≡ some d
  unfolding get_credential save
  saved-found d t = ground (arith, lookup-insert d.id d.id d t.credentials, ==_refl d.id)

  issue_found :
      (id subject_key : String) (now ttl_days : ℕ) (issuer : c.KeyPair) (type : CredentialType)
      (claim scope : Fields) (t : TrustService c)
      → (d : Credential c) × (u : TrustService c) × (issue_credential c id now issuer subject_key
            type claim scope ttl_days t
          ≡ ok (d, u))
        × (get_credential c id u ≡ some d)
        × IsSigned c d
        × (d.revoked_at ≡ none)
        × (d.expires_at ≡ now + ttl_days * day)
  unfolding issue_credential sign_credential new_unsigned_credential
  issue_found id subject_key now ttl_days issuer type claim scope t =
      let d0 : Credential c =
        new_unsigned_credential c id (c.public_key issuer) subject_key type claim scope now
          (now + ttl_days * day) in
      let d : Credential c = record d0 {
        signature = sign_payload c issuer (signed_payload c d0);
      } in
      let u : TrustService c = record t { credentials = save c d t.credentials } in
      (
        d,
        u,
        ground (arith, ==_refl (c.public_key issuer)),
        saved-found d t,
        IsSigned-sign_payload c d0 issuer refl,
        refl,
        refl,
      )

  revoked-found :
      (i reason : String) (now : ℕ) (d : Credential c) (t : TrustService c)
      → get_credential c i t ≡ some d
      → d.id ≡ i
      → (u : TrustService c) × (revoke_credential c now i reason none t ≡ ok u)
        × (get_credential c i u ≡ some (revoke c d now reason))
  unfolding get_credential revoke_credential save revoke
  revoked-found i reason now d t f q =
      let e = revoke c d now reason in
      (
        record t { credentials = save c e t.credentials },
        rw f refl,
        subst (λ j. lookup j (insert d.id e t.credentials) ≡ some e) q
            (ground (arith, lookup-insert d.id d.id e t.credentials, ==_refl d.id)),
      )

module _ (c : Crypto) (lawful : IsLawful c) where
  -- A credential is always issued when the service is asked to sign it with the keys of the issuer; it
  -- is stored under its identifier, and until its days to live are over it verifies without failures.
  pub issued_verifies :
      (id subject_key : String) (now ttl_days : ℕ) (issuer : c.KeyPair) (type : CredentialType)
      (claim scope : Fields) (t : TrustService c)
      → (d : Credential c) × (u : TrustService c) × (issue_credential c id now issuer subject_key
            type claim scope ttl_days t
          ≡ ok (d, u))
        × (get_credential c id u ≡ some d)
        × ((later : ℕ) → later < now + ttl_days * day → verify_credential c d later ≡ [])
  issued_verifies id subject_key now ttl_days issuer type claim scope t =
      let (d, u, q, f, g, r, x) =
        issue_found c id subject_key now ttl_days issuer type claim scope t in
      (d, u, q, f, λ later h. sign-verifies c lawful d later g r (subst (λ n. later < n) (sym x) h))

  -- A stored credential that its issuer signed, and that is not revoked, is revoked when the service is
  -- asked to revoke it without a new signature; from then on the stored one fails at every time, as
  -- revoked and as badly signed. But whoever still holds the credential as it was signed can register
  -- it again, and the service then stores it unrevoked and it fails at most as expired.
  pub revocation_and_return :
      (i reason : String) (now later : ℕ) (d : Credential c) (t : TrustService c)
      → get_credential c i t ≡ some d
      → d.id ≡ i
      → IsSigned c d
      → d.revoked_at ≡ none
      → now ≤ later
      → (u : TrustService c) × (v : TrustService c) × (revoke_credential c now i reason none t
          ≡ ok u)
        × (get_credential c i u ≡ some (revoke c d now reason))
        × (verify_credential c (revoke c d now reason) later
            ≡ invalid_signature ∷ revoked ∷ failure_if (leb d.expires_at later) expired)
        × (register_signed_credential c later d u ≡ ok (d, v))
        × (get_credential c i v ≡ some d)
        × (verify_credential c d later ≡ failure_if (leb d.expires_at later) expired)
  unfolding register_signed_credential
  revocation_and_return i reason now later d t f q s r h =
      let (u, e, g) = revoked-found c i reason now d t f q in
      let v = record u { credentials = save c d u.credentials } in
      let w = signed_fails-expired c lawful d later s r in
      (
        u,
        v,
        e,
        g,
        revoked_fails c lawful d now later reason s r h,
        ground (arith, w),
        subst (λ j. get_credential c j v ≡ some d) q (saved-found c d u),
        w,
      )
