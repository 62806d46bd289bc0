-- ===== src/Trust/Credentials/Signing.antt =====
-- Signed credentials verify, and a revocation without a new signature is seen twice over.
use builder_league.Prelude.{
  Bool-cases, String, [], ap, arith, false, inl, inr, leb, none, refl, sym, true, ℕ, ◌<◌, ◌∙◌, ◌∷◌,
  ◌≡◌, ◌≢◌, ◌≤◌,
}
use builder_league.Trust.Crypto.{Crypto, IsLawful, sign_payload, verify_payload}
use builder_league.Trust.Credentials.{
  Credential, expired, failure_if, invalid_signature, maybe_time, revoke, revoked, signed_payload,
  verify_credential,
}
use builder_league.Prelude.Values.{get, get_or, null}

module _ (c : Crypto) where
  -- what its issuer signed
  pub record IsSigned (d : Credential c) : Type 0 where
    pub key : c.KeyPair
    pub issuer : d.issuer_key ≡ c.public_key key
    pub signed : d.signature ≡ sign_payload c key (signed_payload c d)

  pub IsSigned-sign_payload :
      (d : Credential c) (k : c.KeyPair)
      → d.issuer_key ≡ c.public_key k
      → IsSigned (record d { signature = sign_payload c k (signed_payload c d) })
  unfolding signed_payload
  IsSigned-sign_payload d k q = record { key = k; issuer = q; signed = refl }

module _ (c : Crypto) (lawful : IsLawful c) where
  pub sign-verifies :
      (d : Credential c) (now : ℕ)
      → IsSigned c d
      → d.revoked_at ≡ none
      → now < d.expires_at
      → verify_credential c d now ≡ []
  unfolding verify_credential verify_payload sign_payload
  sign-verifies d now s r h =
      ground
        (arith, s.issuer, s.signed, r, h, lawful.accepts s.key (c.canonical (signed_payload c d)))

  pub signed_fails-expired :
      (d : Credential c) (now : ℕ)
      → IsSigned c d
      → d.revoked_at ≡ none
      → verify_credential c d now ≡ failure_if (leb d.expires_at now) expired
  unfolding verify_credential verify_payload sign_payload
  signed_fails-expired d now s r =
      ground (arith, s.issuer, s.signed, r, lawful.accepts s.key (c.canonical (signed_payload c d)))

  shown_null :
      (d : Credential c) → d.revoked_at ≡ none → get "revoked_at" (signed_payload c d) ≡ null
  unfolding signed_payload get_or
  shown_null d r = ap maybe_time r

  shown_time :
      (d : Credential c) (at : ℕ) (reason : String)
      → get "revoked_at" (signed_payload c (revoke c d at reason)) ≢ null
  unfolding signed_payload get_or revoke
  shown_time d at reason q = cc

  -- the mark changes the payload, so that the old signature is not one of it
  unsigned :
      (d : Credential c) (at : ℕ) (reason : String)
      → IsSigned c d
      → d.revoked_at ≡ none
      → verify_payload c d.issuer_key (signed_payload c (revoke c d at reason)) d.signature ≡ false
  unfolding verify_payload sign_payload
  unsigned d at reason s r =
      elim (Bool-cases
        (verify_payload c d.issuer_key (signed_payload c (revoke c d at reason)) d.signature)) [
          | inr h ↦ h
          | inl h ↦
              let p = signed_payload c d in
              let q = signed_payload c (revoke c d at reason) in
              let e : c.verify (c.public_key s.key) (c.canonical q) (c.sign s.key (c.canonical p))
                  ≡ true =
                ap (λ k. c.verify k (c.canonical q) (c.sign s.key (c.canonical p))) (sym s.issuer)
                ∙ (ap (λ x. c.verify d.issuer_key (c.canonical q) x) (sym s.signed) ∙ h) in
              absurd (
                shown_time d at reason (
                  lawful.shows p q (sym (lawful.binds s.key (c.canonical p) (c.canonical q) e))
                    (shown_null d r)))
        ]

  pub revoked_fails :
      (d : Credential c) (at now : ℕ) (reason : String)
      → IsSigned c d
      → d.revoked_at ≡ none
      → at ≤ now
      → verify_credential c (revoke c d at reason) now
        ≡ invalid_signature ∷ revoked ∷ failure_if (leb d.expires_at now) expired
  unfolding verify_credential revoke
  revoked_fails d at now reason s r h = ground (arith, unsigned d at reason s r, h)
