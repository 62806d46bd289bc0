-- ===== src/Trust/Crypto.antt =====
-- Signatures (core/trustcore/domain/crypto.py) over what the code takes from other libraries: of PyNaCl and
-- json the keys, the canonical text of a payload as bytes, and Ed25519 on bytes, and of Python the numbers
-- that it reads in texts. What is malformed does not verify.
use builder_league.Prelude.Int.{ℤ}
use builder_league.Prelude.{Bool, Option, String, true, ◌≡◌}
use builder_league.Prelude.Values.{Fields, get, null}

pub record Crypto : Type 1 where
  pub KeyPair : Type 0
  pub Message : Type 0
  pub Signature : Type 0
  -- `canonical_json(payload).encode("utf-8")`
  pub canonical : Fields → Message
  pub public_key : KeyPair → String
  pub sign : KeyPair → Message → Signature
  pub verify : String → Message → Signature → Bool
  -- `float(s)` of a text, in millionths; `none` where it raises
  pub read_float : String → Option ℤ
  -- the empty text, which a credential carries before it is signed
  pub blank : Signature

-- What the libraries document: a signature verifies under the key of its signer, it verifies for no
-- other message, and the text of a payload shows whether `revoked_at` is null.
pub record IsLawful (c : Crypto) : Type 0 where
  pub accepts : (k : c.KeyPair) (m : c.Message) → c.verify (c.public_key k) m (c.sign k m) ≡ true
  pub binds :
      (k : c.KeyPair) (m n : c.Message) → c.verify (c.public_key k) n (c.sign k m) ≡ true → n ≡ m
  pub shows :
      (p q : Fields)
      → c.canonical p ≡ c.canonical q
      → get "revoked_at" p ≡ null
      → get "revoked_at" q ≡ null

module _ (c : Crypto) where
  -- `sign_payload`
  unfoldable pub sign_payload : c.KeyPair → Fields → c.Signature
  sign_payload k payload = c.sign k (c.canonical payload)

  -- `verify_payload`
  unfoldable pub verify_payload : String → Fields → c.Signature → Bool
  verify_payload key payload signature = c.verify key (c.canonical payload) signature
