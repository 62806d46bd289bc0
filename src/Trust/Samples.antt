-- ===== src/Trust/Samples.antt =====
-- A small signature scheme and a small trust service, to run the theorems on: a signature is the key
-- beside what it signs, and the text of a payload is whether `revoked_at` is null.
use builder_league.Prelude.{
  ==_refl, Bool, String, [], ap, arith, false, none, not, refl, sym, true, ◌&&◌, ◌==◌, ◌∙◌, ◌∷◌,
  ◌≡◌, nat_eq, string_eq,
}
use builder_league.Prelude.Values.{
  Fields, Value, dict, end, field, flag, format, get, get_or, list, null, num, str, texts_of,
}
use builder_league.Trust.Crypto.{Crypto, IsLawful, sign_payload}
use builder_league.Trust.Credentials.{Credential, authority_grant, signed_payload, task_completion}
use builder_league.Trust.Credentials.Signing.{IsSigned}
use builder_league.Trust.Service.{TrustService, day}
use builder_league.Trust.Store.{Agent}

abbrev pub is_null : Value → Bool
is_null null = true
is_null _ = false

abbrev pub is_same : Bool → Bool → Bool
is_same true b = b
is_same false b = not b

abbrev pub toy : Crypto
toy = record {
  KeyPair = String;
  Message = Bool;
  Signature = String × Bool;
  canonical = λ p. is_null (get "revoked_at" p);
  public_key = λ k. k;
  sign = λ k m. (k, m);
  verify = λ key m s. (s.0 == key) && is_same m s.1;
  read_float = λ s. none;
  blank = ("", false);
}

is_same_refl : (b : Bool) → is_same b b ≡ true
is_same_refl true = refl
is_same_refl false = refl

is_same-eq : (a b : Bool) → is_same a b ≡ true → a ≡ b
is_same-eq true true h = refl
is_same-eq false false h = refl
is_same-eq true false h = cc
is_same-eq false true h = cc

is_null-eq : (v : Value) → is_null v ≡ true → v ≡ null
is_null-eq null h = refl
is_null-eq (flag b) h = cc
is_null-eq (num n) h = cc
is_null-eq (str s) h = cc
is_null-eq (format vs) h = cc
is_null-eq (list vs) h = cc
is_null-eq (dict d) h = cc

pub toy-IsLawful : IsLawful toy
toy-IsLawful = record {
  accepts = λ k m. ground (arith, ==_refl k, is_same_refl m);
  binds = λ k m n h. is_same-eq n m (ground (arith, h));
  shows = λ p q e h. is_null-eq (get "revoked_at" q) (sym e ∙ ap is_null h);
}

abbrev pub scope : Fields
scope = field "actions" (list (texts_of ("purchase" ∷ []))) end

abbrev pub grant : Credential toy
grant = record {
  id = "g1";
  issuer_key = "acme";
  subject_key = "buyer";
  type = authority_grant;
  claim = end;
  scope = scope;
  issued_at = 0;
  expires_at = day;
  revoked_at = none;
  revocation_reason = none;
  signature = ("acme", true);
}

abbrev pub completion : Credential toy
completion = record grant { id = "c1"; type = task_completion }

pub grant-IsSigned : IsSigned toy grant
unfolding sign_payload signed_payload get_or
grant-IsSigned = record { key = "acme"; issuer = refl; signed = refl }

abbrev pub buyer : Agent
buyer = record { id = "a1"; name = "BuyerBot"; public_key = "buyer"; owner = "Acme" }

-- a registered buyer with a grant and a completed task
abbrev pub shop : TrustService toy
shop = record {
  registry = ("a1", buyer) ∷ [];
  credentials = ("g1", grant) ∷ ("c1", completion) ∷ [];
  receipts = [];
}
