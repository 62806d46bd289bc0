-- ===== src/Trust/Service/History.antt =====
-- Histories of calls of the service. A call that raises leaves the service as it was.
use mathlib.Core.List.{append-nil, append_assoc}
use builder_league.Prelude.{
  List, Option, Result, String, [], ap, err, none, ok, refl, some, sym, ℕ, ◌++◌, ◌>>=◌, ◌∙◌, ◌∷◌,
  ◌≡◌,
}
use builder_league.Prelude.Int.{ℤ}
use builder_league.Prelude.Values.{Fields, Value}
use builder_league.Trust.Crypto.{Crypto}
use builder_league.Trust.Credentials.{Credential, CredentialType, TrustError, revoke}
use builder_league.Trust.Policy.{PolicyDecision}
use builder_league.Trust.Service.{
  TrustService, decide, issue_credential, record_event, register_agent, register_signed_credential,
  revoke_credential,
}
use builder_league.Trust.Service.Filing.{IsFiled}
use builder_league.Trust.Service.Listing.{IsFiled-insert}
use builder_league.Trust.Store.{Receipt, save}

-- the calls that change the service, with what each draws and reads
pub data Call (c : Crypto) : Type 0 where
  registers : String → String → String → String → Call c
  issues : String → ℕ → c.KeyPair → String → CredentialType → Fields → Fields → ℕ → Call c
  submits : ℕ → Credential c → Call c
  revokes : ℕ → String → String → Option (Credential c) → Call c
  decides : String → ℕ → String → String → Option ℤ → String → Call c
  notes : String → ℕ → String → String → Value → Fields → PolicyDecision → Call c

module _ (c : Crypto) where
  -- what a call leaves
  abbrev pub left_by :
      {A : Type 0} → TrustService c → Result TrustError (A × TrustService c) → TrustService c
  left_by t (ok (a, u)) = u
  left_by t (err e) = t

  abbrev pub left : TrustService c → Result TrustError (TrustService c) → TrustService c
  left t (ok u) = u
  left t (err e) = t

  unfoldable pub call : Call c → TrustService c → TrustService c
  unfolding register_agent issue_credential register_signed_credential revoke_credential decide
      record_event
  call (registers id name public_key owner) t = (register_agent c id name public_key owner t).1
  call (issues id now issuer subject_key type claim scope ttl_days) t =
      left_by t (issue_credential c id now issuer subject_key type claim scope ttl_days t)
  call (submits now d) t = left_by t (register_signed_credential c now d t)
  call (revokes now i reason resigned) t = left t (revoke_credential c now i reason resigned t)
  call (decides id now key action amount description) t =
      left_by t (decide c id now key action amount description t)
  call (notes id now actor action note inputs decision) t =
      (record_event c id now actor action note inputs decision t).1

  unfoldable pub call_all : List (Call c) → TrustService c → TrustService c
  unfolding call
  call_all [] t = t
  call_all (q ∷ qs) t = call_all qs (call q t)

  -- later receipts stand after the earlier ones, and the credentials stay filed
  pub record Extends (t u : TrustService c) : Type 0 where
    pub more : List Receipt
    pub appended : u.receipts ≡ t.receipts ++ more
    pub still_filed : IsFiled c t.credentials → IsFiled c u.credentials

  Extends-refl : (t : TrustService c) → Extends t t
  Extends-refl t = record {
    more = [];
    appended = sym (append-nil t.receipts);
    still_filed = λ f. f;
  }

  Extends-trans : (t u v : TrustService c) → Extends t u → Extends u v → Extends t v
  Extends-trans t u v x y = record {
    more = x.more ++ y.more;
    appended =
        y.appended ∙ (ap (λ rs. rs ++ y.more) x.appended ∙ append_assoc t.receipts x.more y.more);
    still_filed = λ f. y.still_filed (x.still_filed f);
  }

  Extends-save :
      (d : Credential c) (t : TrustService c)
      → Extends t (record t { credentials = save c d t.credentials })
  unfolding save
  Extends-save d t = record {
    more = [];
    appended = sym (append-nil t.receipts);
    still_filed = IsFiled-insert c d t.credentials;
  }

  Extends-receipt :
      (r : Receipt) (t : TrustService c)
      → Extends t (record t { receipts = t.receipts ++ (r ∷ []) })
  Extends-receipt r t = record { more = r ∷ []; appended = refl; still_filed = λ f. f }

  -- a call that returns with what extends the service extends it
  Extends-left_by :
      {A B : Type 0} (t : TrustService c) (x : Result TrustError B) (f : B → A × TrustService c)
      → ((b : B) → Extends t (f b).1)
      → Extends t (left_by t (x >>= λ b. ok (f b)))
  Extends-left_by t (ok b) f h = h b
  Extends-left_by t (err e) f h = Extends-refl t

  Extends-left :
      {B : Type 0} (t : TrustService c) (x : Result TrustError B) (f : B → TrustService c)
      → ((b : B) → Extends t (f b))
      → Extends t (left t (x >>= λ b. ok (f b)))
  Extends-left t (ok b) f h = h b
  Extends-left t (err e) f h = Extends-refl t

  Extends-resigned :
      (o : Option (Credential c)) (d : Credential c) (t : TrustService c)
      → Extends t (record t {
        credentials = elim o [ none ↦ save c d t.credentials | some e ↦ save c e t.credentials ];
      })
  Extends-resigned none d t = Extends-save d t
  Extends-resigned (some e) d t = Extends-save e t

  call-Extends : (q : Call c) (t : TrustService c) → Extends t (call q t)
  unfolding call register_agent issue_credential register_signed_credential revoke_credential decide
      record_event
  call-Extends (registers id name public_key owner) t = record {
    more = [];
    appended = sym (append-nil t.receipts);
    still_filed = λ f. f;
  }
  call-Extends (issues id now issuer subject_key type claim scope ttl_days) t =
      Extends-left_by t _ _ λ d. Extends-save d t
  call-Extends (submits now d) t = Extends-left_by t _ _ λ u. Extends-save d t
  call-Extends (revokes now i reason resigned) t =
      Extends-left t _ _ λ d. Extends-resigned resigned (revoke c d now reason) t
  call-Extends (decides id now key action amount description) t =
      Extends-left_by t _ _ λ r. Extends-receipt _ t
  call-Extends (notes id now actor action note inputs decision) t = Extends-receipt _ t

  call_all-Extends : (qs : List (Call c)) (t : TrustService c) → Extends t (call_all qs t)
  unfolding call_all
  call_all-Extends [] t = Extends-refl t
  call_all-Extends (q ∷ qs) t =
      Extends-trans t (call q t) (call_all qs (call q t)) (call-Extends q t)
        (call_all-Extends qs (call q t))

-- Whatever calls are made of the service, the receipts that it has stay as they are and in place, new
-- ones standing after them; and if every credential stands under its own identifier once, it still does.
pub calls_append-IsFiled :
    (c : Crypto) (qs : List (Call c)) (t : TrustService c)
    → ((more : List Receipt) × ((call_all c qs t).receipts ≡ t.receipts ++ more))
      × (IsFiled c t.credentials → IsFiled c (call_all c qs t).credentials)
calls_append-IsFiled c qs t =
    let x = call_all-Extends c qs t in ((x.more, x.appended), x.still_filed)
