-- ===== src/Trust/Service.antt =====
-- `TrustService` (core/trustcore/application/services.py). The reading of the clock that a call takes,
-- and the identifier that it draws from `uuid4`, are its arguments; a day has 86400000000 microseconds.
pub mod Agreement
pub mod Decisions
pub mod Filing
pub mod History
pub mod Lifecycle
pub mod Listing
pub mod Profile
use builder_league.Prelude.{
  Bool, List, Option, Result, String, [], false, length, map, none, ok, or_raise, raise_if, some,
  suc, true, ℕ, ◌*◌, ◌++◌, ◌+◌, ◌∷◌, nat_eq, string_eq, ◌>>=◌, ◌>>◌,
}
use builder_league.Prelude.Int.{ℤ}
use builder_league.Prelude.Dict.{Dict}
use builder_league.Prelude.Values.{
  Fields, Value, dict, end, field, format, int, list, null, num, str, texts_of, values_of,
}
use builder_league.Trust.Crypto.{Crypto}
use builder_league.Trust.Credentials.{
  Credential, CredentialType, TrustError, VerificationFailure, authority_grant, bad_signature,
  expired, invalid_signature, new_unsigned_credential, revoke, revoked, sign_credential,
  task_completion, unknown_credential, verify_credential,
}
use builder_league.Trust.Policy.{Claim, PolicyDecision, PolicyResult, evaluate, refuse}
use builder_league.Trust.Store.{
  Agent, CredentialStore, Receipt, Registry, find_by_key, for_subject, list_agents, register, save,
}
use builder_league.Prelude.Dict

pub record TrustService (c : Crypto) : Type 0 where
  pub registry : Registry
  pub credentials : CredentialStore c
  pub receipts : List Receipt

abbrev pub day : ℕ
day = 86400000000

-- the three tallies of the loop of `decide`
pub record Tally : Type 0 where
  pub authority : List Claim
  pub completions : ℕ
  pub failures : List Value

-- a credential without failures counts by its type
abbrev pub count_valid : CredentialType → Claim → Tally → Tally
count_valid authority_grant k y = record y { authority = k ∷ y.authority }
count_valid task_completion k y = record y { completions = suc y.completions }
count_valid _ k y = y

abbrev pub failure_name : VerificationFailure → String
failure_name invalid_signature = "invalid_signature"
failure_name expired = "expired"
failure_name revoked = "revoked"

abbrev pub amount_value : Option ℤ → Value
amount_value none = null
amount_value (some a) = num a

abbrev pub agent_name : Option String → String
agent_name none = "unregistered"
agent_name (some i) = i

-- the policy's reasons, and for a refusal what was wrong with the credentials
abbrev pub reasoning_of : PolicyResult → List Value → Value
reasoning_of r [] = format (values_of r.reasons)
reasoning_of r (f ∷ fs) = elim r.decision [
  | refuse ↦ format (values_of (r.reasons ++ (f ∷ fs)))
  | _ ↦ format (values_of r.reasons)
]

module _ (c : Crypto) where
  abbrev pub empty : TrustService c
  empty = record { registry = []; credentials = []; receipts = [] }

  unfoldable pub register_agent :
      String → String → String → String → TrustService c → String × TrustService c
  unfolding register
  register_agent id name public_key owner t =
      let (i, r) = register id name public_key owner t.registry in (i, record t { registry = r })

  unfoldable pub issue_credential :
      String
      → ℕ
      → c.KeyPair
      → String
      → CredentialType
      → Fields
      → Fields
      → ℕ
      → TrustService c
      → Result TrustError (Credential c × TrustService c)
  unfolding new_unsigned_credential sign_credential save
  issue_credential id now issuer subject_key type claim scope ttl_days t = do
    d ← sign_credential c issuer (
        new_unsigned_credential c id (c.public_key issuer) subject_key type claim scope now
          (now + ttl_days * day))
    ok (d, record t { credentials = save c d t.credentials })

  abbrev pub is_bad_signature : List VerificationFailure → Bool
  is_bad_signature (invalid_signature ∷ fs) = true
  is_bad_signature fs = false

  unfoldable pub register_signed_credential :
      ℕ → Credential c → TrustService c → Result TrustError (Credential c × TrustService c)
  unfolding verify_credential save
  register_signed_credential now d t = do
    raise_if (is_bad_signature (verify_credential c d now)) bad_signature
    ok (d, record t { credentials = save c d t.credentials })

  unfoldable pub get_credential : String → TrustService c → Option (Credential c)
  unfolding Dict.lookup
  get_credential i t = Dict.lookup i t.credentials

  -- the loops of `list_credentials`
  abbrev pub collect : List (Credential c) → CredentialStore c → CredentialStore c
  collect [] seen = seen
  collect (d ∷ ds) seen = collect ds (Dict.insert d.id d seen)

  abbrev pub collect_all : List Agent → CredentialStore c → CredentialStore c → CredentialStore c
  collect_all [] store seen = seen
  collect_all (a ∷ more) store seen =
      collect_all more store (collect (for_subject c a.public_key store) seen)

  unfoldable pub list_credentials : TrustService c → List (Credential c)
  unfolding for_subject Dict.insert list_agents
  list_credentials t = Dict.values (collect_all (list_agents t.registry) t.credentials [])

  -- `revoke_credential`, with the credential that the issuer signed again, if any
  unfoldable pub revoke_credential :
      ℕ
      → String
      → String
      → Option (Credential c)
      → TrustService c
      → Result TrustError (TrustService c)
  unfolding Dict.lookup revoke save
  revoke_credential now i reason resigned t = do
    d ← or_raise (Dict.lookup i t.credentials) (unknown_credential i)
    ok (record t {
      credentials = elim resigned [
        | none ↦ save c (revoke c d now reason) t.credentials
        | some e ↦ save c e t.credentials
      ];
    })

  abbrev pub note_of : Credential c → List VerificationFailure → Value
  note_of d fs = dict (
      field "credential_id" (str d.id)
        (field "failures" (list (texts_of (map failure_name fs))) end))

  abbrev pub count_one : Credential c → List VerificationFailure → Tally → Tally
  count_one d [] y = count_valid d.type (record { id = d.id; scope = d.scope }) y
  count_one d (f ∷ fs) y = record y { failures = note_of d (f ∷ fs) ∷ y.failures }

  -- the loop of `decide`, which appends: the rest of the list comes after
  unfoldable pub tally : ℕ → List (Credential c) → Tally
  unfolding verify_credential
  tally now [] = record { authority = []; completions = 0; failures = [] }
  tally now (d ∷ ds) = count_one d (verify_credential c d now) (tally now ds)

  abbrev pub decision_signals : ℕ → Tally → Fields
  decision_signals checked y = field "credentials_checked" (int checked) (
      field "valid_authority" (int (length y.authority)) (
        field "valid_completions" (int y.completions)
          (field "failures" (list (values_of y.failures)) end)))

  abbrev pub decision_inputs : String → Option ℤ → String → Fields
  decision_inputs requester_key amount description =
      field "requester_key" (str requester_key)
        (field "amount" (amount_value amount) (field "description" (str description) end))

  unfoldable pub decision_receipt :
      String
      → ℕ
      → String
      → String
      → Option ℤ
      → String
      → TrustService c
      → ℕ
      → Tally
      → PolicyResult
      → Receipt
  unfolding find_by_key
  decision_receipt id now requester_key action amount description t checked y result = record {
    id = id;
    ts = now;
    agent_id = agent_name (find_by_key requester_key t.registry);
    action = action;
    inputs = decision_inputs requester_key amount description;
    signals = decision_signals checked y;
    decision = result.decision;
    reasoning = reasoning_of result y.failures;
    llm_called = false;
  }

  unfoldable pub decide :
      String
      → ℕ
      → String
      → String
      → Option ℤ
      → String
      → TrustService c
      → Result TrustError (Receipt × TrustService c)
  unfolding for_subject tally evaluate decision_receipt
  decide id now requester_key action amount description t = do
    let creds = for_subject c requester_key t.credentials
    let y = tally now creds
    result ← evaluate c action amount y.authority y.completions
    let receipt =
        decision_receipt id now requester_key action amount description t (length creds) y result
    ok (receipt, record t { receipts = t.receipts ++ (receipt ∷ []) })

  -- `record_event`
  unfoldable pub record_event :
      String
      → ℕ
      → String
      → String
      → Value
      → Fields
      → PolicyDecision
      → TrustService c
      → Receipt × TrustService c
  record_event id now actor action note inputs decision t =
      let receipt : Receipt = record {
        id = id;
        ts = now;
        agent_id = actor;
        action = action;
        inputs = inputs;
        signals = end;
        decision = decision;
        reasoning = note;
        llm_called = false;
      } in
      (receipt, record t { receipts = t.receipts ++ (receipt ∷ []) })
