-- ===== src/Trust/Store.antt =====
-- The stores in memory (core/trustcore/adapters/memory.py), without their locks: the agents and the
-- credentials by identifier, and the receipts in the order in which they were appended.
use builder_league.Prelude.{
  Bool, List, Option, Result, String, [], filter, if◌then◌else◌, none, ok, or_raise, reverse,
  slice_last, some, ℕ, ◌==◌, ◌∷◌, nat_eq, string_eq, ◌>>=◌,
}
use builder_league.Prelude.Dict.{Dict}
use builder_league.Prelude.Values.{Fields, Value}
use builder_league.Trust.Crypto.{Crypto}
use builder_league.Trust.Credentials.{Credential, TrustError, revoke, unknown_credential}
use builder_league.Trust.Policy.{PolicyDecision}
use builder_league.Prelude.Dict

pub record Agent : Type 0 where
  pub id : String
  pub name : String
  pub public_key : String
  pub owner : String

-- `InMemoryAgentRegistry`
abbrev pub Registry : Type 0
Registry = Dict String Agent

-- `register`; the identifier, which the code draws from `uuid4`, is an argument
unfoldable pub register : String → String → String → String → Registry → String × Registry
unfolding Dict.insert
register id name public_key owner r =
    (id, Dict.insert id (record { id = id; name = name; public_key = public_key; owner = owner }) r)

unfoldable pub get_public_key : String → Registry → Option String
unfolding Dict.lookup
get_public_key agent_id r = elim (Dict.lookup agent_id r) [
  | none ↦ none
  | some a ↦ some a.public_key
]

unfoldable pub find_by_key : String → Registry → Option String
find_by_key key [] = none
find_by_key key ((i, a) ∷ r) = if a.public_key == key then some i else find_by_key key r

unfoldable pub list_agents : Registry → List Agent
list_agents r = Dict.values r

-- `Receipt` (core/trustcore/application/ports.py)
pub record Receipt : Type 0 where
  pub id : String
  pub ts : ℕ
  pub agent_id : String
  pub action : String
  pub inputs : Fields
  pub signals : Fields
  pub decision : PolicyDecision
  pub reasoning : Value
  pub llm_called : Bool

-- `InMemoryReceiptLog.list`
unfoldable pub list_receipts : ℕ → List Receipt → List Receipt
list_receipts limit log = reverse (slice_last limit log)

module _ (c : Crypto) where
  -- `InMemoryCredentialStore`
  abbrev pub CredentialStore : Type 0
  CredentialStore = Dict String (Credential c)

  unfoldable pub save : Credential c → CredentialStore → CredentialStore
  unfolding Dict.insert
  save d s = Dict.insert d.id d s

  unfoldable pub for_subject : String → CredentialStore → List (Credential c)
  for_subject key s = filter (λ d. d.subject_key == key) (Dict.values s)

  -- `mark_revoked`; it raises on a key that is missing
  unfoldable pub mark_revoked :
      String → ℕ → String → CredentialStore → Result TrustError CredentialStore
  unfolding Dict.insert Dict.lookup revoke
  mark_revoked i at reason s = do
    d ← or_raise (Dict.lookup i s) (unknown_credential i)
    ok (Dict.insert i (revoke c d at reason) s)
