-- ===== src/Sim/Fork.antt =====
-- The forked stores and the snapshots of the state (core/simcore/domain/fork.py, and `_fork_trust` and
-- `_fork_ledger` of core/simcore/application/services.py). Values are not shared, so that a deep copy
-- is the value itself. The identifiers that the fork draws for the agents are `ids 0`, `ids 1`, ....
use builder_league.Prelude.{List, String, [], map, reverse, suc, ℕ, ◌∷◌}
use builder_league.Prelude.Values.{Fields, Value}
use builder_league.Trust.Crypto.{Crypto}
use builder_league.Trust.Credentials.{Credential, signed_payload}
use builder_league.Trust.Policy.{PolicyDecision}
use builder_league.Trust.Service.{TrustService, list_credentials}
use builder_league.Trust.Store.{
  Agent, CredentialStore, Receipt, Registry, list_agents, list_receipts, register, save,
}
use builder_league.Sim.Ledger.{Ledger}

pub record ReceiptView : Type 0 where
  pub id : String
  pub ts : ℕ
  pub agent_id : String
  pub action : String
  pub inputs : Fields
  pub signals : Fields
  pub decision : PolicyDecision
  pub reasoning : Value

pub record Snapshot (c : Crypto) : Type 0 where
  pub agents : List Agent
  -- `c.signed_payload() | {"signature": c.signature}`
  pub credentials : List (Fields × c.Signature)
  pub entries : Ledger
  pub receipts : List ReceiptView

abbrev pub view_receipt : Receipt → ReceiptView
view_receipt r = record {
  id = r.id;
  ts = r.ts;
  agent_id = r.agent_id;
  action = r.action;
  inputs = r.inputs;
  signals = r.signals;
  decision = r.decision;
  reasoning = r.reasoning;
}

-- the loop of `_fork_trust` over the agents
unfoldable pub register_all : (ℕ → String) → ℕ → List Agent → Registry → Registry
unfolding register
register_all ids n [] r = r
register_all ids n (a ∷ more) r =
    register_all ids (suc n) more (register (ids n) a.name a.public_key a.owner r).1

module _ (c : Crypto) where
  -- the loop of `_fork_trust` over the credentials
  unfoldable pub save_all : List (Credential c) → CredentialStore c → CredentialStore c
  unfolding save
  save_all [] s = s
  save_all (d ∷ ds) s = save_all ds (save c d s)

  unfoldable pub fork_trust : (ℕ → String) → TrustService c → TrustService c
  unfolding register_all save_all list_agents list_credentials list_receipts
  fork_trust ids t = record {
    registry = register_all ids 0 (list_agents t.registry) [];
    credentials = save_all (list_credentials c t) [];
    receipts = reverse (list_receipts 10000 t.receipts);
  }

  abbrev pub sealed : Credential c → Fields × c.Signature
  unfolding signed_payload
  sealed d = (signed_payload c d, d.signature)

  unfoldable pub snapshot_parts : TrustService c → Ledger → Snapshot c
  unfolding list_agents list_credentials list_receipts
  snapshot_parts t l = record {
    agents = list_agents t.registry;
    credentials = map sealed (list_credentials c t);
    entries = l;
    receipts = map view_receipt (list_receipts 10000 t.receipts);
  }
