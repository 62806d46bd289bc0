-- ===== src/Sim/Service/Frame.antt =====
-- The calls inside a request that leave the stored simulations alone.
use builder_league.Prelude.Exec.{Keeps, Keeps-bind, keeps_rules}
use builder_league.Sim.Records.{Simulation, SimulationStore, get}
use builder_league.Prelude.{
  Bool, List, Option, String, [], err, false, none, ok, refl, some, true, ◌==◌, ◌∷◌, ◌≡◌, nat_eq,
  string_eq,
}
use builder_league.Trust.Crypto.{Crypto}
use builder_league.Sim.Pipeline.{Draws, Run, unknown_simulation}
use builder_league.Sim.Service.{
  World, audit, escalate_audit, on_books, purchase_live, refund_entry, required, revoke_agents,
  revoke_all_if, revoke_grants, revoke_if, violation_note,
}
use builder_league.Prelude.Values.{Value}
use builder_league.Trust.Service.Profile.{ProfileCredential, is_valid_of}
use builder_league.Trust.Store.{Agent}
use builder_league.Sim.Ledger.{LedgerEntry, Violation}

module _ (c : Crypto) (m : SimulationStore) where
  abbrev pub SameSims : World c → Type 0
  SameSims w = w.sims ≡ m

  pub Keeps-on_books : {A : Type 0} (r : Run c A) → Keeps SameSims (on_books c r)
  Keeps-on_books r = record { at = λ w h. h }

  pub Keeps-purchase_live :
      (d : Draws) (i : String) (s : Simulation) → Keeps SameSims (purchase_live c d i s)
  unfolding purchase_live
  Keeps-purchase_live d i s = Keeps-on_books _

  pub Keeps-audit :
      (d : Draws) (i : Option String) (action : String) (note : Value)
      → Keeps SameSims (audit c d i action note)
  unfolding audit
  Keeps-audit d i action note = search (Keeps-on_books, keeps_rules)

  pub Keeps-escalate_audit :
      (d : Draws) (i : String) (vs : List Violation) → Keeps SameSims (escalate_audit c d i vs)
  unfolding escalate_audit
  Keeps-escalate_audit d i [] = search keeps_rules
  Keeps-escalate_audit d i (v ∷ vs) = Keeps-audit d (some i) "escalate" (violation_note v)

  pub Keeps-refund_entry :
      (d : Draws) (i key : String) (e : Option LedgerEntry)
      → Keeps SameSims (refund_entry c d i key e)
  unfolding refund_entry
  Keeps-refund_entry d i key none = search keeps_rules
  Keeps-refund_entry d i key (some e) = search (Keeps-on_books, keeps_rules)

  pub Keeps-revoke_if :
      (b : Bool) (d : Draws) (i credential_id : String)
      → Keeps SameSims (revoke_if c b d i credential_id)
  unfolding revoke_if
  Keeps-revoke_if true d i credential_id = search (Keeps-on_books, keeps_rules)
  Keeps-revoke_if false d i credential_id = search keeps_rules

  pub Keeps-revoke_grants :
      (d : Draws) (i : String) (ps : List ProfileCredential)
      → Keeps SameSims (revoke_grants c d i ps)
  unfolding revoke_grants
  Keeps-revoke_grants d i [] = search keeps_rules
  Keeps-revoke_grants d i (p ∷ ps) =
      Keeps-bind (revoke_if c (is_valid_of "AuthorityGrant" p) d i p.id) _
        (Keeps-revoke_if _ d i p.id) (λ _. Keeps-revoke_grants d i ps)

  pub Keeps-revoke_all_if :
      (b : Bool) (d : Draws) (i key : String) → Keeps SameSims (revoke_all_if c b d i key)
  unfolding revoke_all_if
  Keeps-revoke_all_if true d i key = search (Keeps-revoke_grants, keeps_rules)
  Keeps-revoke_all_if false d i key = search keeps_rules

  pub Keeps-revoke_agents :
      (d : Draws) (i key : String) (agents : List Agent)
      → Keeps SameSims (revoke_agents c d i key agents)
  unfolding revoke_agents
  Keeps-revoke_agents d i key [] = search keeps_rules
  Keeps-revoke_agents d i key (a ∷ more) =
      Keeps-bind (revoke_all_if c (a.public_key == key) d i a.public_key) _
        (Keeps-revoke_all_if _ d i a.public_key) (λ _. Keeps-revoke_agents d i key more)

  pub required-none :
      (i : String) (w : World c)
      → get i w.sims ≡ none
      → required c i w ≡ (err (unknown_simulation i), w)
  unfolding required
  required-none i w h = rw (h, required) refl

  pub required-some :
      (i : String) (s : Simulation) (w : World c)
      → get i w.sims ≡ some s
      → required c i w ≡ (ok s, w)
  unfolding required
  required-some i s w h = rw (h, required) refl
