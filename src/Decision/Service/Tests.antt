-- ===== src/Decision/Service/Tests.antt =====
-- A refund proposed twice, on the shop of the trust service.
use builder_league.Decision.Judgement.{Proposal}
use builder_league.Prelude.{
  ==_iff, Result, String, [], arith, err, ok, refl, some, ◌≡◌, ◌<◌, length, nat_eq, string_eq,
}
use builder_league.Trust.Credentials.{actions_of, among}
use builder_league.Decision.Resolve.{ask, refuse}
use builder_league.Decision.Policies.{compensation_for, domains, refund_policy}
use builder_league.Trust.Store.{find_by_key}
use builder_league.Prelude.Values.{end, field, str}
use builder_league.Trust.Samples.{shop, toy}
use builder_league.Decision.Service.{DecisionRecord, Decisions, Draws, Failure, decide}
use builder_league.Decision.Service.Again.{IsApart, decided_again}

abbrev desk : Decisions toy
desk = record { policies = domains; trust = shop; records = [] }

abbrev proposal : Proposal
proposal = record {
  domain = "refund";
  action = "issue_refund";
  actor_key = "buyer";
  amount = some 40;
  context = field "invoice_id" (str "i7") end;
}

abbrev draws : String → Draws
draws id = record { now = 5; ids = λ n. "fork"; probe_id = "p"; id = id; receipt_id = id }

-- what the first decision comes to
abbrev kept : Result Failure (DecisionRecord × Decisions toy) → DecisionRecord × Decisions toy
kept (ok x) = x
kept (err e) = (
  record {
    id = "";
    ts = 0;
    proposed = proposal;
    outcome = refuse;
    confidence = 0;
    risk = 0;
    signals = [];
    evidence_used = [];
    missing_information = [];
    reversibility = compensation_for refund_policy "";
    resolution_path = "";
    reasoning = str "";
    receipt_id = "";
  },
  desk,
)

abbrev decided : DecisionRecord × Decisions toy
decided = kept (decide toy (draws "d1") proposal desk)

asks : decided.0.outcome ≡ ask
unfolding decide actions_of among
asks = refl

decided-ok : decide toy (draws "d1") proposal desk ≡ ok decided
unfolding decide actions_of among
decided-ok = refl

desk-IsApart : IsApart toy proposal shop
unfolding IsApart find_by_key
desk-IsApart q = ground (arith, q, ==_iff {A = String} "a1" "decisioncore:buyer")

few : length shop.receipts < 10000
few = omega arith

decided_again_example :
    (s : DecisionRecord) × (v : Decisions toy) × (decide toy (draws "d2") proposal decided.1
      ≡ ok (s, v))
    × (s.outcome ≡ decided.0.outcome)
    × (s.resolution_path ≡ decided.0.resolution_path)
    × (s.confidence ≡ decided.0.confidence)
    × (s.risk ≡ decided.0.risk)
decided_again_example =
    decided_again toy (draws "d1") (draws "d2") proposal desk decided.1 decided.0 decided-ok refl
      desk-IsApart few
