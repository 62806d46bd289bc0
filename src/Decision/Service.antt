-- ===== src/Decision/Service.antt =====
-- `DecisionService` (core/decisioncore/application/services.py) with its store in memory
-- (core/decisioncore/adapters/memory.py), composed as the application does: the verifier, the history
-- and the audit trail are one trust service, and the probe is injected.
pub mod Again
mod Tests
use builder_league.Decision.Judgement.{
  Proposal, Verdict, authority_of, history_counts, judge_proposal,
}
use builder_league.Decision.Policies.{Compensation, DecisionError, DomainPolicy, get_policy}
use builder_league.Decision.Signals.{Authority, SignalScore}
use builder_league.Decision.Resolve.{Outcome, ask, defer, escalate, execute, refuse}
use builder_league.Prelude.Values.{
  Fields, Value, end, field, format, list, null, num, str, texts_of, values_of,
}
use builder_league.Prelude.{
  List, Option, Result, String, [], contains, err, map, none, not, ok, raise_if, reverse,
  slice_last, some, ℕ, ◌*◌, ◌∷◌, nat_eq, string_eq, ◌>>=◌, ◌>>◌,
}
use builder_league.Prelude.Int.{pos, ℤ}
use builder_league.Prelude.Dict.{Dict}
use builder_league.Prelude.Texts.{concat, first}
use builder_league.Prelude.Dict
use builder_league.Trust.Crypto.{Crypto}
use builder_league.Trust.Credentials.{TrustError}
use builder_league.Trust.Policy
use builder_league.Trust.Service.{TrustService, list_credentials, record_event}
use builder_league.Trust.Service
use builder_league.Trust.Store.{find_by_key, list_agents, list_receipts}
use builder_league.Sim.Fork.{register_all, save_all}

pub data Failure : Type 0 where
  of_decision : DecisionError → Failure
  of_trust : TrustError → Failure
  unknown_action : String → Failure

pub record DecisionRecord : Type 0 where
  pub id : String
  pub ts : ℕ
  pub proposed : Proposal
  pub outcome : Outcome
  pub confidence : ℕ
  pub risk : ℕ
  pub signals : List SignalScore
  pub evidence_used : List String
  pub missing_information : List String
  pub reversibility : Compensation
  pub resolution_path : String
  pub reasoning : Value
  pub receipt_id : String

pub record Decisions (c : Crypto) : Type 0 where
  pub policies : Dict String DomainPolicy
  pub trust : TrustService c
  pub records : Dict String DecisionRecord

-- what a call draws from `uuid4` and the clock; `ids` are those of the fork
pub record Draws : Type 0 where
  pub now : ℕ
  pub ids : ℕ → String
  pub probe_id : String
  pub id : String
  pub receipt_id : String

abbrev pub as_failure : {A : Type 0} → Result DecisionError A → Result Failure A
as_failure (ok a) = ok a
as_failure (err e) = err (of_decision e)

abbrev pub as_trust_failure : {A : Type 0} → Result TrustError A → Result Failure A
as_trust_failure (ok a) = ok a
as_trust_failure (err e) = err (of_trust e)

-- `str(outcome)`
abbrev pub outcome_value : Outcome → Value
outcome_value execute = str "execute"
outcome_value ask = str "ask"
outcome_value defer = str "defer"
outcome_value escalate = str "escalate"
outcome_value refuse = str "refuse"

-- `list_domains`
pub record DomainView : Type 0 where
  pub domain : String
  pub actions : List String
  pub required_evidence : List String
  pub cost_threshold : ℕ
  pub description : String

abbrev pub view_domain : DomainPolicy → DomainView
view_domain p = record {
  domain = p.domain;
  actions = p.actions;
  required_evidence = p.required_evidence;
  cost_threshold = p.cost_threshold;
  description = p.description;
}

unfoldable pub list_domains : Dict String DomainPolicy → List DomainView
list_domains d = map view_domain (Dict.values d)

module _ (c : Crypto) where
  -- `make_authority_probe`
  unfoldable pub probe : (ℕ → String) → TrustService c → TrustService c
  unfolding register_all save_all list_agents list_credentials list_receipts
  probe ids t = record {
    registry = register_all ids 0 (list_agents t.registry) [];
    credentials = save_all c (list_credentials c t) [];
    receipts = reverse (list_receipts 10000 t.receipts);
  }

  abbrev pub amount_of : Option ℕ → Option ℤ
  amount_of none = none
  amount_of (some n) = some (pos n)

  -- `_check_authority`
  unfoldable pub check_authority :
      Draws → DomainPolicy → Proposal → TrustService c → Result Failure Authority
  unfolding probe Service.decide authority_of concat
  check_authority d p q t = do
    done ← as_trust_failure (
        Service.decide c d.probe_id d.now q.actor_key q.action (amount_of q.amount)
          (concat "decisioncore authority check (" (concat p.domain ")")) (probe d.ids t))
    ok (authority_of done.0)

  -- what `decide` comes to, before it writes
  unfoldable pub assess :
      Dict String DomainPolicy → Draws → Proposal → TrustService c → Result Failure Verdict
  unfolding get_policy list_receipts find_by_key history_counts check_authority judge_proposal
  assess table d q t = do
    p ← as_failure (get_policy q.domain table)
    raise_if (not (contains q.action p.actions)) (unknown_action q.action)
    let counts =
        history_counts (find_by_key q.actor_key t.registry) q.action
          (list_receipts 10000 t.receipts)
    authority ← check_authority d p q t
    as_failure (judge_proposal p q counts authority)

  abbrev pub auditor : Proposal → String
  unfolding concat first
  auditor q = concat "decisioncore:" (first 12 q.actor_key)

  abbrev pub shown_score : ℕ → Value
  shown_score n = num (pos (n * 1000))

  abbrev pub shown_amount : Option ℕ → Value
  shown_amount none = null
  shown_amount (some n) = num (pos n)

  abbrev pub audit_inputs : Proposal → Verdict → Fields
  audit_inputs q v = field "domain" (str q.domain) (
      field "action" (str q.action) (
        field "amount" (shown_amount q.amount) (
          field "confidence" (shown_score v.confidence) (
            field "risk" (shown_score v.risk) (
              field "resolution_path" (str v.resolution.path)
                (field "missing_information" (list (texts_of v.missing)) end))))))

  abbrev pub decision_record : Draws → Proposal → Verdict → DecisionRecord
  decision_record d q v = record {
    id = d.id;
    ts = d.now;
    proposed = q;
    outcome = v.resolution.outcome;
    confidence = v.confidence;
    risk = v.risk;
    signals = v.signals;
    evidence_used = v.present;
    missing_information = v.missing;
    reversibility = v.compensation;
    resolution_path = v.resolution.path;
    reasoning = v.resolution.reason;
    receipt_id = d.receipt_id;
  }

  -- what `decide` writes: the receipt and the record
  unfoldable pub write_decision :
      Draws → Proposal → Verdict → Decisions c → DecisionRecord × Decisions c
  unfolding record_event auditor concat Dict.insert
  write_decision d q v w =
      let t =
        (record_event c d.receipt_id d.now (auditor q) (concat q.domain (concat "." q.action))
          (format
            (values_of (outcome_value v.resolution.outcome ∷ str ": " ∷ v.resolution.reason ∷ [])))
          (audit_inputs q v) Policy.allow w.trust).1 in
      (
        decision_record d q v,
        record w { trust = t; records = Dict.insert d.id (decision_record d q v) w.records },
      )

  unfoldable pub decide :
      Draws → Proposal → Decisions c → Result Failure (DecisionRecord × Decisions c)
  unfolding assess write_decision
  decide d q w = do v ← assess w.policies d q w.trust; ok (write_decision d q v w)

  unfoldable pub list_decisions : ℕ → Decisions c → List DecisionRecord
  list_decisions limit w = reverse (slice_last limit (Dict.values w.records))

  unfoldable pub get_decision : String → Decisions c → Option DecisionRecord
  unfolding Dict.lookup
  get_decision id w = Dict.lookup id w.records
