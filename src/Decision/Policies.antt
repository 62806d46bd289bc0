-- ===== src/Decision/Policies.antt =====
-- Domain policies (core/decisioncore/domain/policies.py). Scores, weights and bars are thousandths;
-- amounts are millionths.
use builder_league.Prelude.{
  Bool, List, Result, String, [], any, contains, false, if◌then◌else◌, not, ok, or_raise, raise_if,
  true, ℕ, ◌*◌, ◌/◌, ◌>>◌, ◌∷◌, nat_eq, string_eq,
}
use builder_league.Prelude.Values.{Fields, end, field, flag, num, str}
use builder_league.Prelude.Int.{pos}
use builder_league.Prelude.Dict.{Dict}
use builder_league.Prelude.Dict

-- the cost of a reversal
pub data Cost : Type 0 where
  low medium high : Cost

pub record Compensation : Type 0 where
  pub exists : Bool
  pub kind : String
  pub cost : Cost
  pub partial : Bool

abbrev pub base_score : Cost → ℕ
base_score low = 1000
base_score medium = 600
base_score high = 300

-- `Compensation.reversibility_score`; the halves are whole thousandths
unfoldable pub reversibility_score : Compensation → ℕ
reversibility_score c =
    if not c.exists then 0 else if c.partial then base_score c.cost / 2 else base_score c.cost

abbrev pub cost_name : Cost → String
cost_name low = "low"
cost_name medium = "medium"
cost_name high = "high"

-- `Compensation.as_dict`
unfoldable pub as_dict : Compensation → Fields
unfolding reversibility_score
as_dict c = field "exists" (flag c.exists) (
    field "kind" (str c.kind) (
      field "cost" (str (cost_name c.cost)) (
        field "partial" (flag c.partial)
          (field "reversibility_score" (num (pos (reversibility_score c * 1000))) end))))

pub data DecisionError : Type 0 where
  missing_weight : String → DecisionError
  unknown_signals : String → DecisionError
  unknown_domain : String → DecisionError

abbrev pub all_signals : List String
all_signals = "authority" ∷ "reversibility" ∷ "evidence" ∷ "cost_of_wrong" ∷ "history" ∷ []

pub record DomainPolicy : Type 0 where
  pub domain : String
  pub actions : List String
  pub required_evidence : List String
  pub optional_evidence : List String
  pub cost_threshold : ℕ
  pub confidence_weights : Dict String ℕ
  pub risk_weights : Dict String ℕ
  pub compensation : Dict String Compensation
  pub confidence_floor : ℕ
  pub execute_bar : ℕ
  pub risk_bar : ℕ
  pub description : String

-- `DomainPolicy.compensation_for`
unfoldable pub compensation_for : DomainPolicy → String → Compensation
unfolding Dict.lookup
compensation_for p action =
    Dict.get_or action
      (record { exists = false; kind = "none_defined"; cost = high; partial = true }) p.compensation

abbrev pub is_unknown : String → Bool
is_unknown k = not (contains k all_signals)

-- `DomainPolicy.validate`
unfoldable pub validate : DomainPolicy → Result DecisionError (Unit {0})
validate p = do
  raise_if (any is_unknown (Dict.keys p.confidence_weights)) (unknown_signals p.domain)
  raise_if (any is_unknown (Dict.keys p.risk_weights)) (unknown_signals p.domain)

-- `REFUND`
abbrev pub refund_policy : DomainPolicy
refund_policy = record {
  domain = "refund";
  actions = "issue_refund" ∷ [];
  required_evidence = "invoice_id" ∷ "reason" ∷ [];
  optional_evidence = "customer_history" ∷ "prior_refunds_count" ∷ [];
  cost_threshold = 500000000;
  confidence_weights =
      ("authority", 300) ∷ ("reversibility", 150) ∷ ("evidence", 300) ∷ ("history", 250) ∷ [];
  risk_weights = ("cost_of_wrong", 500) ∷ ("reversibility", 300) ∷ ("authority", 200) ∷ [];
  compensation =
      (
        "issue_refund",
        record { exists = true; kind = "refund_reversal"; cost = low; partial = false },
      )
      ∷ [];
  confidence_floor = 550;
  execute_bar = 700;
  risk_bar = 600;
  description = "Approve a customer refund against invoice evidence.";
}

-- `DEPLOY`
abbrev pub deploy_policy : DomainPolicy
deploy_policy = record {
  domain = "deploy";
  actions = "deploy_production" ∷ [];
  required_evidence = "tests_passing" ∷ "approvals" ∷ "change_ticket" ∷ [];
  optional_evidence = "canary_plan" ∷ "rollback_rehearsed" ∷ [];
  cost_threshold = 2000000000;
  confidence_weights =
      ("authority", 250) ∷ ("reversibility", 100) ∷ ("evidence", 400) ∷ ("history", 250) ∷ [];
  risk_weights = ("cost_of_wrong", 450) ∷ ("reversibility", 400) ∷ ("authority", 150) ∷ [];
  compensation =
      (
        "deploy_production",
        record { exists = true; kind = "rollback_deploy"; cost = high; partial = true },
      )
      ∷ [];
  confidence_floor = 600;
  execute_bar = 750;
  risk_bar = 550;
  description = "Deploy a service to production with blast-radius awareness.";
}

-- `MODERATION`
abbrev pub moderation_policy : DomainPolicy
moderation_policy = record {
  domain = "moderation";
  actions = "remove_content" ∷ [];
  required_evidence = "report_count" ∷ "policy_category" ∷ [];
  optional_evidence = "prior_violations" ∷ "content_age_days" ∷ [];
  cost_threshold = 100000000;
  confidence_weights =
      ("authority", 300) ∷ ("reversibility", 200) ∷ ("evidence", 300) ∷ ("history", 200) ∷ [];
  risk_weights = ("cost_of_wrong", 400) ∷ ("reversibility", 350) ∷ ("authority", 250) ∷ [];
  compensation =
      (
        "remove_content",
        record { exists = true; kind = "restore_content"; cost = low; partial = false },
      )
      ∷ [];
  confidence_floor = 500;
  execute_bar = 650;
  risk_bar = 600;
  description = "Remove flagged content, reversible if wrong.";
}

abbrev pub domains : Dict String DomainPolicy
domains =
    ("refund", refund_policy) ∷ ("deploy", deploy_policy) ∷ ("moderation", moderation_policy) ∷ []

-- `register_domain`, on the table that it changes
unfoldable pub register_domain :
    DomainPolicy → Dict String DomainPolicy → Result DecisionError (Dict String DomainPolicy)
unfolding validate Dict.insert
register_domain p table = validate p >> ok (Dict.insert p.domain p table)

-- `get_policy`
unfoldable pub get_policy : String → Dict String DomainPolicy → Result DecisionError DomainPolicy
unfolding Dict.lookup
get_policy domain table = or_raise (Dict.lookup domain table) (unknown_domain domain)
