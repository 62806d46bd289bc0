-- ===== src/Tower/Cost.antt =====
-- The cost meter (core/towercore/domain/cost.py). A price is in millionths of a dollar for 1000
-- tokens, so a cost, tokens times price, is an exact number of billionths of a dollar.
use builder_league.Prelude.{
  String, [], if◌then◌else◌, ltb, map, suc, ℕ, ◌%◌, ◌*◌, ◌+◌, ◌/◌, ◌∷◌, nat_eq, string_eq,
}
use builder_league.Prelude.Dict
use builder_league.Prelude.Dict.{Dict}

pub record TokenEstimate : Type 0 where
  pub input_tokens : ℕ
  pub output_tokens : ℕ

abbrev estimate : ℕ → ℕ → TokenEstimate
estimate i o = record { input_tokens = i; output_tokens = o }

abbrev default_estimate : TokenEstimate
default_estimate = estimate 400 100

abbrev pub action_token_estimates : Dict String TokenEstimate
action_token_estimates =
    ("decide", estimate 800 200)
    ∷ ("simulate", estimate 1200 350)
    ∷ ("execute", estimate 600 150)
    ∷ ("replan", estimate 1500 500)
    ∷ ("default", default_estimate)
    ∷ []

unfoldable pub estimate_tokens : String → TokenEstimate
unfolding Dict.lookup
estimate_tokens action_type = Dict.get_or action_type default_estimate action_token_estimates

pub record Bucket : Type 0 where
  pub calls : ℕ
  pub input_tokens : ℕ
  pub output_tokens : ℕ
  pub cost : ℕ

pub record CostMeter : Type 0 where
  pub in_price : ℕ
  pub out_price : ℕ
  pub ledger : Dict String (Dict String Bucket)

-- what `record` returns
pub record Costed : Type 0 where
  pub agent_id : String
  pub task : String
  pub action_type : String
  pub estimate : TokenEstimate
  pub cost : ℕ

abbrev empty_bucket : Bucket
empty_bucket = record { calls = 0; input_tokens = 0; output_tokens = 0; cost = 0 }

unfoldable pub price : CostMeter → TokenEstimate → ℕ
price m est = est.input_tokens * m.in_price + est.output_tokens * m.out_price

abbrev pub add_call : TokenEstimate → ℕ → Bucket → Bucket
add_call est cost b = record {
  calls = suc b.calls;
  input_tokens = b.input_tokens + est.input_tokens;
  output_tokens = b.output_tokens + est.output_tokens;
  cost = b.cost + cost;
}

-- `CostMeter.record`
unfoldable pub record_call : String → String → String → CostMeter → Costed × CostMeter
unfolding price estimate_tokens Dict.lookup Dict.insert
record_call agent_id task action_type m =
    let est = estimate_tokens action_type in
    let cost = price m est in
    let tasks = Dict.get_or agent_id [] m.ledger in
    let bucket = add_call est cost (Dict.get_or task empty_bucket tasks) in
    (
      record {
        agent_id = agent_id;
        task = task;
        action_type = action_type;
        estimate = est;
        cost = cost;
      },
      record m { ledger = Dict.insert agent_id (Dict.insert task bucket tasks) m.ledger },
    )

-- `round(x, 6)` of a number of billionths, in millionths: a half goes to the even neighbour
unfoldable pub round_micro : ℕ → ℕ
round_micro n =
    if ltb (n % 1000) 500
    then n / 1000
    else if ltb 500 (n % 1000)
    then n / 1000 + 1
    else n / 1000 + n / 1000 % 2

unfoldable pub sum_of : (Bucket → ℕ) → Dict String Bucket → ℕ
sum_of f [] = 0
sum_of f ((_, b) ∷ r) = f b + sum_of f r

pub record TaskCost : Type 0 where
  pub calls : ℕ
  pub tokens : ℕ
  pub cost_usd : ℕ

pub record AgentCost : Type 0 where
  pub agent_id : String
  pub basis : String
  pub total_tokens : ℕ
  pub total_cost_usd : ℕ
  pub tasks : Dict String TaskCost

abbrev task_cost : String × Bucket → String × TaskCost
task_cost (task, b) = (
  task,
  record {
    calls = b.calls;
    tokens = b.input_tokens + b.output_tokens;
    cost_usd = round_micro b.cost;
  },
)

-- `CostMeter.for_agent`
unfoldable pub for_agent : String → CostMeter → AgentCost
unfolding sum_of round_micro Dict.lookup
for_agent agent_id m =
    let tasks = Dict.get_or agent_id [] m.ledger in
    record {
      agent_id = agent_id;
      basis = "metered_estimate";
      total_tokens = sum_of (λ b. b.input_tokens) tasks + sum_of (λ b. b.output_tokens) tasks;
      total_cost_usd = round_micro (sum_of (λ b. b.cost) tasks);
      tasks = map task_cost tasks;
    }

unfoldable pub fleet_snapshot : CostMeter → Dict String AgentCost
unfolding for_agent
fleet_snapshot m = map (λ a. (a, for_agent a m)) (Dict.keys m.ledger)

unfoldable pub reset : CostMeter → CostMeter
reset m = record m { ledger = [] }
