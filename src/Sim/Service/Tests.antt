-- ===== src/Sim/Service/Tests.antt =====
-- The theorems on the simulation service at small inputs.
use builder_league.Sim.Records.{Intent, Simulation, executed, get, is_executed}
use builder_league.Prelude.Values.{Fields, end, format, get_or, null, str, values_of}
use builder_league.Prelude.{
  ==_iff, List, String, [], arith, err, false, inl, none, ok, refl, some, ℕ, ◌∷◌, ◌≡◌, ◌≢◌, nat_eq,
  string_eq,
}
use builder_league.Prelude.Int.{pos}
use builder_league.Prelude.Dict.{lookup}
use builder_league.Trust.Crypto.{verify_payload}
use builder_league.Trust.Credentials.{signed_payload, verify_credential}
use builder_league.Trust.Policy.{allow, refuse}
use builder_league.Trust.Samples.{shop, toy}
use builder_league.Trust.Service.Filing.{IsFiled}
use builder_league.Trust.Store.{for_subject, list_agents}
use builder_league.Sim.Fork.{Snapshot, fork_trust}
use builder_league.Sim.Pipeline.{Books, Draws, not_pending, nothing_executed, run_purchase}
use builder_league.Sim.Service.{World, execute, reject, rollback}
use builder_league.Sim.Service.Requests.{
  IsKeyed, IsServed, Request, decided_once, executes, rolls_back, serve, serve-IsStep, serve_all,
  simulates,
}
use builder_league.Sim.Service.Preview.{brief, preview_is_exact, preview_refuses_unregistered}

abbrev draws : ℕ → Draws
draws now = record { now = now; ts = "t"; receipt_id = "r1"; entry_id = "e1"; audit_id = "u1" }

abbrev books : Books toy
books = record { trust = shop; ledger = [] }

abbrev intent : Intent
intent = record { requester_key = "buyer"; amount = pos 5; description = "paper" }

-- a simulation that was executed
abbrev done : Simulation
done = record {
  id = "s1";
  created_at = 1;
  intent = intent;
  status = executed;
  fork_diff = end;
  rollback_preview = [];
  predicted_effects = record {
    decision = allow;
    balance_after = pos 5;
    limit = pos 100;
    scope_usage_pct = (pos 500, pos 100);
    reasoning = null;
  };
  decision_receipt_id = some "r1";
  executed_entry = none;
  post_check = none;
  events = [];
}

abbrev world : World toy
world = record { books = books; sims = ("s1", done) ∷ []; limit = pos 100 }

abbrev no_diff : Snapshot toy → Snapshot toy → Fields
no_diff a b = end

abbrev requests : List (Request toy)
requests =
    rolls_back (draws 2) "s1"
    ∷ simulates "s2" (λ n. "fork") (draws 3) intent
    ∷ executes (draws 4) "s2"
    ∷ []

serve-IsStep_example :
    IsServed toy no_diff
      (simulates "s2" (λ n. "fork") (draws 3) intent)
      world.sims
      (serve toy no_diff (simulates "s2" (λ n. "fork") (draws 3) intent) world).sims
serve-IsStep_example =
    serve-IsStep toy no_diff (simulates "s2" (λ n. "fork") (draws 3) intent) world

world-IsKeyed : IsKeyed world.sims
unfolding get lookup
world-IsKeyed i s h = ground (arith, h, ==_iff "s1" i)

other_name : ◌≢◌ {A = String} "s2" "s1"
other_name q = ground (arith, q, ==_iff {A = String} "s2" "s1")

decided_once_example :
    (execute toy (draws 5) "s1" (serve_all toy no_diff requests world)
      ≡ (err (not_pending "s1"), serve_all toy no_diff requests world))
    × (reject toy (draws 5) "s1" (serve_all toy no_diff requests world)
        ≡ (err (not_pending "s1"), serve_all toy no_diff requests world))
    × (is_executed executed ≡ false
        → rollback toy (draws 5) "s1" (serve_all toy no_diff requests world)
          ≡ (err (nothing_executed "s1"), serve_all toy no_diff requests world))
unfolding get lookup
decided_once_example =
    decided_once toy no_diff "s1" done world requests (draws 5) world-IsKeyed refl refl
      (tt, (other_name, (tt, tt)))

shop-IsFiled : IsFiled toy shop.credentials
unfolding lookup
shop-IsFiled = (refl, refl, (refl, refl, tt))

preview_is_exact_example :
    brief
      (run_purchase toy
        (draws 1)
        "buyer"
        (pos 5)
        "paper"
        "sim:s1"
        (record { trust = fork_trust toy (λ n. "fork") shop; ledger = [] })).0
    ≡ brief (run_purchase toy (draws 2) "buyer" (pos 5) "paper" "exec:s1" books).0
unfolding for_subject list_agents verify_credential verify_payload signed_payload get_or
preview_is_exact_example =
    preview_is_exact toy (λ n. "fork") (draws 1) (draws 2) "buyer" "paper" "sim:s1" "exec:s1"
      (pos 5) books shop-IsFiled (inl refl) (refl, (refl, tt))

not_the_buyer : ◌≢◌ {A = String} "buyer" "stranger"
not_the_buyer q = cc

preview_refuses_unregistered_example :
    brief
      (run_purchase toy
        (draws 1)
        "stranger"
        (pos 5)
        "paper"
        "sim:s1"
        (record { trust = fork_trust toy (λ n. "fork") shop; ledger = [] })).0
    ≡ ok
        (refuse, format (values_of (str "no valid authority claim covers this action/amount" ∷ [])))
unfolding list_agents
preview_refuses_unregistered_example =
    preview_refuses_unregistered toy (λ n. "fork") (draws 1) "stranger" "paper" "sim:s1" (pos 5)
      books shop-IsFiled (not_the_buyer, tt)
