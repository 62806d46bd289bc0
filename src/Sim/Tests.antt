-- ===== src/Sim/Tests.antt =====
-- Runs of the ledger on small inputs, and the theorems at such inputs.
use builder_league.Prelude.{List, [], arith, err, none, refl, some, ◌∷◌, ◌≡◌}
use builder_league.Prelude.Int.{pos, ◌+ℤ◌}
use builder_league.Sim.Ledger.{
  LedgerEntry, active_holds_total, already_refunded, append, find, invariant_violations,
  is_refunded, place_hold, place_refund, place_spend, projected_balance, refund, spend, spent_total,
}
use builder_league.Sim.Ledger.Calls.{Call, after, call, holds, refunds, run, spends}
use builder_league.Sim.Ledger.Integrity.{IsValid, calls-IsValid}
use builder_league.Sim.Ledger.Balance.{IsBalanced, call-IsBalanced, call_stays_in_limit}
use builder_league.Sim.Ledger.Once.{refund_once}

-- a spend of 50, a hold of 30, and a refund of the spend that is tried twice
abbrev calls : List Call
calls =
    spends "a" "t1" "bot" (pos 50) "parts"
    ∷ holds "b" "t2" "bot" (pos 30) "order"
    ∷ refunds "c" "t3" "a" "bot" "rollback"
    ∷ refunds "d" "t4" "a" "bot" "rollback"
    ∷ []

abbrev one_spend : LedgerEntry
one_spend = record {
  id = "a";
  ts = "t1";
  kind = spend;
  agent_key = "bot";
  amount = pos 50;
  currency = "USD";
  reference = "parts";
  compensates = none;
}

abbrev its_refund : LedgerEntry
its_refund = record {
  id = "c";
  ts = "t3";
  kind = refund;
  agent_key = "bot";
  amount = pos 50;
  currency = "USD";
  reference = "rollback";
  compensates = some "a";
}

balance_of_calls : projected_balance (run [] calls) ≡ pos 30
unfolding projected_balance spent_total active_holds_total is_refunded run call place_spend
    place_hold place_refund append find ◌+ℤ◌
balance_of_calls = refl

empty-IsValid : IsValid []
unfolding is_refunded
empty-IsValid = record {
  unique = tt;
  positive = tt;
  targets = λ i h. ground arith;
  once = λ i. omega arith;
}

calls-IsValid_example : IsValid (run [] calls)
unfolding run call place_spend place_hold place_refund append find is_refunded
calls-IsValid_example = calls-IsValid [] calls empty-IsValid (refl, (refl, (refl, (refl, tt))))

one-IsValid : IsValid (one_spend ∷ [])
unfolding run call place_spend append find
one-IsValid =
    calls-IsValid [] (spends "a" "t1" "bot" (pos 50) "parts" ∷ []) empty-IsValid (refl, tt)

refund_once_example :
    place_refund "e" "t5" "a" "bot" "again" (run (one_spend ∷ its_refund ∷ []) calls)
    ≡ err (already_refunded "a")
unfolding place_refund append find is_refunded
refund_once_example =
    refund_once "c" "t3" "a" "bot" "rollback" (one_spend ∷ []) (one_spend ∷ its_refund ∷ [])
      its_refund refl calls "e" "t5" "bot" "again"

-- the hold that is asked for, and the refund that is due
call-IsBalanced_example :
    IsBalanced
      (one_spend ∷ [])
      (holds "b" "t2" "bot" (pos 30) "order")
      (call (holds "b" "t2" "bot" (pos 30) "order") (one_spend ∷ []))
unfolding find
call-IsBalanced_example =
    call-IsBalanced (one_spend ∷ []) (holds "b" "t2" "bot" (pos 30) "order") one-IsValid refl

refund_lowers :
    IsBalanced
      (one_spend ∷ [])
      (refunds "c" "t3" "a" "bot" "rollback")
      (call (refunds "c" "t3" "a" "bot" "rollback") (one_spend ∷ []))
unfolding find
refund_lowers =
    call-IsBalanced (one_spend ∷ []) (refunds "c" "t3" "a" "bot" "rollback") one-IsValid refl

call_stays_in_limit_example :
    invariant_violations
      (after (one_spend ∷ []) (call (spends "e" "t5" "bot" (pos 10) "labels") (one_spend ∷ [])))
      (pos 60)
    ≡ []
unfolding find projected_balance is_refunded invariant_violations spent_total active_holds_total
    ◌+ℤ◌
call_stays_in_limit_example =
    call_stays_in_limit (one_spend ∷ []) (spends "e" "t5" "bot" (pos 10) "labels") (pos 60)
      one-IsValid refl (ground arith) refl
