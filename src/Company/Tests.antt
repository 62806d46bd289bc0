-- ===== src/Company/Tests.antt =====
-- A run of the inbox, and the theorem at it.
use builder_league.Prelude.Dict.{Dict}
use builder_league.Prelude.{
  List, [], arith, err, ok, refl, some, true, ◌>>=◌, ◌∷◌, ◌≡◌, nat_eq, string_eq,
}
use builder_league.Prelude.Int.{pos, ◌+ℤ◌, ◌-ℤ◌}
use builder_league.Prelude.Values.{end, field, num, str}
use builder_league.Company.Events.{CompanyEvent}
use builder_league.Company.Ledger.{fold_all, fold_one, fold_state, replay_day}
use builder_league.Company.Ledger.Replay.{IsAfter, IsOrdered, IsUntil, replay_then_rest}
use builder_league.Company.Inbox.{Escalation, already_resolved, resolve}
use builder_league.Company.Inbox.Once.{Call, raises, resolution_is_final, resolves, run}
use builder_league.Prelude.Dict

abbrev settled : Escalation
settled = record {
  id = "e1";
  day = 3;
  actor = "sales";
  summary = "discount";
  detail = "over the limit";
  resolved = true;
  resolution = some "approved";
}

abbrev more : List Call
more = raises "e2" 4 "ops" "order" "late" ∷ resolves "e1" "denied" ∷ resolves "e2" "approved" ∷ []

resolution_is_final_example :
    (Dict.lookup "e1" (run (("e1", settled) ∷ []) more) ≡ some settled)
    × (resolve "e1" "again" (run (("e1", settled) ∷ []) more) ≡ err (already_resolved "e1"))
unfolding Dict.lookup
resolution_is_final_example =
    resolution_is_final "e1" settled (("e1", settled) ∷ []) more "again" refl refl (refl, tt)

abbrev sale : CompanyEvent
sale = record {
  id = "a";
  day = 1;
  seq = 1;
  actor = "sales";
  kind = "invoice_collected";
  payload = field "amount" (num (pos 50)) (field "invoice_id" (str "i1") end);
}

abbrev payment : CompanyEvent
payment = record {
  id = "b";
  day = 2;
  seq = 2;
  actor = "finance";
  kind = "bill_paid";
  payload = field "amount" (num (pos 20)) (field "bill_id" (str "b1") end);
}

in_order : IsOrdered (sale ∷ payment ∷ [])
unfolding IsOrdered
in_order = ((omega arith, tt), (tt, tt))

first_day : IsUntil 1 (sale ∷ [])
unfolding IsUntil
first_day = (omega arith, tt)

second_day : IsAfter 1 (payment ∷ [])
unfolding IsAfter
second_day = (omega arith, tt)

replay_then_rest_example :
    fold_state (sale ∷ payment ∷ [])
    ≡ (replay_day (sale ∷ payment ∷ []) 1 >>= fold_all (payment ∷ []))
replay_then_rest_example =
    replay_then_rest 1 (sale ∷ []) (payment ∷ []) in_order first_day second_day

paid : (fold_state (payment ∷ sale ∷ []) >>= λ s. ok s.cash) ≡ ok (pos 30)
unfolding fold_state fold_one ◌-ℤ◌ ◌+ℤ◌
paid = refl
