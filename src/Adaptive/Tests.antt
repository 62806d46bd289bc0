-- ===== src/Adaptive/Tests.antt =====
-- Runs of the planner's rules on small inputs, and the theorems at such inputs.
use builder_league.Prelude.{
  All, String, [], any, arith, false, ok, refl, true, ◌&&◌, ◌==◌, ◌∷◌, ◌≡◌, ◌≢◌, ◌≤◌, nat_eq,
  string_eq,
}
use builder_league.Prelude.Values.{Fields, dict, end, field, flag, get_or, int, same, str, truthy}
use builder_league.Prelude.Int.{mul_ℤ, pos, ◌-ℤ◌}
use builder_league.Adaptive.Events.{WorldEvent, advance_cursor, advance_cursor-observes, new_events}
use builder_league.Adaptive.Plans.{Assumption, PlanStep, better_alternative, price_at_most}
use builder_league.Adaptive.Worlds.{available, item, number_at, supplier, suppliers_of}
use builder_league.Adaptive.Checks.{Contradiction, check_price, money, ratio}
use builder_league.Adaptive.Detection.{
  check_all, check_assumption, check_steps, detect_contradictions, is_checked, relevant,
  triggers_of,
}
use builder_league.Adaptive.Detection.Scope.{
  better_alternative_is_untriggered, detect_contradictions-IsFrom,
}
use builder_league.Adaptive.Damping.{
  DampingState, allowed, escalate_oscillation, evaluate_damping, is_absorbed, observed_number,
  record_revision,
}
use builder_league.Adaptive.Damping.Stability.{
  IsWithin, cooldown_holds, flip_flop_escalates, observe_all, revisions_are_bounded,
  same_reading_is_absorbed,
}

abbrev fresh : DampingState
fresh = record {
  revision_count = 0;
  max_revisions = 3;
  cooldown_until_seq = 0;
  recent_plan_shapes = [];
  last_trigger_values = [];
  margin_pct = 20000;
  cooldown_span = 1;
  epsilon = 10000;
}

-- a cap of $8.00 on the price, and a world where it is $9.00
abbrev cap : Assumption
cap = record {
  id = "c1";
  kind = price_at_most;
  params = field "supplier" (str "north") (field "max_price" (int 8) end);
  statement = str "north price";
  critical = true;
}

abbrev world : Fields
world =
    field "suppliers"
      (dict (field "north" (dict (field "price" (int 9) (field "available" (flag true) end))) end))
      end

abbrev step_of : String → PlanStep
step_of status = record {
  id = "s1";
  index = 0;
  action = "verify_price";
  params = end;
  assumptions = cap ∷ [];
  status = status;
}

abbrev too_high : String → Contradiction
too_high step = record {
  assumption_id = "c1";
  assumption_kind = price_at_most;
  step_id = step;
  statement = str "north price";
  expected = money "price ≤ " (pos 8000000);
  observed = money "price = " (pos 9000000);
  severity = ratio (pos 1000000) (pos 8000000000);
  critical = true;
  triggering_event_ids = "e1" ∷ [];
}

abbrev rise : WorldEvent
rise = record {
  id = "e1";
  ts = "12:00";
  seq = 4;
  kind = "price_changed";
  payload = field "supplier" (str "north") end;
  applied_effects = [];
}

rise_is_detected :
    detect_contradictions (step_of "pending" ∷ []) world (rise ∷ []) ≡ ok (too_high "s1" ∷ [])
unfolding detect_contradictions check_steps check_all check_assumption check_price triggers_of
    relevant suppliers_of supplier available number_at item mul_ℤ ◌-ℤ◌ get_or truthy same
rise_is_detected = refl

detect_contradictions-IsFrom_example :
    All
      (λ x. any (λ s. is_checked true s && (s.id == x.step_id)) (step_of "pending" ∷ []) ≡ true)
      (too_high "s1" ∷ [])
detect_contradictions-IsFrom_example =
    detect_contradictions-IsFrom world (rise ∷ []) (step_of "pending" ∷ []) (too_high "s1" ∷ [])
      rise_is_detected

better_alternative_is_untriggered_example :
    relevant rise (record cap { kind = better_alternative }) ≡ false
better_alternative_is_untriggered_example =
    better_alternative_is_untriggered rise (record cap { kind = better_alternative }) refl

advance_cursor-observes_example :
    (2 ≤ advance_cursor (rise ∷ []) 2)
    × (new_events (rise ∷ []) (advance_cursor (rise ∷ []) 2) ≡ [])
advance_cursor-observes_example = advance_cursor-observes (rise ∷ []) 2

revisions_are_bounded_example :
    IsWithin (observe_all fresh ((too_high "s1" ∷ [], "B", 5) ∷ (too_high "s1" ∷ [], "A", 9) ∷ []))
revisions_are_bounded_example =
    revisions_are_bounded fresh ((too_high "s1" ∷ [], "B", 5) ∷ (too_high "s1" ∷ [], "A", 9) ∷ [])
      (omega arith)

cooldown_holds_example :
    (evaluate_damping
      (record_revision fresh (too_high "s1" ∷ []) "B" 5)
      (too_high "s1" ∷ [])
      "A"
      6).verdict
    ≢ allowed
cooldown_holds_example =
    cooldown_holds fresh (too_high "s1" ∷ []) (too_high "s1" ∷ []) "B" "A" 5 6 (omega arith)

flip_flop_escalates_example :
    evaluate_damping
      (record_revision (record_revision fresh [] "A" 2) [] "B" 5)
      (too_high "s1" ∷ [])
      "A"
      9
    ≡ record { verdict = escalate_oscillation; surviving = too_high "s1" ∷ [] }
flip_flop_escalates_example = flip_flop_escalates fresh [] [] (too_high "s1") [] "A" "B" 2 5 9

same_reading_is_absorbed_example :
    is_absorbed (record_revision fresh (too_high "s1" ∷ []) "B" 5) (too_high "s1") ≡ true
unfolding observed_number
same_reading_is_absorbed_example = same_reading_is_absorbed fresh (too_high "s1") 9000000 "B" 5 refl
