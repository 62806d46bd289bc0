-- ===== src/Decision/Tests.antt =====
-- Runs of the rules on small inputs, and the theorems at such inputs.
use builder_league.Prelude.{[], arith, refl, true, ◌↔◌, ◌∷◌, ◌≡◌, nat_eq, string_eq}
use builder_league.Prelude.Values.{Fields, end, field, get_or, str}
use builder_league.Prelude.Dict.{Dict}
use builder_league.Decision.Policies.{refund_policy}
use builder_league.Decision.Signals.{
  SignalScore, evidence_signal, for_confidence, missing_of, present_of, round_div, valid,
}
use builder_league.Decision.Signals.Evidence.{IsReport, evidence_is_reported}
use builder_league.Decision.Resolve.{ResolutionFacts, execute, resolve, weigh}
use builder_league.Decision.Resolve.Rules.{IsClear, execute_is_monotone, executed_iff_IsClear}
use builder_league.Prelude.Dict

abbrev ready : ResolutionFacts
ready = record { authority = valid; reversible = true; missing_required = [] }

executed_iff_IsClear_example :
    ((resolve refund_policy 800 900 ready).outcome ≡ execute) ↔ IsClear refund_policy 800 900 ready
executed_iff_IsClear_example = executed_iff_IsClear refund_policy 800 900 ready

execute_is_monotone_example : (resolve refund_policy 900 100 ready).outcome ≡ execute
unfolding resolve weigh
execute_is_monotone_example =
    execute_is_monotone refund_policy 800 900 900 100 ready (omega arith) (omega arith) refl

abbrev context : Fields
context =
    field "invoice_id" (str "i-7")
      (field "reason" (str "") (field "customer_history" (str "good") end))

abbrev half : SignalScore
half = record { name = "evidence"; value = 500; weight = 300; contributes_to = for_confidence }

evidence_is_reported_example :
    IsReport refund_policy context half ("reason" ∷ []) ("invoice_id" ∷ "customer_history" ∷ [])
unfolding evidence_signal missing_of present_of get_or Dict.lookup round_div
evidence_is_reported_example =
    evidence_is_reported refund_policy context half ("reason" ∷ [])
      ("invoice_id" ∷ "customer_history" ∷ []) refl
