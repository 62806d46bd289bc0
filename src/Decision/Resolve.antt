-- ===== src/Decision/Resolve.antt =====
-- Resolution (core/decisioncore/domain/resolve.py): the ordered rules from the numbers to one of five
-- outcomes. The path is the rule that fired; of the reason, the pieces are kept.
pub mod Rules
use builder_league.Prelude.{
  Bool, List, String, [], false, if◌then◌else◌, leb, ltb, not, true, ℕ, ◌&&◌, ◌*◌, ◌∷◌,
}
use builder_league.Prelude.Values.{Value, format, list, num, str, texts_of, values_of}
use builder_league.Prelude.Int.{pos}
use builder_league.Decision.Policies.{DomainPolicy}
use builder_league.Decision.Signals.{Authority, invalid, uncertain, valid}

pub data Outcome : Type 0 where
  execute ask defer escalate refuse : Outcome

pub record ResolutionFacts : Type 0 where
  pub authority : Authority
  pub reversible : Bool
  pub missing_required : List String

pub record Resolution : Type 0 where
  pub outcome : Outcome
  pub path : String
  pub reason : Value

abbrev pub because : Outcome → String → List Value → Resolution
because outcome path pieces = record {
  outcome = outcome;
  path = path;
  reason = format (values_of pieces);
}

-- a number of thousandths, as a value
abbrev pub shown : ℕ → Value
shown n = num (pos (n * 1000))

abbrev pub named_missing : List String → Value
named_missing [] = str "supporting evidence"
named_missing (f ∷ fs) = list (texts_of (f ∷ fs))

abbrev pub is_some_missing : List String → Bool
is_some_missing [] = false
is_some_missing (f ∷ fs) = true

-- rules 3 to 7, for an actor whose authority is valid
unfoldable pub weigh : DomainPolicy → ℕ → ℕ → ResolutionFacts → Resolution
weigh p confidence risk facts =
    let high_risk = leb p.risk_bar risk in
    if ltb confidence p.confidence_floor
    then because ask "hard_floor:insufficient_confidence" (
        str "confidence "
        ∷ shown confidence
        ∷ str " below floor "
        ∷ shown p.confidence_floor
        ∷ str "; missing: "
        ∷ named_missing facts.missing_required
        ∷ [])
    else if high_risk && not facts.reversible
    then because escalate "risk_high_not_reversible" (
        str "risk "
        ∷ shown risk
        ∷ str " ≥ "
        ∷ shown p.risk_bar
        ∷ str " and no cheap full compensating action exists — a human must own this"
        ∷ [])
    else if high_risk && is_some_missing facts.missing_required
    then because defer "risk_high_evidence_pending" (
        str "risk "
        ∷ shown risk
        ∷ str " is high but a compensating action exists; defer until evidence arrives: "
        ∷ list (texts_of facts.missing_required)
        ∷ [])
    else if leb p.execute_bar confidence
    then because execute "confident_acceptable_risk" (
        str "confidence "
        ∷ shown confidence
        ∷ str " ≥ "
        ∷ shown p.execute_bar
        ∷ str " with risk "
        ∷ shown risk
        ∷ str " < "
        ∷ shown p.risk_bar
        ∷ [])
    else because ask "default:gather_dont_guess" (
        str "confidence "
        ∷ shown confidence
        ∷ str " below execute bar "
        ∷ shown p.execute_bar
        ∷ str " and no hard block — ask for what would raise it"
        ∷ [])

unfoldable pub resolve : DomainPolicy → ℕ → ℕ → ResolutionFacts → Resolution
unfolding weigh
resolve p confidence risk facts = elim facts.authority [
  | invalid ↦
      because refuse "hard_block:invalid_authority"
        (str "authority evidence failed verification (forged, revoked, or out of scope)" ∷ [])
  | uncertain ↦
      because escalate "hard_block:uncertain_authority"
        (str "no valid authority grant on record — cannot self-authorize" ∷ [])
  | valid ↦ weigh p confidence risk facts
]
