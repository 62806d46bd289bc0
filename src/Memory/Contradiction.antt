-- ===== src/Memory/Contradiction.antt =====
-- Two facts that claim one slot (core/memorycore/domain/contradiction.py). A reason is the list of its
-- pieces, with the confidences unrounded.
use builder_league.Prelude.{
  List, Option, Result, String, [], if◌then◌else◌, ltb, none, not, ok, raise_if, some, ℕ, ◌++◌, ◌+◌,
  ◌-◌, ◌/◌, ◌==◌, ◌∷◌, nat_eq, string_eq, ◌>>◌,
}
use builder_league.Prelude.Int.{pos}
use builder_league.Prelude.Values.{Value, format, num, str, values_of}
use builder_league.Memory.Facts.{Fact, MemoryError, Python, effective_confidence, slot_mismatch}

-- `DECISIVE_MARGIN`
abbrev pub decisive_margin : ℕ
decisive_margin = 150000000

pub data ConflictOutcome : Type 0 where
  corroborate supersede reject_incoming contradiction : ConflictOutcome

pub record ConflictResolution : Type 0 where
  pub outcome : ConflictOutcome
  pub winner_id : Option String
  pub loser_id : Option String
  pub flagged_ids : List String
  pub reason : Value

-- a confidence in an f-string
abbrev pub shown : ℕ → Value
shown n = num (pos (n / 1000))

-- `abs(a - b)`
abbrev pub margin_of : ℕ → ℕ → ℕ
margin_of a b = (a - b) + (b - a)

abbrev pub beats : Fact → Fact → ℕ → ℕ → List Value
beats winner loser a b =
    str winner.value
    ∷ str " ("
    ∷ shown a
    ∷ str ") decisively beats "
    ∷ str loser.value
    ∷ str " ("
    ∷ shown b
    ∷ str ")"
    ∷ []

abbrev pub as_corroborated : Fact → ConflictResolution
as_corroborated existing = record {
  outcome = corroborate;
  winner_id = some existing.id;
  loser_id = none;
  flagged_ids = [];
  reason = str "same value from an independent sighting corroborates the fact";
}

abbrev pub as_contradicted : Fact → Fact → ℕ → ℕ → ConflictResolution
as_contradicted existing incoming a b = record {
  outcome = contradiction;
  winner_id = none;
  loser_id = none;
  flagged_ids = existing.id ∷ incoming.id ∷ [];
  reason = format (
      values_of (
        str "conflicting values for "
        ∷ str existing.slot
        ∷ str " at near-equal confidence ("
        ∷ shown a
        ∷ str " vs "
        ∷ shown b
        ∷ str ") — neither is trusted"
        ∷ []));
}

abbrev pub as_superseded : Fact → Fact → ℕ → ℕ → ConflictResolution
as_superseded existing incoming a b = record {
  outcome = supersede;
  winner_id = some incoming.id;
  loser_id = some existing.id;
  flagged_ids = [];
  reason = format (values_of (str "incoming " ∷ beats incoming existing b a));
}

abbrev pub as_rejected : Fact → Fact → ℕ → ℕ → ConflictResolution
as_rejected existing incoming a b = record {
  outcome = reject_incoming;
  winner_id = some existing.id;
  loser_id = some incoming.id;
  flagged_ids = [];
  reason = format (
      values_of
        (str "remembered " ∷ (beats existing incoming a b ++ (str " — incoming not stored" ∷ []))));
}

module _ (py : Python) where
  unfoldable pub resolve_conflict : Fact → Fact → ℕ → Result MemoryError ConflictResolution
  unfolding effective_confidence
  resolve_conflict existing incoming now = do
    raise_if (not (existing.slot == incoming.slot)) slot_mismatch
    let a = effective_confidence py existing now
    let b = effective_confidence py incoming now
    ok (
        if py.lower existing.value == py.lower incoming.value
        then as_corroborated existing
        else (if ltb (margin_of b a) decisive_margin
            then as_contradicted existing incoming a b
            else (if ltb a b
                then as_superseded existing incoming a b
                else as_rejected existing incoming a b)))
