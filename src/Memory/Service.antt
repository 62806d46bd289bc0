-- ===== src/Memory/Service.antt =====
-- `MemoryService` (core/memorycore/application/services.py). The reading of the clock that a call takes,
-- and the identifiers that it draws from `uuid4`, are arguments. What raises writes nothing.
pub mod Claimants
pub mod Conflicts
pub mod Revocation
use builder_league.Memory.Store.{
  Memory, bury, by_slot, is_forgotten, note_event, save_fact, sorted, tombstone_of,
}
use builder_league.Prelude.{
  Bool, List, Option, Result, String, [], false, filter, if◌then◌else◌, length, ltb, map, none, not,
  ok, or_raise, raise_if, some, suc, true, ℕ, ◌++◌, ◌==◌, ◌∷◌, nat_eq, string_eq, ◌>>=◌, ◌>>◌,
}
use builder_league.Prelude.Int.{ℤ}
use builder_league.Prelude.Dict.{Dict}
use builder_league.Prelude.Dict
use builder_league.Prelude.Values.{
  Fields, Value, end, field, format, int, list, null, str, texts_of, values_of,
}
use builder_league.Memory.Facts.{
  Fact, MemoryError, Provenance, Python, SourceKind, bad_revocation, default_half_life_days,
  effective_confidence, imported, inferred, is_expired, make_fact, make_provenance, observed,
  unknown_fact, user_stated,
}
use builder_league.Memory.Contradiction.{
  ConflictOutcome, contradiction, corroborate, reject_incoming, resolve_conflict, shown, supersede,
}
use builder_league.Memory.Recall.{RecallResult, recall}
use builder_league.Memory.Forgetting.{
  Tombstone, cascaded_forgets, contradicted, revoked, stale, stale_facts, superseded,
}
use builder_league.Trust.Crypto.{Crypto, verify_payload}

abbrev pub kind_name : SourceKind → String
kind_name user_stated = "user_stated"
kind_name observed = "observed"
kind_name inferred = "inferred"
kind_name imported = "imported"

-- the outcome of `learn`, `none` for a fact that met no other
abbrev pub outcome_name : Option ConflictOutcome → String
outcome_name none = "stored"
outcome_name (some corroborate) = "corroborate"
outcome_name (some supersede) = "supersede"
outcome_name (some reject_incoming) = "reject_incoming"
outcome_name (some contradiction) = "contradiction"

pub record Learned : Type 0 where
  pub outcome : Option ConflictOutcome
  pub fact_id : Option String
  pub reason : Value

-- what a call of `learn` is given
pub record Claim : Type 0 where
  pub slot : String
  pub value : String
  pub source : String
  pub kind : SourceKind
  pub extraction_confidence : ℕ
  pub user_id : String
  pub agent_id : String
  pub task_id : Option String
  pub ttl_days : Option ℤ
  pub derived_from : List String

module _ (c : Crypto) where
  module _ (py : Python) where
    -- `max(existing, key=...)`, which keeps the first of equals
    unfoldable pub champion : ℕ → Fact → List Fact → Fact
    unfolding effective_confidence
    champion now best [] = best
    champion now best (f ∷ fs) =
        champion now
          (if ltb (effective_confidence py best now) (effective_confidence py f now)
            then f
            else best)
          fs

    unfoldable pub provenance_of : Claim → Result MemoryError Provenance
    unfolding make_provenance
    provenance_of k = make_provenance k.source k.kind k.extraction_confidence

    unfoldable pub fact_of : String → ℕ → Claim → Provenance → Result MemoryError Fact
    unfolding make_fact
    fact_of id now k p =
        make_fact py id k.slot k.value p k.user_id k.agent_id now k.task_id k.ttl_days
          default_half_life_days k.derived_from

    -- what `learn` does by the outcome of a conflict
    unfoldable pub apply_outcome :
        ConflictOutcome → ℕ → Fact → Fact → Value → Memory c → Learned × Memory c
    unfolding save_fact bury
    apply_outcome corroborate now old new why m = (
      record { outcome = some corroborate; fact_id = some old.id; reason = why },
      save_fact c (record old { corroborations = suc old.corroborations }) m,
    )
    apply_outcome supersede now old new why m = (
      record { outcome = some supersede; fact_id = some new.id; reason = why },
      save_fact c new (bury c now old superseded why m),
    )
    apply_outcome reject_incoming now old new why m = (
      record { outcome = some reject_incoming; fact_id = some old.id; reason = why },
      bury c now new superseded why m,
    )
    apply_outcome contradiction now old new why m = (
      record { outcome = some contradiction; fact_id = none; reason = why },
      bury c now new contradicted why (bury c now old contradicted why m),
    )

    -- the facts that are not forgotten and claim the slot
    unfoldable pub rivals : Claim → Memory c → List Fact
    unfolding by_slot is_forgotten
    rivals k m =
        filter (λ f. not (is_forgotten m.tombstones f.id))
          (by_slot k.user_id k.agent_id k.slot m.facts)

    unfoldable pub settle :
        ℕ → Fact → List Fact → Memory c → Result MemoryError (Learned × Memory c)
    unfolding save_fact champion resolve_conflict apply_outcome
    settle now new [] m =
        ok (record { outcome = none; fact_id = some new.id; reason = null }, save_fact c new m)
    settle now new (f ∷ fs) m = do
      let old = champion now f fs
      r ← resolve_conflict py old new now
      ok (apply_outcome r.outcome now old new r.reason m)

    abbrev pub learn_inputs : Claim → Learned → Fields
    learn_inputs k l = field "slot" (str k.slot) (
        field "value" (str k.value) (
          field "source" (str k.source) (
            field "kind" (str (kind_name k.kind)) (
              field "user_id" (str k.user_id)
                (field "outcome" (str (outcome_name l.outcome)) end)))))

    unfoldable pub learn :
        String → String → ℕ → Claim → Memory c → Result MemoryError (Learned × Memory c)
    unfolding settle rivals provenance_of fact_of note_event
    learn id event_id now k m = do
      p ← provenance_of k
      new ← fact_of id now k p
      done ← settle now new (rivals k m) m
      let (l, n) = done
      ok (
        l,
        note_event c event_id now k.agent_id "memory.learn"
            (format (
              values_of
                (str "slot=" ∷ str k.slot ∷ str " outcome=" ∷ str (outcome_name l.outcome) ∷ [])))
            (learn_inputs k l) n,
      )

    abbrev pub verdict_of : Bool → List Fact → String
    verdict_of true fs = "confident"
    verdict_of false [] = "unknown"
    verdict_of false (f ∷ fs) = "unsure"

    abbrev pub recall_inputs : String → String → String → List Fact → Fields
    recall_inputs query user_id verdict fs = field "query" (str query) (
        field "user_id" (str user_id) (
          field "verdict" (str verdict)
            (field "relied_on" (list (texts_of (map (λ f. f.id) fs))) end)))

    -- `recall`: the result with its verdict, and the receipt
    unfoldable pub recall_noted :
        String
        → ℕ
        → String
        → String
        → String
        → Option String
        → Memory c
        → (RecallResult × String) × Memory c
    unfolding recall is_forgotten note_event
    recall_noted event_id now query user_id agent_id task_id m =
        let r =
          recall py (Dict.values m.facts) query user_id agent_id task_id now
            (is_forgotten m.tombstones) 5 in
        let verdict = verdict_of r.sure r.facts in
        (
          (r, verdict),
          note_event c event_id now agent_id "memory.recall"
              (format (
                values_of (
                  str "query="
                  ∷ str query
                  ∷ str " verdict="
                  ∷ str verdict
                  ∷ str " conf="
                  ∷ shown r.calibrated_confidence
                  ∷ [])))
              (recall_inputs query user_id verdict r.facts) m,
        )

    abbrev pub stale_detail : ℕ → Fact → Value
    unfolding is_expired effective_confidence
    stale_detail now f =
        if is_expired f now
        then str "TTL expired"
        else format (
            values_of (
              str "decayed to "
              ∷ shown (effective_confidence py f now)
              ∷ str " below usefulness floor"
              ∷ []))

    -- the loop of `sweep`, over the facts that were not forgotten when it began
    unfoldable pub sweep_all : ℕ → List Fact → Memory c → List Tombstone × Memory c
    unfolding bury stale_detail
    sweep_all now [] m = ([], m)
    sweep_all now (f ∷ fs) m =
        let (ts, n) = sweep_all now fs (bury c now f stale (stale_detail now f) m) in
        (tombstone_of now f stale (stale_detail now f) ∷ ts, n)

    abbrev pub swept_ids : List Tombstone → List String
    swept_ids ts = map (λ t. t.fact_id) ts

    abbrev pub note_sweep : String → ℕ → List Tombstone → Memory c → Memory c
    unfolding note_event
    note_sweep id now [] m = m
    note_sweep id now (t ∷ ts) m =
        note_event c id now "memorycore" "memory.sweep"
          (format (values_of (str "swept " ∷ int (length (t ∷ ts)) ∷ str " stale fact(s)" ∷ [])))
          (field "fact_ids" (list (texts_of (swept_ids (t ∷ ts)))) end) m

    unfoldable pub sweep : String → ℕ → Memory c → List Tombstone × Memory c
    unfolding stale_facts sweep_all is_forgotten note_sweep
    sweep id now m =
        let (written, n) =
          sweep_all now
            (filter (λ f. not (is_forgotten m.tombstones f.id))
              (stale_facts py now (Dict.values m.facts)))
            m in
        (written, note_sweep id now written n)

  -- the payload that the user signs to forget a fact
  abbrev pub revocation : String → String → Fields
  revocation fact_id reason = field "fact_id" (str fact_id) (field "reason" (str reason) end)

  abbrev pub forget_detail : String → String → String → Value
  forget_detail fact_id reason fid =
      if fid == fact_id
      then str reason
      else format (values_of (str "derived from revoked fact " ∷ str fact_id ∷ []))

  -- the body of the loop of `forget`, from what the store and the log have of the identifier
  unfoldable pub forget_found :
      ℕ → String → String → String → Option Fact → Bool → Memory c → List Tombstone × Memory c
  unfolding bury
  forget_found now fact_id reason fid none known m = ([], m)
  forget_found now fact_id reason fid (some f) true m = ([], m)
  forget_found now fact_id reason fid (some f) false m =
      let detail = forget_detail fact_id reason fid in
      (tombstone_of now f revoked detail ∷ [], bury c now f revoked detail m)

  unfoldable pub forget_one : ℕ → String → String → String → Memory c → List Tombstone × Memory c
  unfolding Dict.lookup is_forgotten forget_found
  forget_one now fact_id reason fid m =
      forget_found now fact_id reason fid (Dict.lookup fid m.facts) (is_forgotten m.tombstones fid)
        m

  unfoldable pub forget_all :
      ℕ → String → String → List String → Memory c → List Tombstone × Memory c
  unfolding forget_one
  forget_all now fact_id reason [] m = ([], m)
  forget_all now fact_id reason (fid ∷ fids) m =
      let (ts, n) = forget_one now fact_id reason fid m in
      let (us, o) = forget_all now fact_id reason fids n in (ts ++ us, o)

  -- the search for what is derived never runs out of fuel
  abbrev pub doomed_by : String → Memory c → List String
  unfolding cascaded_forgets
  doomed_by fact_id m = elim (cascaded_forgets fact_id (Dict.values m.facts)) [
    | none ↦ []
    | some ds ↦ ds
  ]

  -- what `forget` does once the fact is found
  unfoldable pub forget_derived :
      String → ℕ → String → String → Fact → Memory c → List Tombstone × Memory c
  unfolding forget_all sorted note_event doomed_by
  forget_derived event_id now fact_id reason fact m =
      let (written, n) = forget_all now fact_id reason (sorted (doomed_by fact_id m)) m in
      (
        written,
        note_event c event_id now fact.agent_id "memory.forget"
            (format (
              values_of
                (str "revoked " ∷ int (length written) ∷ str " fact(s): " ∷ str reason ∷ [])))
            (field "fact_id" (str fact_id)
              (field "cascaded" (int (length written)) (field "user_id" (str fact.user_id) end)))
            n,
      )

  unfoldable pub forget :
      String
      → ℕ
      → String
      → String
      → c.Signature
      → String
      → Memory c
      → Result MemoryError (List Tombstone × Memory c)
  unfolding verify_payload Dict.lookup forget_derived
  forget event_id now fact_id user_key signature reason m = do
    raise_if (not (verify_payload c user_key (revocation fact_id reason) signature)) bad_revocation
    fact ← or_raise (Dict.lookup fact_id m.facts) (unknown_fact fact_id)
    ok (forget_derived event_id now fact_id reason fact m)

  unfoldable pub reset : Memory c → Memory c
  reset m = record m { facts = []; tombstones = [] }
