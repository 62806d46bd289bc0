-- ===== src/Memory/Recall.antt =====
-- Recall (core/memorycore/domain/recall.py). A score, a sum of two quotients times a confidence, is an
-- exact fraction.
pub mod Reliance
use builder_league.Prelude.{
  Bool, List, Option, String, [], all, false, filter, if◌then◌else◌, leb, length, ltb, map, min,
  none, not, some, take, true, ℕ, ◌&&◌, ◌*◌, ◌+◌, ◌-◌, ◌==◌, ◌∷◌, nat_eq, string_eq,
}
use builder_league.Prelude.Texts.{string_leb}
use builder_league.Prelude.Values.{Value, format, str, values_of}
use builder_league.Memory.Facts.{Fact, Python, effective_confidence}
use builder_league.Memory.Contradiction.{shown}
use builder_league.Memory.Forgetting.{among}

-- `ACT_THRESHOLD`
abbrev pub act_threshold : ℕ
act_threshold = 550000000

-- `RELY_FLOOR`
abbrev pub rely_floor : ℕ
rely_floor = 250000000

pub record RecallResult : Type 0 where
  pub query : String
  pub facts : List Fact
  pub calibrated_confidence : ℕ
  pub gaps : List Value
  pub sure : Bool

abbrev pub in_task : Option String → Option String → Bool
in_task none task_id = true
in_task (some t) none = false
in_task (some t) (some u) = t == u

-- `_scope_ok`
unfoldable pub scope_ok : String → String → Option String → Fact → Bool
scope_ok user_id agent_id task_id f =
    (f.user_id == user_id) && ((f.agent_id == agent_id) && in_task f.task_id task_id)

-- a candidate with its score `num / den`
pub record Scored : Type 0 where
  pub num : ℕ
  pub den : ℕ
  pub fact : Fact

-- `(-score, id)` is at most that of the other
abbrev pub precedes : Scored → Scored → Bool
precedes a b =
    if ltb (b.num * a.den) (a.num * b.den)
    then true
    else (if ltb (a.num * b.den) (b.num * a.den) then false else string_leb a.fact.id b.fact.id)

abbrev pub enter : Scored → List Scored → List Scored
enter x [] = x ∷ []
enter x (y ∷ ys) = let rest = enter x ys in if precedes x y then x ∷ y ∷ ys else y ∷ rest

unfoldable pub ranking : List Scored → List Scored
ranking [] = []
ranking (x ∷ xs) = enter x (ranking xs)

module _ (py : Python) where
  -- `_fact_tokens`
  abbrev pub fact_tokens : Fact → List String
  fact_tokens f = py.tokens (py.lower (py.leaf_text f.slot f.value))

  -- how many of some tokens are among others
  abbrev pub overlap : List String → List String → ℕ
  overlap xs ys = length (filter (λ x. among x ys) xs)

  -- `_relevance` times the confidence: overlap / union + overlap / (2 * own)
  unfoldable pub score : List String → ℕ → Fact → Scored
  unfolding effective_confidence
  score query now f =
      let own = fact_tokens f in
      let o = overlap query own in
      let all = (length query + length own) - o in
      record {
        num = o * (2 * length own + all) * effective_confidence py f now;
        den = 2 * length own * all;
        fact = f;
      }

  -- `rel > 0.0 and conf >= RELY_FLOOR`
  abbrev pub is_relied : List String → ℕ → Fact → Bool
  unfolding effective_confidence
  is_relied query now f =
      ltb 0 (overlap query (fact_tokens f)) && leb rely_floor (effective_confidence py f now)

  unfoldable pub calibrated_confidence : ℕ → List Fact → ℕ
  unfolding effective_confidence
  calibrated_confidence now [] = 0
  calibrated_confidence now (f ∷ []) = effective_confidence py f now
  calibrated_confidence now (f ∷ g ∷ fs) =
      min (effective_confidence py f now) (calibrated_confidence now (g ∷ fs))

  abbrev pub low_gap : ℕ → Fact → Value
  unfolding effective_confidence
  low_gap now f = format (
      values_of (
        str "low confidence in "
        ∷ str f.slot
        ∷ str " = "
        ∷ str f.value
        ∷ str " ("
        ∷ shown (effective_confidence py f now)
        ∷ str ") — corroboration needed"
        ∷ []))

  abbrev pub gaps_of : String → ℕ → List Fact → ℕ → List Value
  unfolding effective_confidence low_gap
  gaps_of query now [] calibrated =
      format
        (values_of (str "nothing remembered matching " ∷ str query ∷ str " in this scope" ∷ []))
      ∷ []
  gaps_of query now (f ∷ fs) calibrated =
      if ltb calibrated act_threshold
      then map (low_gap now)
          (filter (λ g. ltb (effective_confidence py g now) act_threshold) (f ∷ fs))
      else []

  abbrev pub is_some : List Fact → Bool
  is_some [] = false
  is_some (f ∷ fs) = true

  -- the facts that match in scope, best first
  unfoldable pub ranked :
      (String → Bool) → String → String → Option String → List String → ℕ → List Fact → List Scored
  unfolding scope_ok is_relied score ranking
  ranked forgotten user_id agent_id task_id query now facts = ranking (
      map (score query now) (
        filter (is_relied query now)
          (filter (λ f. not (forgotten f.id) && scope_ok user_id agent_id task_id f) facts)))

  unfoldable pub recall :
      List Fact → String → String → String → Option String → ℕ → (String → Bool) → ℕ → RecallResult
  unfolding ranked calibrated_confidence gaps_of
  recall facts query user_id agent_id task_id now forgotten limit =
      let best =
        take limit
          (ranked forgotten user_id agent_id task_id (py.tokens (py.lower query)) now facts) in
      let relied = map (λ s. s.fact) best in
      let calibrated = calibrated_confidence now relied in
      record {
        query = query;
        facts = relied;
        calibrated_confidence = calibrated;
        gaps = gaps_of query now relied calibrated;
        sure = is_some relied && leb act_threshold calibrated;
      }
