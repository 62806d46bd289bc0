-- ===== src/Memory/Facts.antt =====
-- Facts (core/memorycore/domain/facts.py). Times are numbers of microseconds, confidences are numbers
-- of billionths, and an extraction confidence is one of millionths. What the code takes from `math.pow`
-- on floats, and from Python's tables of characters, is a parameter.
use builder_league.Prelude.{
  Bool, List, Option, Result, String, false, if◌then◌else◌, leb, ltb, max, min, none, not, ok,
  raise_if, some, ℕ, ◌&&◌, ◌*◌, ◌+◌, ◌-◌, ◌==◌, ◌||◌, ◌≡◌, ◌≤◌, nat_eq, string_eq, ◌>>◌,
}
use builder_league.Prelude.Int.{leb_ℤ, pos, pos_part, ℤ}
use builder_league.Trust.Service.{day}

pub data MemoryError : Type 0 where
  source_required : MemoryError
  bad_extraction : MemoryError
  slot_required : MemoryError
  value_required : MemoryError
  scope_required : MemoryError
  bad_half_life : MemoryError
  bad_ttl : MemoryError
  slot_mismatch : MemoryError
  bad_revocation : MemoryError
  unknown_fact : String → MemoryError

pub record Python : Type 0 where
  -- `x * math.pow(0.5, age / half_life)`, of an age in microseconds and a half-life in days
  pub halved : ℕ → ℕ → ℕ → ℕ
  -- `x * math.pow(0.9, n)`
  pub faded : ℕ → ℕ → ℕ
  -- `s.strip()`
  pub strip : String → String
  -- `s.lower()`
  pub lower : String → String
  -- `set(_TOKEN_RE.findall(s))`, without repetitions
  pub tokens : String → List String
  -- `f"{slot.split('.')[-1].replace('_', ' ')} {value}"`
  pub leaf_text : String → String → String

-- What these document: a power of a factor below one shrinks, and the zeroth power is one.
pub record IsPython (py : Python) : Type 0 where
  pub halved_le : (x age half_life : ℕ) → py.halved x age half_life ≤ x
  pub halved_now : (x half_life : ℕ) → py.halved x 0 half_life ≡ x
  pub faded_le : (x n : ℕ) → py.faded x n ≤ x
  pub faded_none : (x : ℕ) → py.faded x 0 ≡ x

pub data SourceKind : Type 0 where
  user_stated observed inferred imported : SourceKind

-- 1.0
abbrev pub one : ℕ
one = 1000000000

-- `SOURCE_TRUST`, in thousandths
abbrev pub source_trust : SourceKind → ℕ
source_trust user_stated = 1000
source_trust observed = 700
source_trust inferred = 500
source_trust imported = 400

abbrev pub default_half_life_days : ℤ
default_half_life_days = pos 30

pub record Provenance : Type 0 where
  pub source : String
  pub kind : SourceKind
  pub extraction_confidence : ℕ

-- `Provenance.__post_init__`
unfoldable pub make_provenance : String → SourceKind → ℕ → Result MemoryError Provenance
make_provenance source kind extraction = do
  raise_if (source == "") source_required
  raise_if (not (ltb 0 extraction && leb extraction 1000000)) bad_extraction
  ok (record { source = source; kind = kind; extraction_confidence = extraction })

pub record Fact : Type 0 where
  pub id : String
  pub slot : String
  pub value : String
  pub provenance : Provenance
  pub base_confidence : ℕ
  pub user_id : String
  pub agent_id : String
  pub task_id : Option String
  pub learned_at : ℕ
  pub expires_at : Option ℕ
  pub half_life_days : ℕ
  pub corroborations : ℕ
  pub derived_from : List String

abbrev pub passed : Option ℕ → ℕ → Bool
passed none now = false
passed (some at) now = leb at now

-- `is_expired`
unfoldable pub is_expired : Fact → ℕ → Bool
is_expired f now = passed f.expires_at now

-- `timedelta(days=ttl_days)` after a time
abbrev pub expiry : ℕ → Option ℤ → Option ℕ
expiry learned_at none = none
expiry learned_at (some d) = some (learned_at + pos_part d * day)

-- `ttl_days is not None and ttl_days <= 0`
abbrev pub is_bad_ttl : Option ℤ → Bool
is_bad_ttl none = false
is_bad_ttl (some d) = leb_ℤ d (pos 0)

module _ (py : Python) where
  -- `decayed_confidence` and `effective_confidence`; the age is zero before the fact is learned
  unfoldable pub effective_confidence : Fact → ℕ → ℕ
  unfolding is_expired
  effective_confidence f now =
      let decayed = py.halved f.base_confidence (now - f.learned_at) f.half_life_days in
      let boosted = one - py.faded (one - decayed) f.corroborations in
      if is_expired f now then 0 else max 1 (min one boosted)

  unfoldable pub make_fact :
      String
      → String
      → String
      → Provenance
      → String
      → String
      → ℕ
      → Option String
      → Option ℤ
      → ℤ
      → List String
      → Result MemoryError Fact
  make_fact id slot value provenance user_id agent_id learned_at task_id ttl_days half_life_days
        derived_from =
      do
        raise_if (py.strip slot == "") slot_required
        raise_if (py.strip value == "") value_required
        raise_if ((user_id == "") || (agent_id == "")) scope_required
        raise_if (leb_ℤ half_life_days (pos 0)) bad_half_life
        raise_if (is_bad_ttl ttl_days) bad_ttl
        ok (record {
          id = id;
          slot = py.strip slot;
          value = py.strip value;
          provenance = provenance;
          base_confidence =
              min one (source_trust provenance.kind * provenance.extraction_confidence);
          user_id = user_id;
          agent_id = agent_id;
          task_id = task_id;
          learned_at = learned_at;
          expires_at = expiry learned_at ttl_days;
          half_life_days = pos_part half_life_days;
          corroborations = 0;
          derived_from = derived_from;
        })
