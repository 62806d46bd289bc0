-- ===== src/Memory/Store.antt =====
-- The stores in memory (core/memorycore/adapters/memory.py) on which `MemoryService`
-- (core/memorycore/application/services.py) works, without locks: facts, tombstones and the trust service
-- that keeps the receipts.
use builder_league.Prelude.{
  Bool, List, String, [], any, filter, if◌then◌else◌, reverse, slice_last, ℕ, ◌&&◌, ◌++◌, ◌==◌, ◌∷◌,
  nat_eq, string_eq,
}
use builder_league.Prelude.Dict.{Dict}
use builder_league.Prelude.Dict
use builder_league.Prelude.Texts.{string_leb}
use builder_league.Prelude.Values.{Fields, Value}
use builder_league.Memory.Facts.{Fact}
use builder_league.Memory.Forgetting.{ForgetReason, Tombstone}
use builder_league.Trust.Crypto.{Crypto}
use builder_league.Trust.Policy.{allow}
use builder_league.Trust.Service.{TrustService, record_event}

pub record Memory (c : Crypto) : Type 0 where
  pub facts : Dict String Fact
  pub tombstones : List Tombstone
  pub trust : TrustService c

-- `fact_id in reasons()`
unfoldable pub is_forgotten : List Tombstone → String → Bool
is_forgotten ts i = any (λ t. t.fact_id == i) ts

-- `InMemoryTombstoneLog.list`
unfoldable pub list_tombstones : ℕ → List Tombstone → List Tombstone
list_tombstones limit ts = reverse (slice_last limit ts)

abbrev pub tombstone_of : ℕ → Fact → ForgetReason → Value → Tombstone
tombstone_of now f reason detail = record {
  fact_id = f.id;
  slot = f.slot;
  value = f.value;
  reason = reason;
  forgotten_at = now;
  detail = detail;
}

-- `by_slot`
abbrev pub claims : String → String → String → Fact → Bool
claims user_id agent_id slot f =
    (f.user_id == user_id) && ((f.agent_id == agent_id) && (f.slot == slot))

unfoldable pub by_slot : String → String → String → Dict String Fact → List Fact
by_slot user_id agent_id slot facts = filter (claims user_id agent_id slot) (Dict.values facts)

-- `sorted`
abbrev pub place : String → List String → List String
place x [] = x ∷ []
place x (y ∷ ys) = let rest = place x ys in if string_leb x y then x ∷ y ∷ ys else y ∷ rest

unfoldable pub sorted : List String → List String
sorted [] = []
sorted (x ∷ xs) = place x (sorted xs)

module _ (c : Crypto) where
  -- `_tombstone`
  unfoldable pub bury : ℕ → Fact → ForgetReason → Value → Memory c → Memory c
  bury now f reason detail m = record m {
    tombstones = m.tombstones ++ (tombstone_of now f reason detail ∷ []);
  }

  -- `InMemoryMemoryStore.save`
  unfoldable pub save_fact : Fact → Memory c → Memory c
  unfolding Dict.insert
  save_fact f m = record m { facts = Dict.insert f.id f m.facts }

  unfoldable pub note_event : String → ℕ → String → String → Value → Fields → Memory c → Memory c
  unfolding record_event
  note_event id now actor action note inputs m = record m {
    trust = (record_event c id now actor action note inputs allow m.trust).1;
  }
