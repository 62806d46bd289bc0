-- ===== src/Memory/Tests.antt =====
-- The theorems on the memory at small inputs.
use builder_league.Memory.Recall.{act_threshold, recall}
use builder_league.Memory.Store.{Memory, bury, by_slot, claims, is_forgotten, note_event, save_fact}
use builder_league.Memory.Service.{
  Claim, Learned, apply_outcome, champion, fact_of, forget, learn, provenance_of, revocation,
  rivals, settle,
}
use builder_league.Prelude.{
  ==_iff, All, List, String, [], arith, err, false, filter, if◌then◌else◌, length, length-filter-le,
  none, ok, refl, some, true, ◌==◌, ◌∷◌, ◌≡◌, ◌≢◌, ◌≤◌, ◌⊎◌, nat_eq, string_eq,
}
use builder_league.Prelude.Dict.{insert, lookup, values}
use builder_league.Prelude.Values.{Values, null}
use builder_league.Prelude.Values
use builder_league.Trust.Crypto.{sign_payload, verify_payload}
use builder_league.Trust.Samples.{shop, toy, toy-IsLawful}
use builder_league.Memory.Facts.{
  Fact, Python, bad_revocation, effective_confidence, is_expired, make_fact, make_provenance, one,
  user_stated,
}
use builder_league.Memory.Contradiction.{resolve_conflict}
use builder_league.Memory.Forgetting.{Tombstone, among, cascaded_forgets, spread}
use builder_league.Memory.Forgetting.Cascade.{
  Derives, cascaded_forgets-exact, is_linked, itself, through,
}
use builder_league.Memory.Recall.Reliance.{IsReliable, recall_relies-IsReliable}
use builder_league.Memory.Service.Claimants.{IsSettled, is_live, learn-IsSettled}
use builder_league.Memory.Service.Conflicts.{padded_slot_is_unchallenged}
use builder_league.Memory.Service.Revocation.{IsKeyed, forget_cascades}

-- nothing decays, and one text is padded
abbrev python : Python
python = record {
  halved = λ x age half_life. x;
  faded = λ x n. x;
  strip = λ s. if s == " user.city" then "user.city" else s;
  lower = λ s. s;
  tokens = λ s. s ∷ [];
  leaf_text = λ slot value. value;
}

abbrev home : Fact
home = record {
  id = "f1";
  slot = "user.city";
  value = "Paris";
  provenance = record { source = "user"; kind = user_stated; extraction_confidence = 1000000 };
  base_confidence = one;
  user_id = "u";
  agent_id = "bot";
  task_id = none;
  learned_at = 0;
  expires_at = none;
  half_life_days = 30;
  corroborations = 0;
  derived_from = [];
}

-- what was inferred from it
abbrev zone : Fact
zone = record home { id = "f2"; slot = "user.timezone"; value = "CET"; derived_from = "f1" ∷ [] }

abbrev memory : Memory toy
memory = record { facts = ("f1", home) ∷ ("f2", zone) ∷ []; tombstones = []; trust = shop }

abbrev small : Memory toy
small = record memory { facts = ("f1", home) ∷ [] }

abbrev claim : String → Claim
claim slot = record {
  slot = slot;
  value = "Rome";
  source = "user";
  kind = user_stated;
  extraction_confidence = 1000000;
  user_id = "u";
  agent_id = "bot";
  task_id = none;
  ttl_days = none;
  derived_from = [];
}

abbrev nothing : Learned × Memory toy
nothing = (record { outcome = none; fact_id = none; reason = null }, small)

abbrev learned : String → Learned × Memory toy
learned slot = elim (learn toy python "f3" "e1" 5 (claim slot) small) [ ok x ↦ x | err e ↦ nothing ]

cascaded_forgets-exact_example :
    (doomed : List String) × (cascaded_forgets "f1" (home ∷ zone ∷ []) ≡ some doomed)
    × (among "f1" doomed ≡ true)
    × ((p i : String)
        → among p doomed ≡ true
        → is_linked (home ∷ zone ∷ []) p i ≡ true
        → among i doomed ≡ true)
    × ((i : String) → among i doomed ≡ true → Derives (home ∷ zone ∷ []) "f1" i)
cascaded_forgets-exact_example = cascaded_forgets-exact "f1" (home ∷ zone ∷ [])

zone-Derives : Derives (values memory.facts) "f1" "f2"
zone-Derives = through "f1" "f2" itself refl

memory-IsKeyed : IsKeyed memory.facts
unfolding lookup
memory-IsKeyed i f h = ground (arith, h, ==_iff "f1" i, ==_iff "f2" i)

-- the key of somebody else than the user of the fact
forget_cascades_example :
    (forget toy "e1" 5 "f1" "mallory" ("mallory", false) "moved" memory ≡ err bad_revocation)
    × ((written : List Tombstone) × (n : Memory toy) × (forget toy "e1" 5 "f1" "mallory"
            (sign_payload toy "mallory" (revocation toy "f1" "moved"))
            "moved"
            memory
          ≡ ok (written, n))
        × ((i : String) (f : Fact)
            → lookup i memory.facts ≡ some f
            → Derives (values memory.facts) "f1" i
            → is_forgotten n.tombstones i ≡ true)
        × ((i : String)
            → is_forgotten n.tombstones i ≡ true
            → (is_forgotten memory.tombstones i ≡ true) ⊎ Derives (values memory.facts) "f1" i))
unfolding lookup verify_payload Values.get_or
forget_cascades_example =
    forget_cascades toy "mallory" "e1" "f1" "moved" 5 ("mallory", false) memory home toy-IsLawful
      memory-IsKeyed refl refl

-- what was inferred is forgotten with it
zone_is_forgotten :
    (written : List Tombstone) × (n : Memory toy) × (forget toy "e1" 5 "f1" "mallory"
        (sign_payload toy "mallory" (revocation toy "f1" "moved"))
        "moved"
        memory
      ≡ ok (written, n))
    × (is_forgotten n.tombstones "f2" ≡ true)
unfolding lookup verify_payload Values.get_or
zone_is_forgotten =
    let (refused, (written, n, e, spread, only)) =
      forget_cascades toy "mallory" "e1" "f1" "moved" 5 ("mallory", false) memory home toy-IsLawful
        memory-IsKeyed refl refl in
    (written, n, e, spread "f2" zone refl zone-Derives)

small-IsSettled : IsSettled [] small.facts
small-IsSettled u a s = omega (
  arith,
  length-filter-le (is_live []) (filter (claims u a s) (home ∷ [])),
  length-filter-le (claims u a s) (home ∷ []),
)

learn-IsSettled_example : IsSettled (learned "user.city").1.tombstones (learned "user.city").1.facts
unfolding learn settle rivals by_slot is_forgotten champion resolve_conflict effective_confidence
    is_expired apply_outcome bury save_fact insert lookup provenance_of fact_of make_provenance
    make_fact note_event
learn-IsSettled_example =
    learn-IsSettled toy python "f3" "e1" 5 (claim "user.city") small (learned "user.city").1
      (learned "user.city").0 refl refl (refl, tt) small-IsSettled refl

padded : ◌≢◌ {A = String} "user.city" " user.city"
padded q = ground (arith, q, ==_iff {A = String} "user.city" " user.city")

padded_slot_is_unchallenged_example :
    ((learned " user.city").0.outcome ≡ none)
    × ((learned " user.city").1.tombstones ≡ [])
    × ((f : Fact) × (lookup "f3" (learned " user.city").1.facts ≡ some f) × (f.slot ≡ "user.city"))
unfolding learn settle rivals by_slot is_forgotten champion resolve_conflict effective_confidence
    is_expired apply_outcome bury save_fact insert lookup provenance_of fact_of make_provenance
    make_fact note_event
padded_slot_is_unchallenged_example =
    padded_slot_is_unchallenged toy python "f3" "e1" 5 (claim " user.city") small
      (learned " user.city").1 (learned " user.city").0 (refl, tt) padded refl

recall_relies-IsReliable_example :
    let r = recall python (home ∷ zone ∷ []) "Paris" "u" "bot" none 5 (λ i. false) 1 in
    (length r.facts ≤ 1)
    × All (IsReliable python 5 (λ i. false) "u" "bot" none) r.facts
    × All (λ f. r.calibrated_confidence ≤ effective_confidence python f 5) r.facts
    × (r.sure ≡ true → All (λ f. act_threshold ≤ effective_confidence python f 5) r.facts)
recall_relies-IsReliable_example =
    recall_relies-IsReliable python (home ∷ zone ∷ []) "Paris" "u" "bot" none 5 1 (λ i. false)
