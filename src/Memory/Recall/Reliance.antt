-- ===== src/Memory/Recall/Reliance.antt =====
-- What a recall relies on.
use builder_league.Prelude.{
  All, Bool, Bool-cases, List, Option, String, [], ap, arith, false, filter, if◌then◌else◌, inl,
  inr, length, length-take, map, min, not, refl, suc, take, true, zero, ℕ, ◌&&◌, ◌∷◌, ◌≡◌, ◌≤◌,
}
use builder_league.Memory.Facts.{Fact, Python, effective_confidence}
use builder_league.Memory.Recall.{
  Scored, act_threshold, calibrated_confidence, enter, is_relied, precedes, ranked, ranking, recall,
  rely_floor, scope_ok, score,
}

All-enter :
    (P : Scored → Type 0) (x : Scored) (ys : List Scored) → P x → All P ys → All P (enter x ys)
All-enter P x [] h a = (h, tt)
All-enter P x (y ∷ ys) h (b, a) = by_test (precedes x y) (All-enter P x ys h a)
  where
    by_test : (t : Bool) → All P (enter x ys) → All P (if t then x ∷ y ∷ ys else y ∷ enter x ys)
    by_test true r = (h, (b, a))
    by_test false r = (b, r)

All-ranking : (P : Scored → Type 0) (xs : List Scored) → All P xs → All P (ranking xs)
unfolding ranking
All-ranking P [] a = tt
All-ranking P (x ∷ xs) (h, a) = All-enter P x (ranking xs) h (All-ranking P xs a)

All-take : (P : Scored → Type 0) (n : ℕ) (xs : List Scored) → All P xs → All P (take n xs)
All-take P zero xs a = tt
All-take P (suc n) [] a = tt
All-take P (suc n) (x ∷ xs) (h, a) = (h, All-take P n xs a)

module _ (py : Python) (now : ℕ) where
  -- what is asked of a fact that is relied on
  abbrev pub IsReliable : (String → Bool) → String → String → Option String → Fact → Type 0
  IsReliable forgotten user_id agent_id task_id f =
      (forgotten f.id ≡ false)
      × (scope_ok user_id agent_id task_id f ≡ true)
      × (rely_floor ≤ effective_confidence py f now)

  All-matching :
      (forgotten : String → Bool) (user_id agent_id : String) (task_id : Option String)
      (query : List String) (fs : List Fact)
      → All
          (λ s. IsReliable forgotten user_id agent_id task_id s.fact)
          (map (score py query now) (
            filter
              (is_relied py query now)
              (filter (λ f. not (forgotten f.id) && scope_ok user_id agent_id task_id f) fs)))
  unfolding is_relied score
  All-matching forgotten user_id agent_id task_id query [] = tt
  All-matching forgotten user_id agent_id task_id query (f ∷ fs) =
      let rest = All-matching forgotten user_id agent_id task_id query fs in
      elim (Bool-cases (not (forgotten f.id) && scope_ok user_id agent_id task_id f)) [
        | inr b ↦ rw b rest
        | inl b ↦ elim (Bool-cases (is_relied py query now f)) [
          | inr r ↦ rw (b, r) rest
          | inl r ↦ rw (b, r) ((ground (arith, b), ground (arith, b), ground (arith, r)), rest)
        ]
      ]

  calibrated-le :
      (fs : List Fact)
      → All (λ f. calibrated_confidence py now fs ≤ effective_confidence py f now) fs
  unfolding calibrated_confidence
  calibrated-le [] = tt
  calibrated-le (f ∷ []) = (omega arith, tt)
  calibrated-le (f ∷ g ∷ fs) = (
    omega arith,
    All-weaken (calibrated_confidence py now (g ∷ fs)) (omega arith) (g ∷ fs)
        (calibrated-le (g ∷ fs)),
  )
    where
      All-weaken :
          (n : ℕ)
          → min (effective_confidence py f now) (calibrated_confidence py now (g ∷ fs)) ≤ n
          → (hs : List Fact) → All (λ h. n ≤ effective_confidence py h now) hs
          → All
              (λ h.
                min (effective_confidence py f now) (calibrated_confidence py now (g ∷ fs))
                ≤ effective_confidence py h now)
              hs
      All-weaken n le [] a = tt
      All-weaken n le (h ∷ hs) (x, a) = (omega (arith, le, x), All-weaken n le hs a)

All-facts :
    (P : Fact → Type 0) (xs : List Scored) → All (λ s. P s.fact) xs → All P (map (λ s. s.fact) xs)
All-facts P [] a = tt
All-facts P (x ∷ xs) (h, a) = (h, All-facts P xs a)

length-facts : (xs : List Scored) → length (map (λ s. s.fact) xs) ≡ length xs
length-facts [] = refl
length-facts (x ∷ xs) = ap suc (length-facts xs)

All-above :
    (py : Python) (now n : ℕ) (fs : List Fact)
    → act_threshold ≤ n
    → All (λ f. n ≤ effective_confidence py f now) fs
    → All (λ f. act_threshold ≤ effective_confidence py f now) fs
All-above py now n [] h a = tt
All-above py now n (f ∷ fs) h (x, a) = (omega (arith, h, x), All-above py now n fs h a)

-- A recall relies on at most as many facts as the limit. Each is a fact that is not forgotten, of the
-- same user and agent and of no other task, with a confidence of at least the floor; the calibrated
-- confidence is at most the confidence of each; and when the recall is sure, each reaches the threshold.
pub recall_relies-IsReliable :
    (py : Python) (facts : List Fact) (query user_id agent_id : String) (task_id : Option String)
    (now limit : ℕ) (forgotten : String → Bool)
    → let r = recall py facts query user_id agent_id task_id now forgotten limit in
      (length r.facts ≤ limit)
      × All (IsReliable py now forgotten user_id agent_id task_id) r.facts
      × All (λ f. r.calibrated_confidence ≤ effective_confidence py f now) r.facts
      × (r.sure ≡ true → All (λ f. act_threshold ≤ effective_confidence py f now) r.facts)
unfolding recall ranked
recall_relies-IsReliable py facts query user_id agent_id task_id now limit forgotten =
    let P : Fact → Type 0 = IsReliable py now forgotten user_id agent_id task_id in
    let words = py.tokens (py.lower query) in
    let all = ranked py forgotten user_id agent_id task_id words now facts in
    let relied = map (λ (s : Scored). s.fact) (take limit all) in
    (
      omega (arith, length-facts (take limit all), length-take limit all),
      All-facts P (take limit all) (
          All-take (λ s. P s.fact) limit all
            (All-ranking (λ s. P s.fact) _
              (All-matching py now forgotten user_id agent_id task_id words facts))),
      calibrated-le py now relied,
      λ h.
          All-above py now (calibrated_confidence py now relied) relied (ground (arith, h))
            (calibrated-le py now relied),
    )
