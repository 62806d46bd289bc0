-- ===== src/Decision/Resolve/Rules.antt =====
-- When an action is executed, and when it is refused.
use builder_league.Prelude.{
  Bool-cases, List, String, [], arith, false, inl, inr, leb, ltb, refl, true, ℕ, ◌<◌, ◌↔◌, ◌∷◌, ◌≡◌,
  ◌≤◌, ◌⊎◌,
}
use builder_league.Decision.Policies.{DomainPolicy}
use builder_league.Decision.Signals.{Authority, invalid, uncertain, valid}
use builder_league.Decision.Resolve.{
  ResolutionFacts, execute, is_some_missing, refuse, resolve, weigh,
}

-- what is needed to execute
abbrev pub IsClear : DomainPolicy → ℕ → ℕ → ResolutionFacts → Type 0
IsClear p c r facts =
    (facts.authority ≡ valid)
    × (p.confidence_floor ≤ c)
    × (p.execute_bar ≤ c)
    × ((r < p.risk_bar) ⊎ ((facts.reversible ≡ true) × (facts.missing_required ≡ [])))

none_missing : (fs : List String) → is_some_missing fs ≡ false → fs ≡ []
none_missing [] h = refl
none_missing (f ∷ fs) h = cc

weigh-clear :
    (p : DomainPolicy) (c r : ℕ) (facts : ResolutionFacts)
    → (weigh p c r facts).outcome ≡ execute
    → (p.confidence_floor ≤ c)
      × (p.execute_bar ≤ c)
      × ((r < p.risk_bar) ⊎ ((facts.reversible ≡ true) × (facts.missing_required ≡ [])))
unfolding weigh
weigh-clear p c r facts h = elim (Bool-cases (ltb c p.confidence_floor)) [
  | inl a ↦ ground (arith, h, a)
  | inr a ↦ elim (Bool-cases (leb p.execute_bar c)) [
    | inr b ↦ ground (arith, h, a, b)
    | inl b ↦ (
      ground (arith, a),
      ground (arith, b),
      elim (Bool-cases (leb p.risk_bar r)) [
        | inr q ↦ inl (ground (arith, q))
        | inl q ↦ elim (Bool-cases facts.reversible) [
          | inr v ↦ ground (arith, h, a, q, v)
          | inl v ↦ elim (Bool-cases (is_some_missing facts.missing_required)) [
            | inl m ↦ ground (arith, h, a, q, v, m)
            | inr m ↦ inr (v, none_missing facts.missing_required m)
          ]
        ]
      ],
    )
  ]
]

clear-weigh :
    (p : DomainPolicy) (c r : ℕ) (facts : ResolutionFacts)
    → p.confidence_floor ≤ c
    → p.execute_bar ≤ c
    → (r < p.risk_bar) ⊎ ((facts.reversible ≡ true) × (facts.missing_required ≡ []))
    → (weigh p c r facts).outcome ≡ execute
unfolding weigh
clear-weigh p c r facts f x (inl q) = ground (arith, f, x, q)
clear-weigh p c r facts f x (inr (v, m)) = ground (arith, f, x, v, m)

by_authority : (P : Authority → Type 0) (a : Authority) → P valid → P uncertain → P invalid → P a
by_authority P valid v u i = v
by_authority P uncertain v u i = u
by_authority P invalid v u i = i

-- An action is executed exactly when the authority is valid, the confidence reaches the floor and the
-- bar, and the risk is below its bar or the action is reversible with no required evidence missing.
pub executed_iff_IsClear :
    (p : DomainPolicy) (c r : ℕ) (facts : ResolutionFacts)
    → ((resolve p c r facts).outcome ≡ execute) ↔ IsClear p c r facts
unfolding resolve
executed_iff_IsClear p c r facts = by_value facts.authority refl
  where
    by_value :
        (a : Authority)
        → facts.authority ≡ a
        → ((resolve p c r facts).outcome ≡ execute) ↔ IsClear p c r facts
    by_value valid q = (
      (λ h. let (f, x, o) = weigh-clear p c r facts (ground (arith, h, q)) in (q, f, x, o)),
      (λ k. rw q (clear-weigh p c r facts k.1 k.2 k.3)),
    )
    by_value uncertain q = ((λ h. ground (arith, h, q)), (λ k. ground (arith, k.0, q)))
    by_value invalid q = ((λ h. ground (arith, h, q)), (λ k. ground (arith, k.0, q)))

-- An action is refused exactly when its authority is invalid, whatever the numbers say.
refused_iff_invalid :
    (p : DomainPolicy) (c r : ℕ) (facts : ResolutionFacts)
    → ((resolve p c r facts).outcome ≡ refuse) ↔ (facts.authority ≡ invalid)
unfolding resolve weigh
refused_iff_invalid p c r facts = by_value facts.authority refl
  where
    by_value :
        (a : Authority)
        → facts.authority ≡ a
        → ((resolve p c r facts).outcome ≡ refuse) ↔ (facts.authority ≡ invalid)
    by_value valid q = ((λ h. ground (arith, h, q)), (λ k. ground (arith, k, q)))
    by_value uncertain q = ((λ h. ground (arith, h, q)), (λ k. ground (arith, k, q)))
    by_value invalid q = ((λ h. q), (λ k. rw q refl))

-- With the same facts, more confidence and no more risk never stop an action that is executed.
pub execute_is_monotone :
    (p : DomainPolicy) (c r d s : ℕ) (facts : ResolutionFacts)
    → c ≤ d
    → s ≤ r
    → (resolve p c r facts).outcome ≡ execute
    → (resolve p d s facts).outcome ≡ execute
execute_is_monotone p c r d s facts h k e =
    let (a, f, x, q) = (executed_iff_IsClear p c r facts).0 e in
    (executed_iff_IsClear p d s facts).1 (
      a,
      omega (arith, f, h),
      omega (arith, x, h),
      elim q [ inl l ↦ inl (omega (arith, l, k)) | inr o ↦ inr o ],
    )
