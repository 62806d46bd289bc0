-- ===== src/Decision/Signals/Evidence.antt =====
-- What the evidence signal reports, and how much it is worth.
use mathlib.Core.Path.{subst}
use native.Mathlib.Nat.{div-le_of_le-mul, le-div_iff_mul-le}
use builder_league.Prelude.{
  ==_cases, ==_iff, >>=-eq-ok, Bool, Bool-cases, List, String, [], ap, arith, contains, filter, inl,
  inr, length, length-filter-le, not, ok, ok-inj, refl, suc, sym, true, zero, ℕ, ◌&&◌, ◌*◌, ◌++◌,
  ◌+◌, ◌<◌, ◌||◌, ◌↔◌, ◌∷◌, ◌≡◌, ◌≤◌, ◌⊎◌, nat_eq, string_eq,
}
use builder_league.Prelude.Values.{
  Fields, Value, cons, dict, flag, format, get, list, nil, null, num, str,
}
use builder_league.Decision.Signals.{
  SignalScore, evidence_signal, evidence_value, for_confidence, is_blank, is_missing, missing_of,
  present_of, round_div, score, weight_of,
}
use builder_league.Decision.Policies.{DomainPolicy}

-- `None`, `""` and `[]`
abbrev pub IsBlank : Value → Type 0
IsBlank v = (v ≡ null) ⊎ ((v ≡ str "") ⊎ (v ≡ list nil))

is_blank-IsBlank : (v : Value) → is_blank v ≡ true → IsBlank v
is_blank-IsBlank null h = inl refl
is_blank-IsBlank (str s) h = inr (inl (ap str (ground (arith, h, ==_iff s ""))))
is_blank-IsBlank (list nil) h = inr (inr refl)
is_blank-IsBlank (list (cons v vs)) h = cc
is_blank-IsBlank (flag b) h = cc
is_blank-IsBlank (num n) h = cc
is_blank-IsBlank (format vs) h = cc
is_blank-IsBlank (dict d) h = cc

IsBlank-is_blank : (v : Value) → IsBlank v → is_blank v ≡ true
IsBlank-is_blank v (inl e) = ap is_blank e
IsBlank-is_blank v (inr (inl e)) = ap is_blank e
IsBlank-is_blank v (inr (inr e)) = ap is_blank e

contains-filter :
    (p : String → Bool) (f : String) (fs : List String)
    → contains f (filter p fs) ≡ (contains f fs && p f)
contains-filter p f [] = refl
contains-filter p f (g ∷ fs) = elim (==_cases g f) [
  | inl (e, b) ↦ ground (arith, b, ap p e, contains-filter p f fs)
  | inr (e, b) ↦ ground (arith, b, contains-filter p f fs)
]

contains-append :
    (f : String) (xs ys : List String) → contains f (xs ++ ys) ≡ (contains f xs || contains f ys)
contains-append f [] ys = refl
contains-append f (x ∷ xs) ys = ground (arith, contains-append f xs ys)

length-split :
    (p : String → Bool) (fs : List String)
    → length (filter p fs) + length (filter (λ f. not (p f)) fs) ≡ length fs
length-split p [] = refl
length-split p (f ∷ fs) = ground (arith, length-split p fs)

-- the rounded quotient is at most one above the whole one
round_div-low : (a b k : ℕ) → 0 < b → k * b ≤ a → k ≤ round_div a b
unfolding round_div
round_div-low a b k h l = ground (arith, (le-div_iff_mul-le {k = b} {x = k} {y = a} h).1 l)

round_div-high : (a b k : ℕ) → a ≤ b * k → round_div a b ≤ suc k
unfolding round_div
round_div-high a b k l = ground (arith, div-le_of_le-mul b l)

-- a share of the required fields, and of the optional ones
value_le : (m n o k : ℕ) → m ≤ n → evidence_value m n o k ≤ 1000
value_le m zero o zero h = omega arith
value_le m (suc n) o zero h = omega (arith, round_div-high (800 * m) (suc n) 800 (omega (arith, h)))
value_le m zero o (suc k) h = ground arith
value_le m (suc n) o (suc k) h = ground arith

value_ge : (n o k : ℕ) → 800 ≤ evidence_value n n o k
value_ge zero o zero = omega arith
value_ge (suc n) o zero = round_div-low (800 * suc n) (suc n) 800 (omega arith) (omega arith)
value_ge zero o (suc k) =
    let l = round_div-low (800 * suc k + 200 * o) (suc k) 800 (omega arith) (omega arith) in
    ground (arith, l)
value_ge (suc n) o (suc k) =
    let l =
      round_div-low (800 * suc n * suc k + 200 * o * suc n) (suc n * suc k) 800 (omega arith)
        (omega arith) in
    ground (arith, l)

-- A field is called missing exactly when it is required and what the context has of it is blank, and
-- present exactly when it is required or optional and what the context has of it is not.
pub record IsReport (p : DomainPolicy) (context : Fields) (s : SignalScore)
    (missing present : List String) : Type 0 where
  pub called_missing :
      (f : String)
      → (contains f missing ≡ true)
        ↔ ((contains f p.required_evidence ≡ true) × IsBlank (get f context))
  pub called_present :
      (f : String)
      → (contains f present ≡ true) ↔ (
          ((contains f p.required_evidence || contains f p.optional_evidence) ≡ true)
          × (IsBlank (get f context) → ⊥))
  pub at_most : s.value ≤ 1000
  pub at_least : missing ≡ [] → 800 ≤ s.value

module _ (p : DomainPolicy) (context : Fields) where
  missing_iff :
      (f : String)
      → (contains f (missing_of p context) ≡ true)
        ↔ ((contains f p.required_evidence ≡ true) × IsBlank (get f context))
  unfolding missing_of is_missing
  missing_iff f =
      let e = contains-filter (is_missing context) f p.required_evidence in
      (
        λ h. (ground (arith, e, h), is_blank-IsBlank (get f context) (ground (arith, e, h))),
        λ h. ground (arith, e, h.0, IsBlank-is_blank (get f context) h.1),
      )

  present_iff :
      (f : String)
      → (contains f
            (present_of context p.required_evidence ++ present_of context p.optional_evidence)
          ≡ true)
        ↔ (((contains f p.required_evidence || contains f p.optional_evidence) ≡ true)
            × (IsBlank (get f context) → ⊥))
  unfolding present_of is_missing
  present_iff f =
      let here = λ (g : String). not (is_missing context g) in
      let e =
        contains-append f (filter here p.required_evidence) (filter here p.optional_evidence) in
      let r = contains-filter here f p.required_evidence in
      let o = contains-filter here f p.optional_evidence in
      (
        λ h. (
          ground (arith, e, r, o, h),
          λ b. ground (arith, e, r, o, h, IsBlank-is_blank (get f context) b),
        ),
        λ h. elim (Bool-cases (is_blank (get f context))) [
          | inl b ↦ absurd (h.1 (is_blank-IsBlank (get f context) b))
          | inr b ↦ ground (arith, e, r, o, h.0, b)
        ],
      )

  required_present :
      missing_of p context ≡ []
      → length (present_of context p.required_evidence) ≡ length p.required_evidence
  unfolding missing_of present_of
  required_present e =
      omega (arith, ap length e, length-split (is_missing context) p.required_evidence)

  score_at_least :
      missing_of p context ≡ []
      → 800
        ≤ evidence_value
            (length (present_of context p.required_evidence))
            (length p.required_evidence)
            (length (present_of context p.optional_evidence))
            (length p.optional_evidence)
  score_at_least e =
      subst
        (λ m.
          800
          ≤ evidence_value m (length p.required_evidence)
              (length (present_of context p.optional_evidence)) (length p.optional_evidence))
        (sym (required_present e))
        (value_ge (length p.required_evidence) (length (present_of context p.optional_evidence))
          (length p.optional_evidence))

score-value :
    (n : ℕ) (p : DomainPolicy) (s : SignalScore)
    → score "evidence" n for_confidence p.confidence_weights ≡ ok s
    → s.value ≡ n
score-value n p s h =
    let (w, e, q) = >>=-eq-ok (weight_of "evidence" p.confidence_weights) _ h in
    sym (ap (λ (t : SignalScore). t.value) (ok-inj q))

present_le :
    (p : DomainPolicy) (context : Fields)
    → length (present_of context p.required_evidence) ≤ length p.required_evidence
unfolding present_of
present_le p context = length-filter-le (λ f. not (is_missing context f)) p.required_evidence

-- When the evidence signal is computed, it calls exactly the blank ones of the required fields missing, and
-- exactly those of the required and optional fields present that are not blank, where `None`, the empty
-- text and the empty list are blank; its value is at most 1, and at least 0.8 if nothing is missing.
pub evidence_is_reported :
    (p : DomainPolicy) (context : Fields) (s : SignalScore) (missing present : List String)
    → evidence_signal p context ≡ ok (s, missing, present)
    → IsReport p context s missing present
unfolding evidence_signal
evidence_is_reported p context s missing present h =
    let required = present_of context p.required_evidence in
    let optional = present_of context p.optional_evidence in
    let value =
      evidence_value (length required) (length p.required_evidence) (length optional)
        (length p.optional_evidence) in
    let (x, e, q) = >>=-eq-ok (score "evidence" value for_confidence p.confidence_weights) _ h in
    subst (λ (t : SignalScore × List String × List String). IsReport p context t.0 t.1 t.2)
      (ok-inj q)
      (record {
        called_missing = missing_iff p context;
        called_present = present_iff p context;
        at_most =
            subst (λ n. n ≤ 1000) (sym (score-value value p x e))
              (value_le (length required) (length p.required_evidence) (length optional)
                (length p.optional_evidence) (present_le p context));
        at_least =
            λ m. subst (λ n. 800 ≤ n) (sym (score-value value p x e)) (score_at_least p context m);
      })
