-- ===== src/Company/Ledger/Replay.antt =====
-- The replay of the company's log, day by day.
use builder_league.Prelude.{
  All, List, Result, [], ap, arith, err, filter, leb, ok, refl, sym, ℕ, ◌++◌, ◌<◌, ◌>>=◌, ◌∙◌, ◌∷◌,
  ◌≡◌, ◌≤◌,
}
use builder_league.Adaptive.Worlds.{ReadError}
use builder_league.Company.Events.{CompanyEvent}
use builder_league.Company.Ledger.{
  CompanyState, by_seq, fold_all, fold_one, fold_state, nothing_yet, place, replay_day,
}

-- a log in the order of its numbers
unfoldable pub IsOrdered : List CompanyEvent → Type 0
IsOrdered [] = Unit
IsOrdered (e ∷ es) = All (λ x. e.seq ≤ x.seq) es × IsOrdered es

unfoldable pub IsUntil : ℕ → List CompanyEvent → Type 0
IsUntil d es = All (λ e. e.day ≤ d) es

unfoldable pub IsAfter : ℕ → List CompanyEvent → Type 0
IsAfter d es = All (λ e. d < e.day) es

place-first :
    (e : CompanyEvent) (es : List CompanyEvent) → All (λ x. e.seq ≤ x.seq) es → place e es ≡ e ∷ es
unfolding place
place-first e [] h = refl
place-first e (x ∷ xs) (h, t) = ground (arith, h)

by_seq-ordered : (es : List CompanyEvent) → IsOrdered es → by_seq es ≡ es
unfolding by_seq IsOrdered
by_seq-ordered [] h = refl
by_seq-ordered (e ∷ es) (h, t) = ap (place e) (by_seq-ordered es t) ∙ place-first e es h

fold_all-append :
    (xs ys : List CompanyEvent) (s : CompanyState)
    → fold_all (xs ++ ys) s ≡ (fold_all xs s >>= fold_all ys)
unfolding fold_all
fold_all-append [] ys s = refl
fold_all-append (x ∷ xs) ys s = after (fold_one x s) (fold_all-append xs ys)
  where
    after :
        (r : Result ReadError CompanyState)
        → ((t : CompanyState) → fold_all (xs ++ ys) t ≡ (fold_all xs t >>= fold_all ys))
        → (r >>= fold_all (xs ++ ys)) ≡ ((r >>= fold_all xs) >>= fold_all ys)
    after (ok t) h = h t
    after (err e) h = refl

IsOrdered-before : (xs ys : List CompanyEvent) → IsOrdered (xs ++ ys) → IsOrdered xs
unfolding IsOrdered
IsOrdered-before [] ys h = tt
IsOrdered-before (x ∷ xs) ys (h, t) = (before xs h, IsOrdered-before xs ys t)
  where
    before :
        (zs : List CompanyEvent) → All (λ z. x.seq ≤ z.seq) (zs ++ ys) → All (λ z. x.seq ≤ z.seq) zs
    before [] q = tt
    before (z ∷ zs) (q, r) = (q, before zs r)

none_after : (d : ℕ) (es : List CompanyEvent) → IsAfter d es → filter (λ e. leb e.day d) es ≡ []
unfolding IsAfter
none_after d [] h = refl
none_after d (e ∷ es) (h, t) = ground (arith, h, none_after d es t)

until :
    (d : ℕ) (xs ys : List CompanyEvent)
    → IsUntil d xs
    → IsAfter d ys
    → filter (λ e. leb e.day d) (xs ++ ys) ≡ xs
unfolding IsUntil
until d [] ys h k = none_after d ys k
until d (x ∷ xs) ys (h, t) k = ground (arith, h, until d xs ys t k)

-- When a log is in the order of its numbers and is split where a day ends, its state is that of the replay
-- of that day with the later events folded in, or both raise the same.
pub replay_then_rest :
    (d : ℕ) (xs ys : List CompanyEvent)
    → IsOrdered (xs ++ ys)
    → IsUntil d xs
    → IsAfter d ys
    → fold_state (xs ++ ys) ≡ (replay_day (xs ++ ys) d >>= fold_all ys)
unfolding fold_state replay_day
replay_then_rest d xs ys o h k =
    let whole = ap (λ es. fold_all es nothing_yet) (by_seq-ordered (xs ++ ys) o) in
    let day =
      ap (λ es. fold_state es) (until d xs ys h k)
      ∙ ap (λ es. fold_all es nothing_yet) (by_seq-ordered xs (IsOrdered-before xs ys o)) in
    whole ∙ (fold_all-append xs ys nothing_yet ∙ ap (λ r. r >>= fold_all ys) (sym day))
