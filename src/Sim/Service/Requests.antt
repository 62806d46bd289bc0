-- ===== src/Sim/Service/Requests.antt =====
-- Histories of requests to the service: what they leave of a simulation that is decided.
use builder_league.Prelude.Exec.{Keeps, bind-ok, keeps_rules}
use builder_league.Sim.Records.{
  Intent, Simulation, SimulationStore, Status, get, is_executed, is_pending, save,
}
use builder_league.Prelude.{
  ==_cases, ==_iff, All, Bool, List, String, [], arith, err, false, if◌then◌else◌, inl, inr, refl,
  some, sym, true, ℕ, ◌==◌, ◌∙◌, ◌∷◌, ◌≡◌, ◌≢◌, nat_eq, string_eq,
}
use builder_league.Prelude.Dict.{lookup-insert}
use builder_league.Prelude.Int.{ℤ}
use builder_league.Prelude.Values.{Fields}
use builder_league.Trust.Crypto.{Crypto}
use builder_league.Sim.Fork.{Snapshot}
use builder_league.Sim.Pipeline.{Books, Draws, not_pending, nothing_executed}
use builder_league.Sim.Service.{
  World, execute, execute_record, hold_budget, reject, reject_record, required, reset, rollback,
  rollback_record, simulate,
}
use builder_league.Sim.Service.Frame.{Keeps-audit, Keeps-on_books, SameSims, required-some}
use builder_league.Sim.Service.Steps.{
  Change, Ends-execute, Ends-reject, Ends-rollback, Ends-simulate, Moves, created, is_done,
  is_rejected, is_stopped, is_undone, is_unwound, kept, moved,
}
use mathlib.Core.Path.{subst}

-- What callers ask of the service, and `elsewhere`, by which other users of the trust service
-- and of the ledger leave other books.
pub data Request (c : Crypto) : Type 0 where
  simulates : String → (ℕ → String) → Draws → Intent → Request c
  rejects : Draws → String → Request c
  executes : Draws → String → Request c
  rolls_back : Draws → String → Request c
  holds_budget : Draws → String → ℤ → String → Request c
  elsewhere : Books c → Request c
  resets : Request c

module _ (c : Crypto) (diff : Snapshot c → Snapshot c → Fields) where
  abbrev pub is_simulation : Request c → Bool
  is_simulation (simulates i ids d intent) = true
  is_simulation _ = false

  unfoldable pub serve : Request c → World c → World c
  unfolding simulate reject execute rollback hold_budget reset
  serve (simulates i ids d intent) w = (simulate c diff i ids d intent w).1
  serve (rejects d i) w = (reject c d i w).1
  serve (executes d i) w = (execute c d i w).1
  serve (rolls_back d i) w = (rollback c d i w).1
  serve (holds_budget d key amount reference) w = (hold_budget c d key amount reference w).1
  serve (elsewhere b) w = record w { books = b }
  serve resets w = (reset c w).1

  unfoldable pub serve_all : List (Request c) → World c → World c
  unfolding serve
  serve_all [] w = w
  serve_all (q ∷ qs) w = serve_all qs (serve q w)

  -- a step of the stored records, about some identifier
  abbrev pub IsStep : Bool → SimulationStore → SimulationStore → Type 0
  IsStep new m n = (i : String) × Change new i m n

  -- what a request does to the stored simulations: a reset drops them all
  abbrev pub IsServed : Request c → SimulationStore → SimulationStore → Type 0
  IsServed resets m n = n ≡ []
  IsServed q m n = IsStep (is_simulation q) m n

  hold-IsStep :
      (d : Draws) (key : String) (amount : ℤ) (reference : String) (w : World c)
      → IsStep false w.sims (hold_budget c d key amount reference w).1.sims
  unfolding hold_budget
  hold-IsStep d key amount reference w =
      let k : Keeps (SameSims c w.sims) (hold_budget c d key amount reference) =
        search (Keeps-on_books c w.sims, Keeps-audit c w.sims, keeps_rules) in
      ("", subst (Change false "" w.sims) (sym (k.at w refl)) kept)

  -- Every request but a reset makes a step of the stored simulations: it leaves them alone, it adds a
  -- pending one if it is to simulate, or it moves one from pending to rejected, executed or escalated, or
  -- from one of the last two to rolled back, the other records unchanged. A reset drops them all.
  pub serve-IsStep : (q : Request c) (w : World c) → IsServed q w.sims (serve q w).sims
  unfolding serve
  serve-IsStep (simulates i ids d intent) w =
      (i, (Ends-simulate c w.sims true diff i ids d intent refl).at w refl)
  serve-IsStep (rejects d i) w = (i, (Ends-reject c w.sims false d i).at w refl)
  serve-IsStep (executes d i) w = (i, (Ends-execute c w.sims false d i).at w refl)
  serve-IsStep (rolls_back d i) w = (i, (Ends-rollback c w.sims false d i).at w refl)
  serve-IsStep (holds_budget d key amount reference) w = hold-IsStep d key amount reference w
  serve-IsStep (elsewhere b) w = ("", kept)
  serve-IsStep resets w = refl

-- every record stands under its own identifier
abbrev pub IsKeyed : SimulationStore → Type 0
IsKeyed m = (i : String) (s : Simulation) → get i m ≡ some s → s.id ≡ i

get-save :
    (i : String) (s : Simulation) (m : SimulationStore)
    → get i (save s m) ≡ (if s.id == i then some s else get i m)
unfolding get save
get-save i s m = lookup-insert s.id i s m

save-IsKeyed : (s : Simulation) (m : SimulationStore) → IsKeyed m → IsKeyed (save s m)
save-IsKeyed s m k i t h = ground (arith, get-save i s m, h, ==_iff s.id i, k i t)

step-IsKeyed :
    (new : Bool) (i : String) (m n : SimulationStore) → IsKeyed m → Change new i m n → IsKeyed n
step-IsKeyed new i m _ k kept = k
step-IsKeyed new i m _ k (created s _ q p) = save-IsKeyed s m k
step-IsKeyed new i m _ k (moved s t g q v) = save-IsKeyed s m k

-- a record with such a status stands under an identifier
abbrev pub IsAt : (Status → Type 0) → String → SimulationStore → Type 0
IsAt P i m = (s : Simulation) × (get i m ≡ some s) × P s.status

-- A predicate that the moves keep, of the record under an identifier, is kept by a step that adds
-- none under it.
step-IsAt :
    (P : Status → Type 0)
    → ((x y : Status) → Moves x y → P x → P y)
    → (new : Bool) (i j : String) (m n : SimulationStore) → (new ≡ true → j ≢ i)
    → IsKeyed m
    → Change new j m n
    → IsAt P i m
    → IsAt P i n
step-IsAt P f new i j m _ a k kept h = h
step-IsAt P f new i j m _ a k (created s e q p) (r, gr, h) =
    (r, get-save i s m ∙ (ground (arith, ==_iff s.id i, a e, q, gr)), h)
step-IsAt P f new i j m _ a k (moved s t g q v) (r, gr, h) = elim (==_cases s.id i) [
  | inr (e, b) ↦ (r, get-save i s m ∙ rw (b) gr, h)
  | inl (e, b) ↦ (
    s,
    get-save i s m ∙ rw b refl,
    f t.status s.status v (subst (λ (x : Simulation). P x.status) (found e) h),
  )
]
  where
    found : s.id ≡ i → r ≡ t
    found e = ground (arith, g, gr, k j t g, q)

abbrev IsDecided : Status → Type 0
IsDecided x = is_pending x ≡ false

abbrev IsClosed : Status → Type 0
IsClosed x = (is_pending x ≡ false) × (is_executed x ≡ false)

Moves-IsDecided : (x y : Status) → Moves x y → IsDecided x → IsDecided y
Moves-IsDecided _ _ is_rejected h = refl
Moves-IsDecided _ _ is_done h = refl
Moves-IsDecided _ _ is_stopped h = refl
Moves-IsDecided _ _ is_undone h = refl
Moves-IsDecided _ _ is_unwound h = refl

Moves-IsClosed : (x y : Status) → Moves x y → IsClosed x → IsClosed y
Moves-IsClosed _ _ is_rejected h = (refl, refl)
Moves-IsClosed _ _ is_done h = cc
Moves-IsClosed _ _ is_stopped h = cc
Moves-IsClosed _ _ is_undone h = (refl, refl)
Moves-IsClosed _ _ is_unwound h = (refl, refl)

module _ (c : Crypto) (diff : Snapshot c → Snapshot c → Fields) where
  -- the request simulates nothing under the identifier, and is no reset
  abbrev pub Avoids : String → Request c → Type 0
  Avoids i resets = ⊥
  Avoids i (simulates j ids d intent) = j ≢ i
  Avoids i q = Unit

  module _ (P : Status → Type 0) (f : (x y : Status) → Moves x y → P x → P y) (i : String) where
    serve-IsAt :
        (q : Request c) (w : World c)
        → Avoids i q
        → IsKeyed w.sims
        → IsAt P i w.sims
        → IsKeyed (serve c diff q w).sims × IsAt P i (serve c diff q w).sims
    unfolding serve
    serve-IsAt (simulates j ids d intent) w a k h =
        let e = (Ends-simulate c w.sims true diff j ids d intent refl).at w refl in
        (step-IsKeyed true j w.sims _ k e, step-IsAt P f true i j w.sims _ (λ _. a) k e h)
    serve-IsAt resets w a k h = absurd a
    serve-IsAt q w a k h =
        let (j, e) = serve-IsStep c diff q w in
        (step-IsKeyed false j w.sims _ k e, step-IsAt P f false i j w.sims _ (λ x. cc) k e h)

    serve_all-IsAt :
        (qs : List (Request c)) (w : World c)
        → All (Avoids i) qs
        → IsKeyed w.sims
        → IsAt P i w.sims
        → IsAt P i (serve_all c diff qs w).sims
    unfolding serve_all
    serve_all-IsAt [] w a k h = h
    serve_all-IsAt (q ∷ qs) w (a, more) k h =
        let (k1, h1) = serve-IsAt q w a k h in serve_all-IsAt qs (serve c diff q w) more k1 h1

-- what a request for a decided simulation gets
execute_refuses :
    (c : Crypto) (d : Draws) (i : String) (w : World c)
    → IsAt IsDecided i w.sims
    → (execute c d i w ≡ (err (not_pending i), w)) × (reject c d i w ≡ (err (not_pending i), w))
unfolding execute execute_record reject reject_record
execute_refuses c d i w (s, g, h) =
    let r = required-some c w.sims i s w g in
    (
      bind-ok (required c i) (execute_record c d i) w s w r ∙ rw h refl,
      bind-ok (required c i) (reject_record c d i) w s w r ∙ rw h refl,
    )

rollback_refuses :
    (c : Crypto) (d : Draws) (i : String) (w : World c)
    → IsAt IsClosed i w.sims
    → rollback c d i w ≡ (err (nothing_executed i), w)
unfolding rollback rollback_record
rollback_refuses c d i w (s, g, h) =
    bind-ok (required c i) (rollback_record c d i) w s w (required-some c w.sims i s w g)
    ∙ rw h.1 refl

-- When every record stands under its own identifier, and a simulation is no longer pending, then after
-- all requests that neither reset the service nor simulate anew under its identifier, to execute it and to
-- reject it raise that it is not pending and change nothing; if it is rejected or rolled back, to roll it
-- back raises that there is nothing executed and changes nothing.
pub decided_once :
    (c : Crypto) (diff : Snapshot c → Snapshot c → Fields) (i : String) (s : Simulation)
    (w : World c) (qs : List (Request c)) (d : Draws)
    → IsKeyed w.sims
    → get i w.sims ≡ some s
    → is_pending s.status ≡ false
    → All (Avoids c diff i) qs
    → (execute c d i (serve_all c diff qs w) ≡ (err (not_pending i), serve_all c diff qs w))
      × (reject c d i (serve_all c diff qs w) ≡ (err (not_pending i), serve_all c diff qs w))
      × (is_executed s.status ≡ false
          → rollback c d i (serve_all c diff qs w)
            ≡ (err (nothing_executed i), serve_all c diff qs w))
decided_once c diff i s w qs d k g p a =
    let (x, y) =
      execute_refuses c d i (serve_all c diff qs w)
        (serve_all-IsAt c diff IsDecided Moves-IsDecided i qs w a k (s, g, p)) in
    (
      x,
      y,
      λ e.
          rollback_refuses c d i (serve_all c diff qs w)
            (serve_all-IsAt c diff IsClosed Moves-IsClosed i qs w a k (s, g, (p, e))),
    )
