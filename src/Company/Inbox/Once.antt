-- ===== src/Company/Inbox/Once.antt =====
-- An escalation is resolved once.
use mathlib.Core.Path.{subst}
use builder_league.Prelude.{
  ==_cases, Bool-cases, List, Option-cases, Result, String, [], ap, err, false, inl, inr, ok, refl,
  some, sym, true, ℕ, ◌==◌, ◌∙◌, ◌∷◌, ◌≡◌, nat_eq, string_eq,
}
use builder_league.Prelude.Dict.{Dict, lookup-insert}
use builder_league.Company.Inbox.{
  Escalation, Inbox, InboxError, already_resolved, raise_escalation, reset, resolve,
}
use builder_league.Prelude.Dict

-- calls of the inbox; one that raises leaves it as it was
pub data Call : Type 0 where
  raises : String → ℕ → String → String → String → Call
  resolves : String → String → Call
  resets : Call

abbrev pub after : Inbox → Result InboxError (Escalation × Inbox) → Inbox
after box (ok (e, b)) = b
after box (err x) = box

unfoldable pub step : Inbox → Call → Inbox
unfolding raise_escalation resolve
step box (raises id day actor summary detail) = (raise_escalation id day actor summary detail box).1
step box (resolves id resolution) = after box (resolve id resolution box)
step box resets = reset box

unfoldable pub run : Inbox → List Call → Inbox
unfolding step
run box [] = box
run box (c ∷ cs) = run (step box c) cs

-- no call of the list raises an escalation under this identifier again, and none empties the inbox
abbrev pub Spares : String → List Call → Type 0
Spares i [] = Unit
Spares i (raises id day actor summary detail ∷ cs) = ((id == i) ≡ false) × Spares i cs
Spares i (resolves id resolution ∷ cs) = Spares i cs
Spares i (resets ∷ cs) = ⊥

resolve-refused :
    (i text : String) (e : Escalation) (box : Inbox)
    → Dict.lookup i box ≡ some e
    → e.resolved ≡ true
    → resolve i text box ≡ err (already_resolved i)
unfolding resolve
resolve-refused i text e box h r = rw (h, r) refl

resolve-kept :
    (i id text : String) (e : Escalation) (box : Inbox)
    → Dict.lookup i box ≡ some e
    → e.resolved ≡ true
    → Dict.lookup i (after box (resolve id text box)) ≡ some e
unfolding resolve
resolve-kept i id text e box h r = elim (==_cases id i) [
  | inl (q, b) ↦
      subst (λ j. Dict.lookup i (after box (resolve j text box)) ≡ some e) (sym q)
        (ap (λ o. Dict.lookup i (after box o)) (resolve-refused i text e box h r) ∙ h)
  | inr (q, b) ↦ elim (Option-cases (Dict.lookup id box)) [
    | inl n ↦ rw n h
    | inr (x, f) ↦ elim (Bool-cases x.resolved) [
      | inl t ↦ rw (f, t) h
      | inr t ↦ rw (f, t) (lookup-insert id i _ box ∙ rw b h)
    ]
  ]
]

-- A resolved escalation reads the same after any calls of the inbox among which none raises an escalation
-- under its identifier and none resets the inbox, and a second resolution of it raises that it is already
-- resolved.
pub resolution_is_final :
    (i : String) (e : Escalation) (box : Inbox) (cs : List Call) (text : String)
    → Dict.lookup i box ≡ some e
    → e.resolved ≡ true
    → Spares i cs
    → (Dict.lookup i (run box cs) ≡ some e)
      × (resolve i text (run box cs) ≡ err (already_resolved i))
unfolding run step raise_escalation resolve
resolution_is_final i e box [] text h r s = (h, resolve-refused i text e box h r)
resolution_is_final i e box (raises id day actor summary detail ∷ cs) text h r s =
    resolution_is_final i e (step box (raises id day actor summary detail)) cs text
      (lookup-insert id i _ box ∙ rw s.0 h) r s.1
resolution_is_final i e box (resolves id t ∷ cs) text h r s =
    resolution_is_final i e (step box (resolves id t)) cs text (resolve-kept i id t e box h r) r s
resolution_is_final i e box (resets ∷ cs) text h r s = absurd s
