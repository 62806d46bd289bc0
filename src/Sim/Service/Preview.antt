-- ===== src/Sim/Service/Preview.antt =====
-- The pipeline on the fork and on the live books comes to the same decision.
use builder_league.Prelude.Exec.{bind-err, bind-ok, pure, ◌>>=◌}
use builder_league.Prelude.{
  All, Any, Bool, List, Result, String, [], ap, err, false, if◌then◌else◌, length, ok, refl, some,
  sym, true, ℕ, ◌++◌, ◌∙◌, ◌∷◌, ◌≡◌, ◌≢◌,
}
use builder_league.Prelude.Int.{leb_ℤ, pos, ℤ}
use builder_league.Prelude.Values.{Value, format, same, str, values_of}
use builder_league.Prelude.Dict.{values}
use builder_league.Trust.Crypto.{Crypto}
use builder_league.Trust.Credentials.{Credential, TrustError, verify_credential}
use builder_league.Trust.Policy.{
  PolicyDecision, PolicyResult, allow, covering, escalate, evaluate, judge, refuse,
}
use builder_league.Trust.Service.{
  Tally, TrustService, collect, count_one, decide, decision_receipt, reasoning_of, tally,
}
use builder_league.Trust.Service.Filing.{
  IsFiled, absent_All, collect-new, filed-values, values-IsDistinct,
}
use builder_league.Trust.Service.Listing.{list_credentials_complete, list_credentials-misses}
use builder_league.Trust.Store.{CredentialStore, Receipt, for_subject, list_agents, save}
use builder_league.Sim.Fork.{fork_trust, save_all}
use builder_league.Sim.Pipeline.{
  Books, Draws, Outcome, Run, SimError, of_ledger, of_trust, on_ledger, on_trust, run_purchase,
  spend_if_allowed,
}
use builder_league.Sim.Ledger.{
  Ledger, LedgerEntry, LedgerError, Made, append, not_positive, place_spend, spend,
}

-- what a run of the pipeline decided and why, or what it raised
abbrev pub brief : Result SimError Outcome → Result SimError (PolicyDecision × Value)
brief (ok out) = ok (out.decision, out.reasoning)
brief (err e) = err e

-- what the pipeline makes of a decision: an allowed purchase is posted, which raises for an amount that
-- is not positive
abbrev outcome_of : PolicyDecision → ℤ → Value → Result SimError (PolicyDecision × Value)
outcome_of allow amount note =
    if leb_ℤ amount (pos 0) then err (of_ledger (not_positive spend amount)) else ok (allow, note)
outcome_of refuse amount note = ok (refuse, note)
outcome_of escalate amount note = ok (escalate, note)

abbrev expected :
    Result TrustError PolicyResult → ℤ → List Value → Result SimError (PolicyDecision × Value)
expected (ok r) amount failures = outcome_of r.decision amount (reasoning_of r failures)
expected (err e) amount failures = err (of_trust e)

module _ (c : Crypto) where
  save_all-collect :
      (ds : List (Credential c)) (s : CredentialStore c) → save_all c ds s ≡ collect c ds s
  unfolding save_all save
  save_all-collect [] s = refl
  save_all-collect (d ∷ ds) s = save_all-collect ds _

  save_all-values : (s : CredentialStore c) → IsFiled c s → save_all c (values s) [] ≡ s
  save_all-values s f =
      save_all-collect (values s) []
      ∙ (collect-new c (values s) [] (absent_All c (values s)) (values-IsDistinct c s f)
          ∙ filed-values c s f)

  -- the fork has the same credentials of a registered agent
  for_subject-fork :
      (key : String) (ids : ℕ → String) (t : TrustService c)
      → IsFiled c t.credentials
      → Any (λ a. a.public_key ≡ key) (list_agents t.registry)
      → for_subject c key (fork_trust c ids t).credentials ≡ for_subject c key t.credentials
  unfolding fork_trust
  for_subject-fork key ids t f h =
      let (s, g, q, e) = list_credentials_complete c key t f h in
      ap (λ ds. for_subject c key (save_all c ds [])) q
      ∙ (ap (for_subject c key) (save_all-values s g) ∙ e)

  -- and none of any other subject
  for_subject-unregistered :
      (key : String) (ids : ℕ → String) (t : TrustService c)
      → IsFiled c t.credentials
      → All (λ a. a.public_key ≢ key) (list_agents t.registry)
      → for_subject c key (fork_trust c ids t).credentials ≡ []
  unfolding fork_trust
  for_subject-unregistered key ids t f h =
      let (s, g, q, e) = list_credentials-misses c key t f h in
      ap (λ ds. for_subject c key (save_all c ds [])) q
      ∙ (ap (for_subject c key) (save_all-values s g) ∙ e)

  tally-same :
      (now later : ℕ) (ds : List (Credential c))
      → All (λ d. verify_credential c d now ≡ verify_credential c d later) ds
      → tally c now ds ≡ tally c later ds
  unfolding tally
  tally-same now later [] a = refl
  tally-same now later (d ∷ ds) (h, a) =
      ap (λ y. count_one c d (verify_credential c d now) y) (tally-same now later ds a)
      ∙ ap (λ fs. count_one c d fs (tally c later ds)) h

  module _ (d : Draws) (key description reference : String) (amount : ℤ) (b : Books c) where
    abbrev counted : Tally
    counted = tally c d.now (for_subject c key b.trust.credentials)

    abbrev receipt_for : PolicyResult → Receipt
    receipt_for r =
        decision_receipt c d.receipt_id d.now key "purchase" (some amount) description b.trust
          (length (for_subject c key b.trust.credentials)) counted r

    abbrev after_receipt : Receipt → Run c Outcome
    after_receipt r = spend_if_allowed c r.decision d key amount reference >>= λ entry.
        pure (record {
          receipt_id = r.id;
          decision = r.decision;
          reasoning = r.reasoning;
          ledger_entry = entry;
        })

    abbrev of_made : Value → Made → Result SimError (PolicyDecision × Value)
    of_made note (ok x) = ok (allow, note)
    of_made note (err e) = err (of_ledger e)

    of_made-if :
        (note : Value) (b : Bool) (x : LedgerEntry × Ledger) (e : LedgerError)
        → of_made note (if b then err e else ok x)
          ≡ (if b then err (of_ledger e) else ok (allow, note))
    of_made-if note true x e = refl
    of_made-if note false x e = refl

    abbrev after_spend : Receipt → Made → Run c Outcome
    after_spend r m = (on_ledger c (λ _. m) >>= λ e. pure (some e)) >>= λ entry. pure (record {
      receipt_id = r.id;
      decision = allow;
      reasoning = r.reasoning;
      ledger_entry = entry;
    })

    brief-after_spend :
        (r : Receipt) (m : Made) (u : Books c) → brief (after_spend r m u).0 ≡ of_made r.reasoning m
    brief-after_spend r (ok x) u = refl
    brief-after_spend r (err e) u = refl

    brief-after_receipt :
        (r : Receipt) (x : PolicyDecision) (u : Books c)
        → brief (after_receipt (record r { decision = x }) u).0 ≡ outcome_of x amount r.reasoning
    unfolding spend_if_allowed place_spend append
    brief-after_receipt r allow u =
        brief-after_spend r (place_spend d.entry_id d.ts key amount reference u.ledger) u
        ∙ of_made-if r.reasoning (leb_ℤ amount (pos 0)) _ (not_positive spend amount)
    brief-after_receipt r refuse u = refl
    brief-after_receipt r escalate u = refl

    abbrev asked : TrustService c → Result TrustError (Receipt × TrustService c)
    unfolding decide
    asked = decide c d.receipt_id d.now key "purchase" (some amount) description

    on_trust-ok :
        (r : Receipt) (u : TrustService c)
        → asked b.trust ≡ ok (r, u)
        → on_trust c asked b ≡ (ok r, record b { trust = u })
    on_trust-ok r u h = ap (λ x. on_trust c (λ _. x) b) h

    on_trust-err :
        (x : TrustError) → asked b.trust ≡ err x → on_trust c asked b ≡ (err (of_trust x), b)
    on_trust-err x h = ap (λ y. on_trust c (λ _. y) b) h

    -- the credentials decide
    brief-run_purchase :
        (r : Result TrustError PolicyResult)
        → evaluate c "purchase" (some amount) counted.authority counted.completions ≡ r
        → brief (run_purchase c d key amount description reference b).0
          ≡ expected r amount counted.failures
    unfolding run_purchase decide asked
    brief-run_purchase (ok r) h =
        let x = receipt_for r in
        let u = record b.trust { receipts = b.trust.receipts ++ (x ∷ []) } in
        ap (λ p. brief p.0)
          (bind-ok (on_trust c asked) after_receipt b x (record b { trust = u })
            (on_trust-ok x u (rw h refl)))
        ∙ brief-after_receipt x r.decision (record b { trust = u })
    brief-run_purchase (err e) h =
        ap (λ p. brief p.0)
          (bind-err (on_trust c asked) after_receipt b (of_trust e) b (on_trust-err e (rw h refl)))

-- On the fork of the live books, the pipeline comes to the decision and the reasons that it comes to on
-- the live books, or raises the same, if the store files every credential under its own identifier, the
-- requester is registered, and between the two readings of the clock no credential of the requester
-- verifies differently.
pub preview_is_exact :
    (c : Crypto) (ids : ℕ → String) (d e : Draws) (key description reference reference2 : String)
    (amount : ℤ) (b : Books c)
    → IsFiled c b.trust.credentials
    → Any (λ a. a.public_key ≡ key) (list_agents b.trust.registry)
    → All
        (λ x. verify_credential c x d.now ≡ verify_credential c x e.now)
        (for_subject c key b.trust.credentials)
    → brief
        (run_purchase c d key amount description reference
          (record { trust = fork_trust c ids b.trust; ledger = b.ledger })).0
      ≡ brief (run_purchase c e key amount description reference2 b).0
preview_is_exact c ids d e key description reference reference2 amount b f h same =
    let forked : Books c = record { trust = fork_trust c ids b.trust; ledger = b.ledger } in
    let live = for_subject c key b.trust.credentials in
    let q : counted c d key description reference amount forked
        ≡ counted c e key description reference2 amount b =
      ap (tally c d.now) (for_subject-fork c key ids b.trust f h)
      ∙ tally-same c d.now e.now live same in
    brief-run_purchase c d key description reference amount forked _ refl
    ∙ (ap
          (λ (y : Tally).
            expected (evaluate c "purchase" (some amount) y.authority y.completions) amount
              y.failures)
          q
        ∙ sym (brief-run_purchase c e key description reference2 amount b _ refl))

-- On the fork, the pipeline refuses every purchase of a requester who is not registered as an agent,
-- whatever credentials the live store has of it, if that store files every credential under its own
-- identifier.
pub preview_refuses_unregistered :
    (c : Crypto) (ids : ℕ → String) (d : Draws) (key description reference : String) (amount : ℤ)
    (b : Books c)
    → IsFiled c b.trust.credentials
    → All (λ a. a.public_key ≢ key) (list_agents b.trust.registry)
    → brief
        (run_purchase c d key amount description reference
          (record { trust = fork_trust c ids b.trust; ledger = b.ledger })).0
      ≡ ok (
        refuse,
        format (values_of (str "no valid authority claim covers this action/amount" ∷ [])),
      )
unfolding evaluate covering judge tally
preview_refuses_unregistered c ids d key description reference amount b f h =
    let forked : Books c = record { trust = fork_trust c ids b.trust; ledger = b.ledger } in
    brief-run_purchase c d key description reference amount forked _ refl
    ∙ ap
        (λ (ds : List (Credential c)).
          let y = tally c d.now ds in
          expected (evaluate c "purchase" (some amount) y.authority y.completions) amount
            y.failures)
        (for_subject-unregistered c key ids b.trust f h)
