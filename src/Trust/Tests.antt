-- ===== src/Trust/Tests.antt =====
-- Runs of the trust service on small inputs, and the theorems at such inputs.
use builder_league.Prelude.Values.{end, get, get_or, int, same, truthy}
use builder_league.Prelude.{
  Any, List, Result, [], arith, leb, length, none, ok, refl, some, true, ℕ, ◌*◌, ◌++◌, ◌+◌, ◌<◌,
  ◌∷◌, ◌≡◌,
}
use builder_league.Prelude.Int.{pos}
use builder_league.Prelude.Dict.{lookup}
use builder_league.Trust.Crypto.{verify_payload}
use builder_league.Trust.Credentials.{
  Credential, TrustError, actions_of, among, authority_grant, exceeds, expired, failure_if,
  invalid_signature, revoke, revoked, signed_payload, task_completion, verify_credential,
}
use builder_league.Trust.Policy.{covering, covers, evaluate, judge}
use builder_league.Trust.Samples.{grant, grant-IsSigned, scope, shop, toy, toy-IsLawful}
use builder_league.Trust.Service.{
  TrustService, day, decide, decision_receipt, get_credential, issue_credential,
  register_signed_credential, revoke_credential, tally,
}
use builder_league.Trust.Service.Profile.{trust_profile}
use builder_league.Trust.Service.Filing.{IsFiled}
use builder_league.Trust.Service.Decisions.{IsGood, allow_needs_credentials, claim_of}
use builder_league.Trust.Service.Agreement.{decide_agrees-trust_profile}
use builder_league.Trust.Service.Lifecycle.{issued_verifies, revocation_and_return}
use builder_league.Trust.Service.History.{
  Call, call_all, calls_append-IsFiled, decides, registers, revokes,
}
use builder_league.Trust.Store.{Receipt, find_by_key, for_subject}

-- the buyer asks for a purchase of 5
abbrev asked : Result TrustError (Receipt × TrustService toy)
unfolding decide
asked = decide toy "r1" 1 "buyer" "purchase" (some (pos 5)) "paper" shop

abbrev receipt : Receipt
receipt =
    decision_receipt toy "r1" 1 "buyer" "purchase" (some (pos 5)) "paper" shop 2
      (record { authority = claim_of toy 1 grant ∷ []; completions = 1; failures = [] })
      (judge (claim_of toy 1 grant ∷ []) 1)

asked_is_allowed : asked ≡ ok (receipt, record shop { receipts = receipt ∷ [] })
unfolding asked decide for_subject tally verify_credential verify_payload signed_payload evaluate
    covering covers actions_of among exceeds judge get_or truthy same decision_receipt find_by_key
asked_is_allowed = refl

allow_needs_credentials_example :
    Any
      (λ d.
        IsGood toy 1 authority_grant d
        × (covers toy (claim_of toy 1 d) "purchase" (some (pos 5)) ≡ ok true))
      (for_subject toy "buyer" shop.credentials)
    × Any (IsGood toy 1 task_completion) (for_subject toy "buyer" shop.credentials)
unfolding judge decision_receipt decide asked
allow_needs_credentials_example =
    allow_needs_credentials toy "r1" "buyer" "purchase" "paper" 1 (some (pos 5)) shop
      (record shop { receipts = receipt ∷ [] }) receipt asked_is_allowed refl

decide_agrees-trust_profile_example :
    (get "valid_authority" receipt.signals
      ≡ int (trust_profile toy 1 "buyer" shop).valid_authority_grants)
    × (get "valid_completions" receipt.signals
        ≡ int (trust_profile toy 1 "buyer" shop).valid_completions)
    × ((trust_profile toy 1 "buyer" shop).invalid_or_revoked
        ≡ length (tally toy 1 (for_subject toy "buyer" shop.credentials)).failures)
unfolding decide asked
decide_agrees-trust_profile_example =
    decide_agrees-trust_profile toy "r1" "buyer" "purchase" "paper" 1 (some (pos 5)) shop
      (record shop { receipts = receipt ∷ [] }) receipt asked_is_allowed

issued_verifies_example :
    (d : Credential toy) × (u : TrustService toy) × (issue_credential toy "g2" 5 "acme" "buyer"
        authority_grant end scope 1 shop
      ≡ ok (d, u))
    × (get_credential toy "g2" u ≡ some d)
    × ((later : ℕ) → later < 5 + 1 * day → verify_credential toy d later ≡ [])
issued_verifies_example =
    issued_verifies toy toy-IsLawful "g2" "buyer" 5 1 "acme" authority_grant end scope shop

revocation_and_return_example :
    (u : TrustService toy) × (v : TrustService toy) × (revoke_credential toy 3 "g1" "lost" none shop
      ≡ ok u)
    × (get_credential toy "g1" u ≡ some (revoke toy grant 3 "lost"))
    × (verify_credential toy (revoke toy grant 3 "lost") 4
        ≡ invalid_signature ∷ revoked ∷ failure_if (leb day 4) expired)
    × (register_signed_credential toy 4 grant u ≡ ok (grant, v))
    × (get_credential toy "g1" v ≡ some grant)
    × (verify_credential toy grant 4 ≡ failure_if (leb day 4) expired)
unfolding get_credential lookup
revocation_and_return_example =
    revocation_and_return toy toy-IsLawful "g1" "lost" 3 4 grant shop refl refl grant-IsSigned refl
      (omega arith)

abbrev calls : List (Call toy)
calls =
    revokes 3 "g1" "lost" none
    ∷ decides "r1" 4 "buyer" "purchase" (some (pos 5)) "paper"
    ∷ registers "a2" "VendorBot" "vendor" "Vendor Inc"
    ∷ []

calls_append-IsFiled_example :
    ((more : List Receipt) × ((call_all toy calls shop).receipts ≡ shop.receipts ++ more))
    × (IsFiled toy shop.credentials → IsFiled toy (call_all toy calls shop).credentials)
calls_append-IsFiled_example = calls_append-IsFiled toy calls shop
