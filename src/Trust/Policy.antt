-- ===== src/Trust/Policy.antt =====
-- Policy evaluation (core/trustcore/domain/policy.py). Reasons are lists of their pieces.
use builder_league.Prelude.{
  Bool, List, Option, Result, String, [], if◌then◌else◌, not, ok, suc, true, zero, ℕ, ◌∷◌, ◌>>=◌,
}
use builder_league.Prelude.Int.{ℤ}
use builder_league.Prelude.Values.{Fields, Value, format, get, get_or, int, str, values_of}
use builder_league.Trust.Crypto.{Crypto}
use builder_league.Trust.Credentials.{TrustError, actions_of, among, exceeds}

pub data PolicyDecision : Type 0 where
  allow refuse escalate : PolicyDecision

pub record PolicyResult : Type 0 where
  pub decision : PolicyDecision
  pub reasons : List Value

-- a claim, the dict of an identifier and a scope
pub record Claim : Type 0 where
  pub id : String
  pub scope : Fields

-- `_covers`
unfoldable pub covers : Crypto → Claim → String → Option ℤ → Result TrustError Bool
unfolding get_or
covers c claim action amount = do
  actions ← actions_of claim.scope
  over ← if among action actions then exceeds c amount (get "max_amount" claim.scope) else ok true
  ok (not over)

-- `[c for c in claims if _covers(c)]`
unfoldable pub covering : Crypto → String → Option ℤ → List Claim → Result TrustError (List Claim)
unfolding covers
covering c action amount [] = ok []
covering c action amount (x ∷ xs) = do
  b ← covers c x action amount
  rest ← covering c action amount xs
  ok (if b then x ∷ rest else rest)

-- the decision from the claims that cover
unfoldable pub judge : List Claim → ℕ → PolicyResult
judge [] n = record {
  decision = refuse;
  reasons = str "no valid authority claim covers this action/amount" ∷ [];
}
judge (x ∷ xs) zero = record {
  decision = escalate;
  reasons = str "authority valid but counterparty has no completed-task history" ∷ [];
}
judge (x ∷ xs) (suc n) = record {
  decision = allow;
  reasons =
      format (
        values_of (
          str "authority claim "
          ∷ str x.id
          ∷ str " covers action; "
          ∷ int (suc n)
          ∷ str " completed-task claim(s) on record"
          ∷ []))
      ∷ [];
}

unfoldable pub evaluate :
    Crypto → String → Option ℤ → List Claim → ℕ → Result TrustError PolicyResult
unfolding covering judge
evaluate c action amount claims completions = do
  found ← covering c action amount claims
  ok (judge found completions)
