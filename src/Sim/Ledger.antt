-- ===== src/Sim/Ledger.antt =====
-- `BudgetLedger` (core/simcore/domain/ledger.py), an append-only list of entries. Amounts are
-- whole millionths of the currency, so that sums are exact. The identifiers, which the code draws from
-- `uuid4`, and the time stamps are arguments.
pub mod Answers
pub mod Balance
pub mod Calls
pub mod Once
pub mod Integrity
pub mod Totals
use builder_league.Prelude.{
  Bool, List, Option, Result, String, [], any, err, false, if◌then◌else◌, ltb, none, not, ok,
  or_raise, raise_if, some, suc, true, ◌%◌, ◌&&◌, ◌*◌, ◌++◌, ◌+◌, ◌/◌, ◌==◌, ◌∷◌, nat_eq, string_eq,
  ◌>>=◌, ◌>>◌,
}
use builder_league.Prelude.Int.{leb_ℤ, negsuc, pos, ℤ, ◌+ℤ◌, ◌-ℤ◌}

pub data Kind : Type 0 where
  hold : Kind
  spend : Kind
  refund : Kind

-- What a `LedgerError` is about.
pub data LedgerError : Type 0 where
  not_positive : Kind → ℤ → LedgerError
  unknown_entry : String → LedgerError
  refund_of_refund : LedgerError
  already_refunded : String → LedgerError

pub record LedgerEntry : Type 0 where
  pub id : String
  pub ts : String
  pub kind : Kind
  pub agent_key : String
  pub amount : ℤ
  pub currency : String
  pub reference : String
  pub compensates : Option String

abbrev pub Ledger : Type 0
Ledger = List LedgerEntry

abbrev pub Made : Type 0
Made = Result LedgerError (LedgerEntry × Ledger)

abbrev pub is_refund : Kind → Bool
is_refund refund = true
is_refund _ = false

abbrev pub is_spend : Kind → Bool
is_spend spend = true
is_spend _ = false

abbrev pub is_hold : Kind → Bool
is_hold hold = true
is_hold _ = false

-- `_append`
unfoldable pub append : String → String → Kind → String → ℤ → String → Option String → Ledger → Made
append id ts kind agent_key amount reference compensates l =
    if leb_ℤ amount (pos 0)
    then err (not_positive kind amount)
    else (let entry : LedgerEntry = record {
      id = id;
      ts = ts;
      kind = kind;
      agent_key = agent_key;
      amount = amount;
      currency = "USD";
      reference = reference;
      compensates = compensates;
    } in
        ok (entry, l ++ (entry ∷ [])))

-- `next((e for e in self.entries if e.id == compensates), None)`
unfoldable pub find : String → Ledger → Option LedgerEntry
find i [] = none
find i (e ∷ l) = if e.id == i then some e else find i l

-- `e.kind == "refund" and e.compensates == i`
abbrev pub compensates? : String → LedgerEntry → Bool
compensates? i e = elim e.compensates [ none ↦ false | some j ↦ is_refund e.kind && (j == i) ]

unfoldable pub is_refunded : String → Ledger → Bool
is_refunded i l = any (compensates? i) l

unfoldable pub place_spend : String → String → String → ℤ → String → Ledger → Made
place_spend id ts agent_key amount reference l =
    append id ts spend agent_key amount reference none l

unfoldable pub place_hold : String → String → String → ℤ → String → Ledger → Made
place_hold id ts agent_key amount reference l = append id ts hold agent_key amount reference none l

unfoldable pub place_refund : String → String → String → String → String → Ledger → Made
place_refund id ts target agent_key reference l = do
  e ← or_raise (find target l) (unknown_entry target)
  raise_if (is_refund e.kind) refund_of_refund
  raise_if (is_refunded target l) (already_refunded target)
  append id ts refund agent_key e.amount reference (some target) l

-- the sum over the entries of `l` that `p` picks and no refund of `all` names; an empty identifier
-- is dropped by `_refunded_ids`, and no `uuid4` is empty
abbrev pub counts : (Kind → Bool) → Ledger → LedgerEntry → Bool
counts p whole e = p e.kind && not (is_refunded e.id whole)

abbrev pub sum_counted : (Kind → Bool) → Ledger → Ledger → ℤ
sum_counted p whole [] = pos 0
sum_counted p whole (e ∷ l) =
    let rest = sum_counted p whole l in if counts p whole e then e.amount +ℤ rest else rest

unfoldable pub spent_total : Ledger → ℤ
spent_total l = sum_counted is_spend l l

unfoldable pub active_holds_total : Ledger → ℤ
active_holds_total l = sum_counted is_hold l l

unfoldable pub projected_balance : Ledger → ℤ
projected_balance l = spent_total l +ℤ active_holds_total l

pub record Violation : Type 0 where
  pub spent : ℤ
  pub holds : ℤ
  pub limit : ℤ
  pub excess : ℤ

-- `round(x, 2)` of millionths, ties going to the even one; what is rounded is positive
abbrev pub round_cents : ℤ → ℤ
round_cents (negsuc n) = negsuc n
round_cents (pos n) =
    let q = n / 10000 in
    let twice = 2 * (n % 10000) in
    pos (10000 * (if ltb twice 10000 then q else if ltb 10000 twice then suc q else q + q % 2))

unfoldable pub invariant_violations : Ledger → ℤ → List Violation
invariant_violations l limit =
    let spent = spent_total l in
    let holds = active_holds_total l in
    if leb_ℤ (spent +ℤ holds) limit
    then []
    else record {
      spent = spent;
      holds = holds;
      limit = limit;
      excess = round_cents ((spent +ℤ holds) -ℤ limit);
    }
      ∷ []
