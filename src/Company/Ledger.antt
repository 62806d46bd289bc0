-- ===== src/Company/Ledger.antt =====
-- The ledger of the company (core/companycore/domain/ledger.py): a fold from events to the state, and the
-- replay up to a day. Amounts are exact, in millionths. The identifiers of leads, invoices and bills, the
-- suppliers and the roles are texts, as the services write them; another value raises here. What raises
-- leaves no state.
pub mod Replay
use builder_league.Prelude.{
  Bool, List, Option, Result, String, [], contains, err, false, filter, if◌then◌else◌, leb, none,
  not, ok, some, true, ℕ, ◌==◌, ◌>>=◌, ◌∷◌, nat_eq, string_eq,
}
use builder_league.Prelude.Int.{pos, ℤ, ◌+ℤ◌, ◌-ℤ◌}
use builder_league.Prelude.Values.{Fields, Value, end, get_or, int, str, to_float, to_int, unread}
use builder_league.Prelude.Dict.{Dict}
use builder_league.Prelude.Dict
use builder_league.Adaptive.Worlds.{ReadError, bad_type, item}
use builder_league.Company.Events.{CompanyEvent}

pub record Bill : Type 0 where
  pub bill_id : String
  pub amount : Value
  pub due_day : Value
  pub supplier : Value

pub data Owed : Type 0 where
  ordered : Bill → Owed
  received : Fields → Owed

-- what the pipeline has of a lead: its payload, and the amount quoted
pub record Lead : Type 0 where
  pub known : Fields
  pub quoted : Option Value

pub record CompanyState : Type 0 where
  pub cash : ℤ
  pub inventory : ℤ
  pub pipeline : Dict String Lead
  pub ar : Dict String Fields
  pub ap : Dict String Owed
  pub spend_frozen : Bool
  pub roles_paused : List String

abbrev pub nothing_yet : CompanyState
nothing_yet = record {
  cash = pos 0;
  inventory = pos 0;
  pipeline = [];
  ar = [];
  ap = [];
  spend_frozen = false;
  roles_paused = [];
}

abbrev pub text : Value → Result ReadError String
text (str s) = ok s
text _ = err bad_type

-- `p[k]`, of a text
unfoldable pub text_at : String → Fields → Result ReadError String
unfolding item
text_at k p = item k p >>= text

abbrev pub known_number : Option ℤ → Result ReadError ℤ
known_number none = err bad_type
known_number (some n) = ok n

-- `float(p["amount"])`
unfoldable pub amount_of : Fields → Result ReadError ℤ
unfolding item to_float
amount_of p = item "amount" p >>= λ v. known_number (to_float unread v)

-- `int(p.get("units", 0))`
unfoldable pub units_of : Fields → Result ReadError ℤ
unfolding get_or to_int
units_of p = known_number (to_int (get_or "units" (int 0) p))

-- `s.pipeline.setdefault(lead, {})["quoted"] = amount`
abbrev pub quote : Value → Lead → Lead
quote v l = record l { quoted = some v }

abbrev pub quote_lead : String → Value → Dict String Lead → Dict String Lead
unfolding Dict.insert Dict.lookup
quote_lead lead v m =
    Dict.insert lead (quote v (Dict.get_or lead (record { known = end; quoted = none }) m)) m

abbrev pub bill_of : String → Value → Fields → Bill
unfolding get_or
bill_of id cost p = record {
  bill_id = id;
  amount = cost;
  due_day = get_or "due_day" (int 0) p;
  supplier = get_or "supplier" (str "") p;
}

unfoldable pub pause_role : String → List String → List String
pause_role r rs = if contains r rs then rs else r ∷ rs

-- the branches of `fold_state` for what the company sells
abbrev pub fold_sale : CompanyEvent → CompanyState → Result ReadError CompanyState
unfolding item text_at quote_lead units_of amount_of Dict.insert Dict.erase
fold_sale e s =
    let p = e.payload in
    if e.kind == "lead_arrived"
    then (text_at "lead_id" p >>= λ i.
        ok (record s { pipeline = Dict.insert i (record { known = p; quoted = none }) s.pipeline }))
    else if e.kind == "quote_sent"
    then (item "amount" p >>= λ v.
        text_at "lead_id" p >>= λ i. ok (record s { pipeline = quote_lead i v s.pipeline }))
    else if e.kind == "deal_won"
    then (text_at "lead_id" p >>= λ i. units_of p >>= λ n.
        ok (record s { pipeline = Dict.erase i s.pipeline; inventory = s.inventory -ℤ n }))
    else if e.kind == "deal_lost"
    then (text_at "lead_id" p >>= λ i. ok (record s { pipeline = Dict.erase i s.pipeline }))
    else if e.kind == "invoice_issued"
    then (text_at "invoice_id" p >>= λ i. ok (record s { ar = Dict.insert i p s.ar }))
    else if e.kind == "invoice_collected"
    then (amount_of p >>= λ n. text_at "invoice_id" p >>= λ i.
        ok (record s { cash = s.cash +ℤ n; ar = Dict.erase i s.ar }))
    else ok s

-- the branches for what it buys and how it is run
abbrev pub fold_spend : CompanyEvent → CompanyState → Result ReadError CompanyState
unfolding item text_at units_of amount_of bill_of pause_role Dict.insert Dict.erase
fold_spend e s =
    let p = e.payload in
    if e.kind == "po_received"
    then (units_of p >>= λ n. text_at "bill_id" p >>= λ i. item "cost" p >>= λ v. ok (record s {
      inventory = s.inventory +ℤ n;
      ap = Dict.insert i (ordered (bill_of i v p)) s.ap;
    }))
    else if e.kind == "bill_received"
    then (text_at "bill_id" p >>= λ i. ok (record s { ap = Dict.insert i (received p) s.ap }))
    else if e.kind == "bill_paid"
    then (amount_of p >>= λ n.
        text_at "bill_id" p >>= λ i. ok (record s { cash = s.cash -ℤ n; ap = Dict.erase i s.ap }))
    else if e.kind == "spend_frozen"
    then ok (record s { spend_frozen = true })
    else if e.kind == "spend_unfrozen"
    then ok (record s { spend_frozen = false })
    else if e.kind == "role_paused"
    then (text_at "role" p >>= λ r. ok (record s { roles_paused = pause_role r s.roles_paused }))
    else if e.kind == "role_restored"
    then (text_at "role" p >>= λ r.
        ok (record s { roles_paused = filter (λ x. not (x == r)) s.roles_paused }))
    else ok s

abbrev pub sale_kinds : List String
sale_kinds =
    "lead_arrived" ∷ "quote_sent" ∷ "deal_won" ∷ "deal_lost" ∷ "invoice_issued"
    ∷ "invoice_collected" ∷ []

-- the body of the loop
unfoldable pub fold_one : CompanyEvent → CompanyState → Result ReadError CompanyState
unfolding fold_sale fold_spend
fold_one e s = if contains e.kind sale_kinds then fold_sale e s else fold_spend e s

unfoldable pub fold_all : List CompanyEvent → CompanyState → Result ReadError CompanyState
fold_all [] s = ok s
fold_all (e ∷ es) s = fold_one e s >>= fold_all es

-- `sorted(events, key=lambda x: x.seq)`, which is stable
unfoldable pub place : CompanyEvent → List CompanyEvent → List CompanyEvent
place e [] = e ∷ []
place e (x ∷ xs) = if leb e.seq x.seq then e ∷ x ∷ xs else x ∷ place e xs

unfoldable pub by_seq : List CompanyEvent → List CompanyEvent
unfolding place
by_seq [] = []
by_seq (e ∷ es) = place e (by_seq es)

unfoldable pub fold_state : List CompanyEvent → Result ReadError CompanyState
unfolding fold_all by_seq
fold_state events = fold_all (by_seq events) nothing_yet

unfoldable pub replay_day : List CompanyEvent → ℕ → Result ReadError CompanyState
unfolding fold_state
replay_day events day = fold_state (filter (λ e. leb e.day day) events)
