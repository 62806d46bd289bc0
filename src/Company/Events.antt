-- ===== src/Company/Events.antt =====
-- Company events (core/companycore/domain/events.py). The identifier, which the code draws from
-- `uuid4`, is an argument; days and numbers are natural, so their check always passes.
use builder_league.Prelude.{
  Bool, List, Result, String, [], contains, not, ok, raise_if, ℕ, ◌==◌, ◌∷◌, nat_eq, string_eq,
  ◌>>◌,
}
use builder_league.Prelude.Values.{Fields, dict, end, field, int, str}

abbrev event_kinds : List String
event_kinds =
    "lead_arrived" ∷ "quote_sent" ∷ "deal_won" ∷ "deal_lost" ∷ "invoice_issued"
    ∷ "invoice_collected" ∷ "po_raised" ∷ "po_received" ∷ "bill_received" ∷ "bill_paid"
    ∷ "spend_frozen" ∷ "spend_unfrozen" ∷ "escalation_raised" ∷ "escalation_resolved"
    ∷ "directive_proposed" ∷ "directive_applied" ∷ "directive_rejected" ∷ "role_paused"
    ∷ "role_restored" ∷ "day_ticked" ∷ []

pub data EventError : Type 0 where
  unknown_kind : String → EventError
  empty_actor : EventError

pub record CompanyEvent : Type 0 where
  pub id : String
  pub day : ℕ
  pub seq : ℕ
  pub actor : String
  pub kind : String
  pub payload : Fields

-- `CompanyEvent.as_dict`
unfoldable pub as_dict : CompanyEvent → Fields
as_dict e = field "id" (str e.id) (
    field "day" (int e.day) (
      field "seq" (int e.seq) (
        field "actor" (str e.actor)
          (field "kind" (str e.kind) (field "payload" (dict e.payload) end)))))

-- `kind in EVENT_KINDS`
unfoldable pub is_kind : String → Bool
is_kind kind = contains kind event_kinds

unfoldable pub make_event :
    String → ℕ → ℕ → String → String → Fields → Result EventError CompanyEvent
unfolding is_kind
make_event id day seq actor kind payload = do
  raise_if (not (is_kind kind)) (unknown_kind kind)
  raise_if (actor == "") empty_actor
  ok (record { id = id; day = day; seq = seq; actor = actor; kind = kind; payload = payload })
