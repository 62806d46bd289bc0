-- ===== src/Company/Inbox.antt =====
-- The escalation inbox (core/companycore/domain/inbox.py). An identifier that is not given, which the
-- code draws from `uuid4`, is an argument.
pub mod Once
use builder_league.Prelude.{
  Bool, List, Option, Result, String, [], false, filter, none, not, ok, or_raise, raise_if, some,
  true, ℕ, nat_eq, string_eq, ◌>>=◌, ◌>>◌,
}
use builder_league.Prelude.Values.{Fields, Value, end, field, flag, int, null, str}
use builder_league.Prelude.Dict.{Dict}
use builder_league.Prelude.Dict

pub record Escalation : Type 0 where
  pub id : String
  pub day : ℕ
  pub actor : String
  pub summary : String
  pub detail : String
  pub resolved : Bool
  pub resolution : Option String

pub data InboxError : Type 0 where
  unknown_escalation : String → InboxError
  already_resolved : String → InboxError

abbrev pub maybe_text : Option String → Value
maybe_text none = null
maybe_text (some s) = str s

-- `Escalation.as_dict`
unfoldable pub as_dict : Escalation → Fields
as_dict e = field "id" (str e.id) (
    field "day" (int e.day) (
      field "actor" (str e.actor) (
        field "summary" (str e.summary) (
          field "detail" (str e.detail) (
            field "resolved" (flag e.resolved)
              (field "resolution" (maybe_text e.resolution) end))))))

abbrev pub Inbox : Type 0
Inbox = Dict String Escalation

unfoldable pub raise_escalation : String → ℕ → String → String → String → Inbox → Escalation × Inbox
unfolding Dict.insert
raise_escalation id day actor summary detail box =
    let e : Escalation = record {
      id = id;
      day = day;
      actor = actor;
      summary = summary;
      detail = detail;
      resolved = false;
      resolution = none;
    } in
    (e, Dict.insert id e box)

-- `resolve`, which writes to the escalation that the inbox holds
unfoldable pub resolve : String → String → Inbox → Result InboxError (Escalation × Inbox)
unfolding Dict.lookup Dict.insert
resolve id resolution box = do
  e ← or_raise (Dict.lookup id box) (unknown_escalation id)
  raise_if e.resolved (already_resolved id)
  let done = record e { resolved = true; resolution = some resolution }
  ok (done, Dict.insert id done box)

unfoldable pub pending : Inbox → List Escalation
pending box = filter (λ e. not e.resolved) (Dict.values box)

unfoldable pub every : Inbox → List Escalation
every box = Dict.values box

abbrev pub reset : Inbox → Inbox
reset box = []
