-- ===== src/Tools/Examples.antt =====
-- The theorems on tools at concrete inputs.
use mathlib.Core.List.{Memᴰ}
use customer_service_chat_sy.Base.{
  ℕ, ◌<◌, ◌≤◌, ◌≡◌, ◌≢◌, refl, ◌↔◌, ◌⊎◌, Bool, true, false, List, [], ◌∷◌, Option, none, some,
  arith, Text, codes, text_eq, ◌==◌, if◌then◌else◌, ok, err, find, count,
}
use customer_service_chat_sy.Tools.Model.{awaiting_approval, denied}
use customer_service_chat_sy.Tools.Address.{
  IpAddr, v4, is_restricted, ipv4, ipv6, domain, Url, url_parse_and_validate, private_address,
}
use customer_service_chat_sy.Tools.Address.Endpoints.{
  ReachesOnlyPublic, url_parse_and_validate_iff, mapped, mapped_accepted,
}
use customer_service_chat_sy.Tools.Json.{Json, Entries, null, string, number, object, end, entry}
use customer_service_chat_sy.Tools.Validation.{ResolvedTool, validate}
use customer_service_chat_sy.Tools.Validation.Accepted.{Accepts, validate_iff}
use customer_service_chat_sy.Tools.Validation.Integers.{validate-integer}
use customer_service_chat_sy.Tools.Policy.{
  ToolPolicy, TenantTool, update_customer_contact, as_builtin, resolve_available, builtin_settings,
}
use customer_service_chat_sy.Tools.Policy.Available.{FromSetting, FromTenant, resolve_available_iff}
use customer_service_chat_sy.Tools.Approval.{
  ToolRequest, OutboxEvent, Db, is_row, decide, sweep_select, sweep_apply, sweep_expired,
  set_decision, already_settled, transaction_failed,
}
use customer_service_chat_sy.Tools.Approval.Settled.{here, next, settled_stays}
use customer_service_chat_sy.Tools.Approval.Settled as Settled
use customer_service_chat_sy.Tools.Approval.Events.{decides, sweeps, nothing, after, one_decision}
use customer_service_chat_sy.Tools.Approval.Races.{swept_twice, is_decision_on, is_outcome_on}
use customer_service_chat_sy.Tools.Approval.Lost.{lost_decision}

abbrev api : Text
api = codes "https://api.example.com/v1"

abbrev parse : Text → Option Url
parse s =
    if s == api
    then some (record { scheme = codes "https"; host = some (domain (codes "api.example.com")) })
    else if s == codes "https://127.0.0.1/"
    then some (record { scheme = codes "https"; host = some (ipv4 127 0 0 1) })
    else if s == codes "https://[::ffff:127.0.0.1]/"
    then some (record { scheme = codes "https"; host = some (ipv6 (mapped 127 0 0 1)) })
    else none

abbrev lookup_host : Text → Option (List IpAddr)
lookup_host host = some (v4 93 184 216 34 ∷ [])

url_parse_and_validate_iff_example : (url_parse_and_validate parse lookup_host api ≡ ok api) ↔ (
    (api ≡ api)
    × ((url : Url) × (parse api ≡ some url)
        × (url.scheme ≡ codes "https")
        × ReachesOnlyPublic lookup_host url.host))
url_parse_and_validate_iff_example = url_parse_and_validate_iff parse lookup_host api api

mapped_accepted_example :
    (url_parse_and_validate parse lookup_host (codes "https://127.0.0.1/") ≡ err private_address)
    × (url_parse_and_validate parse lookup_host (codes "https://[::ffff:127.0.0.1]/")
        ≡ ok (codes "https://[::ffff:127.0.0.1]/"))
unfolding is_restricted
mapped_accepted_example =
    mapped_accepted parse lookup_host 127 0 0 1 (codes "https://127.0.0.1/")
      (codes "https://[::ffff:127.0.0.1]/") refl refl refl

abbrev contact_tool : ResolvedTool
contact_tool = as_builtin update_customer_contact.spec true

abbrev same_text : Json → Json → Bool
same_text (string s) (string t) = s == t
same_text v w = false

abbrev arguments : Json
arguments = object (
    entry (codes "field") (string (codes "email"))
      (entry (codes "value") (string (codes "a@b.c")) end))

validate_iff_example :
    (validate same_text (contact_tool ∷ []) (codes "update_customer_contact") arguments
      ≡ ok contact_tool)
    ↔ ((find
            (λ (t : ResolvedTool). t.spec.name == codes "update_customer_contact")
            (contact_tool ∷ [])
          ≡ some contact_tool)
        × Accepts same_text contact_tool.spec.input_schema arguments)
validate_iff_example =
    validate_iff same_text (contact_tool ∷ []) (codes "update_customer_contact") arguments
      contact_tool

contact_accepted :
    validate same_text (contact_tool ∷ []) (codes "update_customer_contact") arguments
    ≡ ok contact_tool
unfolding validate
contact_accepted = refl

abbrev policies : List ToolPolicy
policies =
    (record {
      tool_name = codes "update_customer_contact";
      enabled = true;
      require_approval = false;
    })
    ∷ []

abbrev rows : List TenantTool
rows =
    (record {
      id = 7;
      spec = record {
        name = codes "refund";
        description = codes "Refund an order";
        input_schema = null;
      };
      classification = codes "auto";
      enabled = true;
    })
    ∷ []

resolve_available_iff_example :
    Memᴰ contact_tool (resolve_available policies rows)
    ↔ (FromSetting (builtin_settings policies) contact_tool ⊎ FromTenant rows contact_tool)
resolve_available_iff_example = resolve_available_iff policies rows contact_tool

abbrev waiting : ToolRequest
waiting = record {
  id = 4;
  tenant_id = 1;
  conversation_id = 9;
  status = awaiting_approval;
  expires_at = some 50;
  decided_by = none;
  decided_at = none;
}

abbrev refused_row : ToolRequest
refused_row = record waiting { status = denied }

abbrev one_request : Db
one_request = record { requests = waiting ∷ []; outbox = [] }

abbrev one_refused : Db
one_refused = record { requests = refused_row ∷ []; outbox = [] }

settled_stays_example :
    find (is_row 1 4) (sweep_apply one_refused (waiting ∷ []) 60).0.requests ≡ some refused_row
settled_stays_example =
    settled_stays 1 4 refused_row refl (next here (Settled.sweeps (waiting ∷ []) 60)) refl

-- The requests after a decision whose transaction failed, and after a later sweep.
abbrev lost_db : Db
lost_db = (decide one_request 1 4 2 true 40 false).0

abbrev swept_db : Db
swept_db = (sweep_expired lost_db 60 61).0

lost_decision_example :
    ((decide one_request 1 4 2 true 40 false).1 ≡ err transaction_failed)
    × (lost_db.outbox ≡ [])
    × (count (is_decision_on 1 4) swept_db.outbox ≤ count (is_decision_on 1 4) [])
    × (decide swept_db 1 4 3 false 65 true
        ≡ (swept_db, ok (already_settled (set_decision true 2 40 waiting))))
lost_decision_example =
    lost_decision one_request 1 4 2 true 40 waiting refl refl {db' = swept_db}
      (after nothing (sweeps 60 61)) 3 false 65 true

swept_twice_example :
    let overdue = sweep_select one_request 60 in
    let decided_db = (decide one_request 1 4 2 true 60 true).0 in
    let swept = (sweep_apply decided_db overdue 61).0 in
    let sent : Text → List OutboxEvent → ℕ = λ outcome. count (is_outcome_on 1 4 outcome) in
    (find (is_row 1 4) swept.requests ≡ some (set_decision true 2 60 waiting))
    × (sent (codes "approved") [] < sent (codes "approved") swept.outbox)
    × (sent (codes "expired") [] < sent (codes "expired") swept.outbox)
swept_twice_example = swept_twice one_request 1 4 2 true 60 waiting refl refl 61 (ground arith)

abbrev quantity : Entries
quantity =
    entry (codes "quantity") (object (entry (codes "type") (string (codes "integer")) end)) end

abbrev order_schema : Entries
order_schema = entry (codes "properties") (object quantity) end

abbrev order_tool : ResolvedTool
order_tool =
    as_builtin
      (record {
        name = codes "order";
        description = codes "Order items";
        input_schema = object order_schema;
      })
      true

validate-integer_example :
    validate same_text
      (order_tool ∷ [])
      (codes "order")
      (object (entry (codes "quantity") (number 2) end))
    ≢ ok order_tool
validate-integer_example =
    validate-integer same_text (order_tool ∷ []) (codes "order")
      (object (entry (codes "quantity") (number 2) end)) order_tool order_schema quantity
      (codes "quantity") (object (entry (codes "type") (string (codes "integer")) end)) (number 2)
      refl refl refl refl (Memᴰ.head refl)

one_decision_example :
    let decided_db = (decide one_request 1 4 2 true 40 true).0 in
    count (is_decision_on 1 4) (sweep_expired decided_db 60 61).0.outbox ≤ 1
one_decision_example =
    one_decision 1 4 (after (after nothing (decides 1 4 2 true 40 true)) (sweeps 60 61)) refl
      (omega arith)
