-- ===== src/Integrations/Webhook.antt =====
-- `receive_webhook` of backend/crates/modules/integrations/src/webhook.rs, from its last branch to
-- its first. The rate limiter and the tenants' budgets are arguments, as they are trait objects
-- there; each check of the limiter has its own time.
pub mod Intake
pub mod Accepted
pub mod Genuine
use customer_service_chat_sy.Base.{
  ℕ, Bool, ◌++◌, Option, none, some, Text, codes, if◌then◌else◌, Result, ok, err, not,
}
use customer_service_chat_sy.RateLimit.Types.{
  Scope, webhook, Budget, Decision, allowed, refused, degraded, is_allowed, from_secs,
}
use customer_service_chat_sy.Tools.Json.{Json}
use customer_service_chat_sy.Integrations.Model.{
  RejectionReason, invalid_signature, inactive_connection, rate_limited, malformed_payload,
  reason_text, event_delivery_accepted, event_delivery_rejected,
}
use customer_service_chat_sy.Integrations.Crypto.{
  Primitives, hash_token, verify_signature, from_base64, open_secret, aad,
}
use customer_service_chat_sy.Integrations.Tables.{
  Tables, ConnectionByToken, Faults, SqlError, find_connection_by_token_hash,
  find_secret_ciphertext, insert_event, insert_delivery,
}

pub data Response : Type 0 where
  accepted not_found unprocessable_entity internal_error : Response
  too_many_requests : (retry_after : ℕ) → Response

abbrev pub signing_secret_field : Text
signing_secret_field = codes "signing_secret"

abbrev pub rejection_event_budget : Budget
rejection_event_budget = record { max_requests = 1; window = from_secs 60 }

abbrev pub rate_limit_default : Budget
rate_limit_default = record { max_requests = 60; window = from_secs 60 }

pub record AppConfig : Type 0 where
  pub rate_limit_enabled : Bool
  pub integration_secrets_key : Option Text

-- `log_rejection_event`: when the database fails, the event is lost and the answer is the same.
abbrev pub log_rejection_event :
    Tables → Faults → (tenant_id connection_id : ℕ) → RejectionReason → Tables
log_rejection_event db faults tenant_id connection_id reason =
    if faults.log_begin
    then db
    else if faults.log_insert
    then db
    else if faults.log_commit
    then db
    else insert_event db (record {
      tenant_id = tenant_id;
      connection_id = connection_id;
      event_type = event_delivery_rejected;
      outcome = codes "failure";
      reason = some (reason_text reason);
    })

abbrev pub log_for : Tables → Faults → ConnectionByToken → RejectionReason → Tables
log_for db faults conn reason =
    log_rejection_event db faults conn.tenant_id conn.connection_id reason

-- The transaction that records a delivery and its event, or neither.
abbrev pub record_delivery : Tables → Faults → ConnectionByToken → Json → Tables × Response
record_delivery db faults conn payload =
    if faults.begin
    then (db, internal_error)
    else if faults.insert_delivery
    then (db, internal_error)
    else if faults.insert_event
    then (db, internal_error)
    else if faults.commit
    then (db, internal_error)
    else (
      insert_event
          (insert_delivery db (record {
            tenant_id = conn.tenant_id;
            connection_id = conn.connection_id;
            payload = payload;
          }))
          (record {
            tenant_id = conn.tenant_id;
            connection_id = conn.connection_id;
            event_type = event_delivery_accepted;
            outcome = codes "success";
            reason = none;
          }),
      accepted,
    )

abbrev pub with_payload : Tables → Faults → ConnectionByToken → Option Json → Tables × Response
with_payload db faults conn none = (log_for db faults conn malformed_payload, unprocessable_entity)
with_payload db faults conn (some payload) = record_delivery db faults conn payload

module _ (p : Primitives) (parse : Text → Option Json) where
  abbrev pub with_secret :
      Tables
      → Faults
      → ConnectionByToken
      → (signature_header body : Text) → Option Text
      → Tables × Response
  with_secret db faults conn signature_header body none =
      (log_for db faults conn invalid_signature, not_found)
  with_secret db faults conn signature_header body (some secret) =
      if not (verify_signature p secret body signature_header)
      then (log_for db faults conn invalid_signature, not_found)
      else with_payload db faults conn (parse body)

  abbrev pub with_sealed :
      Tables
      → Faults
      → ConnectionByToken
      → (signature_header body master : Text) → Result (Option (Text × Text)) SqlError
      → Tables × Response
  with_sealed db faults conn signature_header body master (err e) = (db, internal_error)
  with_sealed db faults conn signature_header body master (ok none) =
      (log_for db faults conn invalid_signature, not_found)
  with_sealed db faults conn signature_header body master (ok (some (ciphertext, nonce))) =
      with_secret db faults conn signature_header body (
        open_secret p master (aad p conn.tenant_id conn.catalog_slug signing_secret_field)
          ciphertext nonce)

  abbrev pub with_master :
      Tables
      → Faults
      → ConnectionByToken
      → (signature_header body : Text) → Option Text
      → Tables × Response
  with_master db faults conn signature_header body none = (db, internal_error)
  with_master db faults conn signature_header body (some master) =
      with_sealed db faults conn signature_header body master
        (find_secret_ciphertext db faults conn.connection_id signing_secret_field)

  abbrev key_from : Option Text → Option Text
  key_from none = none
  key_from (some raw) = from_base64 p raw

  abbrev pub load_master_key : AppConfig → Option Text
  load_master_key config = key_from config.integration_secrets_key

  -- What follows the limit.
  abbrev pub intake :
      AppConfig
      → Tables
      → Faults
      → ConnectionByToken
      → (signature_header body : Text) → Tables × Response
  intake config db faults conn signature_header body =
      with_master db faults conn signature_header body (load_master_key config)

-- The identifier that the limiter counts rejection events of a connection by.
abbrev pub event_identifier : Primitives → ℕ → RejectionReason → Text
event_identifier p connection_id reason =
    codes "integration_evt:" ++ p.uuid_text connection_id ++ codes ":" ++ reason_text reason

abbrev pub connection_identifier : Primitives → ℕ → Text
connection_identifier p connection_id = codes "integration_conn:" ++ p.uuid_text connection_id

abbrev pub or_default : Option Budget → Budget
or_default none = rate_limit_default
or_default (some budget) = budget

module _ {S : Type 0} (p : Primitives) (parse : Text → Option Json)
    (limit : S → Scope → Text → Budget → ℕ → S × Decision) where
  -- An event of this reason, when the limiter allows one more.
  abbrev pub log_throttled :
      S → Tables → Faults → ConnectionByToken → RejectionReason → (now : ℕ) → S × Tables
  log_throttled store db faults conn reason now =
      let (store', decision) =
        limit store webhook (event_identifier p conn.connection_id reason) rejection_event_budget
          now in
      (store', if is_allowed decision then log_for db faults conn reason else db)

  abbrev pub refuse :
      S
      → Tables
      → Faults
      → ConnectionByToken
      → RejectionReason
      → (now : ℕ) → Response
      → S × (Tables × Response)
  refuse store db faults conn reason now response =
      let (store', db') = log_throttled store db faults conn reason now in (store', (db', response))

  -- The answer of the limiter; only `Refused` stops the delivery.
  abbrev pub on_decision :
      AppConfig
      → S
      → Tables
      → Faults
      → ConnectionByToken
      → (signature_header body : Text) → (later : ℕ) → Decision
      → S × (Tables × Response)
  on_decision config store db faults conn signature_header body later (refused retry_after) =
      refuse store db faults conn rate_limited later (too_many_requests retry_after)
  on_decision config store db faults conn signature_header body later (allowed r t) =
      (store, intake p parse config db faults conn signature_header body)
  on_decision config store db faults conn signature_header body later (degraded d) =
      (store, intake p parse config db faults conn signature_header body)

  abbrev pub for_active :
      AppConfig
      → S
      → Tables
      → Faults
      → ConnectionByToken
      → Option Budget
      → (signature_header body : Text) → (now later : ℕ) → S × (Tables × Response)
  for_active config store db faults conn tenant_budget signature_header body now later =
      if config.rate_limit_enabled
      then (let (store', decision) =
            limit store webhook (connection_identifier p conn.connection_id)
              (or_default tenant_budget) now in
          on_decision config store' db faults conn signature_header body later decision)
      else (store, intake p parse config db faults conn signature_header body)

  abbrev pub for_connection :
      AppConfig
      → S
      → Tables
      → Faults
      → (ConnectionByToken → Option Budget)
      → (signature_header body : Text) → (now later : ℕ)
      → Result (Option ConnectionByToken) SqlError
      → S × (Tables × Response)
  for_connection config store db faults tenant_budget signature_header body now later (err e) =
      (store, (db, internal_error))
  for_connection config store db faults tenant_budget signature_header body now later (ok none) =
      (store, (db, not_found))
  for_connection config store db faults tenant_budget signature_header body now later
        (ok (some conn)) =
      if not conn.is_active
      then refuse store db faults conn inactive_connection now not_found
      else for_active config store db faults conn (tenant_budget conn) signature_header body now
          later

  -- The header is empty when it is missing or no text.
  unfoldable pub receive_webhook :
      AppConfig
      → S
      → Tables
      → Faults
      → (ConnectionByToken → Option Budget)
      → (token signature_header body : Text) → (now later : ℕ) → S × (Tables × Response)
  receive_webhook config store db faults tenant_budget token signature_header body now later =
      for_connection config store db faults tenant_budget signature_header body now later
        (find_connection_by_token_hash db faults (hash_token p token))
