-- ===== src/Integrations/Tables.antt =====
-- The rows that a webhook reads and writes: backend/crates/modules/integrations/src/queries.rs.
use customer_service_chat_sy.Base.{
  ℕ, Bool, ◌&&◌, List, [], ◌∷◌, ◌++◌, Option, none, some, Text, text_eq, ◌==◌, eqb, find, Result,
  ok, err, if◌then◌else◌,
}
use customer_service_chat_sy.Tools.Json.{Json}

pub record ConnectionByToken : Type 0 where
  pub connection_id : ℕ
  pub tenant_id : ℕ
  pub catalog_slug : Text
  pub is_active : Bool

pub record Secret : Type 0 where
  pub connection_id : ℕ
  pub field_key : Text
  pub ciphertext : Text
  pub nonce : Text

-- A row of `integration_events`; the actor is the tenant's member, here always none.
pub record Event : Type 0 where
  pub tenant_id : ℕ
  pub connection_id : ℕ
  pub event_type : Text
  pub outcome : Text
  pub reason : Option Text

-- A row of `integration_webhook_deliveries`.
pub record Delivery : Type 0 where
  pub tenant_id : ℕ
  pub connection_id : ℕ
  pub payload : Json

pub record Tables : Type 0 where
  -- Connections joined to the catalog, by the hash of their token.
  pub connections : List (Text × ConnectionByToken)
  pub secrets : List Secret
  pub events : List Event
  pub deliveries : List Delivery

-- Which calls of the database fail.
pub record Faults : Type 0 where
  pub connection_query : Bool
  pub secret_query : Bool
  pub log_begin : Bool
  pub log_insert : Bool
  pub log_commit : Bool
  pub begin : Bool
  pub insert_delivery : Bool
  pub insert_event : Bool
  pub commit : Bool

pub data SqlError : Type 0 where
  sql_error : SqlError

abbrev pub row_of : Option (Text × ConnectionByToken) → Option ConnectionByToken
row_of none = none
row_of (some (hash, c)) = some c

unfoldable pub find_connection_by_token_hash :
    Tables → Faults → Text → Result (Option ConnectionByToken) SqlError
find_connection_by_token_hash db faults hash =
    if faults.connection_query
    then err sql_error
    else ok (row_of (find (λ (row : Text × ConnectionByToken). row.0 == hash) db.connections))

abbrev pub sealed : Option Secret → Option (Text × Text)
sealed none = none
sealed (some s) = some (s.ciphertext, s.nonce)

unfoldable pub find_secret_ciphertext :
    Tables → Faults → ℕ → Text → Result (Option (Text × Text)) SqlError
find_secret_ciphertext db faults connection_id field_key =
    if faults.secret_query
    then err sql_error
    else ok (
        sealed (
          find (λ (s : Secret). eqb s.connection_id connection_id && s.field_key == field_key)
            db.secrets))

abbrev pub insert_event : Tables → Event → Tables
insert_event db event = record db { events = db.events ++ event ∷ [] }

abbrev pub insert_delivery : Tables → Delivery → Tables
insert_delivery db delivery = record db { deliveries = db.deliveries ++ delivery ∷ [] }
