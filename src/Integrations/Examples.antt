-- ===== src/Integrations/Examples.antt =====
-- Webhooks received, and the theorems at concrete inputs.
use customer_service_chat_sy.Base.{
  ◌≡◌, ◌≢◌, refl, true, false, [], ◌∷◌, Option, none, some, Text, codes, text_eq, ◌==◌, ok, lookup,
  if◌then◌else◌, arith,
}
use customer_service_chat_sy.RateLimit.Types.{bucket_key}
use customer_service_chat_sy.RateLimit.Memory
use customer_service_chat_sy.Tools.Json.{Json, null}
use customer_service_chat_sy.Integrations.Crypto.{Primitives, hash_token, verify_signature}
use customer_service_chat_sy.Integrations.Tables.{
  ConnectionByToken, Tables, Faults, find_connection_by_token_hash, find_secret_ciphertext,
}
use customer_service_chat_sy.Integrations.Webhook.{
  AppConfig, Response, accepted, not_found, receive_webhook,
}
use customer_service_chat_sy.Integrations.Webhook.Intake.{Genuine, Recorded}
use customer_service_chat_sy.Integrations.Webhook.Accepted.{receive_webhook-accepted}
use customer_service_chat_sy.Integrations.Webhook.Genuine.{receive_webhook-genuine}

abbrev key_32 : Text
key_32 = codes "0123456789abcdef0123456789abcdef"

abbrev nonce_12 : Text
nonce_12 = codes "0123456789ab"

-- A signature that is the secret itself.
abbrev plain : Primitives
plain = record {
  sha256 = λ token. token;
  hex_decode = λ hex. some hex;
  base64_decode = λ s. some s;
  hmac_accepts_key = λ key. true;
  hmac_verify = λ key body mac. key == mac;
  aes_decrypt = λ key nonce ciphertext aad. some ciphertext;
  uuid_text = λ id. id ∷ [];
}

abbrev parse_json : Text → Option Json
parse_json body = if body == codes "null" then some null else none

abbrev shop : ConnectionByToken
shop = record { connection_id = 3; tenant_id = 1; catalog_slug = codes "shopify"; is_active = true }

abbrev tables : Tables
tables = record {
  connections = (codes "tok", shop) ∷ [];
  secrets =
      (record {
        connection_id = 3;
        field_key = codes "signing_secret";
        ciphertext = codes "s3";
        nonce = nonce_12;
      })
      ∷ [];
  events = [];
  deliveries = [];
}

abbrev no_faults : Faults
no_faults = record {
  connection_query = false;
  secret_query = false;
  log_begin = false;
  log_insert = false;
  log_commit = false;
  begin = false;
  insert_delivery = false;
  insert_event = false;
  commit = false;
}

abbrev app_config : AppConfig
app_config = record { rate_limit_enabled = true; integration_secrets_key = some key_32 }

abbrev received : Text → Memory.Buckets × (Tables × Response)
received header =
    receive_webhook plain parse_json Memory.check app_config [] tables no_faults (λ conn. none)
      (codes "tok") header (codes "null") 0 0

good_accepted : (received (codes "sha256=s3")).1.1 ≡ accepted
unfolding receive_webhook find_connection_by_token_hash find_secret_ciphertext verify_signature
    Memory.check bucket_key lookup
good_accepted = refl

bad_not_found : (received (codes "sha256=s4")).1.1 ≡ not_found
unfolding receive_webhook find_connection_by_token_hash find_secret_ciphertext verify_signature
    Memory.check bucket_key lookup
bad_not_found = refl

bad_not_accepted : (received (codes "sha256=s4")).1.1 ≢ accepted
bad_not_accepted h = absurd (ground (arith, bad_not_found, h))

receive_webhook-accepted_example :
    (conn : ConnectionByToken) × (find_connection_by_token_hash tables no_faults
        (hash_token plain (codes "tok"))
      ≡ ok (some conn))
    × (conn.is_active ≡ true)
    × ((payload : Json) × Genuine plain parse_json app_config tables no_faults
          (codes "sha256=s3")
          (codes "null")
          conn
          payload
        × Recorded tables (received (codes "sha256=s3")).1.0 conn payload)
receive_webhook-accepted_example =
    receive_webhook-accepted plain parse_json Memory.check app_config [] tables no_faults
      (λ conn. none) (codes "sha256=s3") (codes "null") 0 0 (codes "tok") good_accepted

receive_webhook-genuine_example : (received (codes "sha256=s3")).1.1 ≡ accepted
unfolding find_connection_by_token_hash find_secret_ciphertext verify_signature Memory.check
    bucket_key lookup
receive_webhook-genuine_example =
    receive_webhook-genuine plain parse_json app_config tables no_faults (codes "sha256=s3")
      (codes "null") shop null (refl, refl, refl, refl)
      (key_32, refl, (codes "s3", nonce_12, refl, (refl, (codes "s3", refl, refl)))) Memory.check []
      (λ conn. none) (codes "tok") 0 0 refl refl refl
