-- ===== src/Ai/Resolution.antt =====
-- The configuration and the credentials in force for a scope: backend/crates/modules/ai/src/
-- resolution.rs, with `open` and `aad` of backend/crates/ai-providers/src/crypto.rs. Of the rows
-- the columns are kept that are read here. The cipher is a parameter.
use customer_service_chat_sy.Base.{
  ℕ, Bool, true, false, not, ◌&&◌, List, ◌++◌, Option, none, some, Text, codes, eqb, ◌==◌, text_eq,
  length, find, if◌then◌else◌, Result, ok, err,
}
use customer_service_chat_sy.Tools.Json.{Json}

pub data Scope : Type 0 where
  tenant : (tenant_id : ℕ) → Scope
  platform : Scope

-- An i32, as the two's complement reads it.
pub data Int32 : Type 0 where
  pos : ℕ → Int32
  negsuc : ℕ → Int32

pub record AiConfigRow : Type 0 where
  pub tenant_id : Option ℕ
  pub provider : Text
  pub model : Text
  pub max_output_tokens : Option Int32
  pub temperature : Option ℕ
  pub fallbacks : Json
  pub capture_content : Bool
  pub deleted : Bool

pub record CredentialRow : Type 0 where
  pub tenant_id : Option ℕ
  pub provider : Text
  pub ciphertext : Text
  pub nonce : Text
  pub deleted : Bool

pub record ResolvedConfig : Type 0 where
  pub row : AiConfigRow
  pub scope_is_tenant : Bool
  pub capture_content : Bool

pub record Sealing : Type 0 where
  -- `Aes256Gcm::new_from_slice`, by its error.
  pub init_error : (master : Text) → Option Text
  pub decrypt : (master nonce ciphertext aad : Text) → Option Text
  pub from_utf8 : Text → Option Text
  -- A `Uuid` and a length as they are written.
  pub uuid_text : ℕ → Text
  pub decimal : ℕ → Text

abbrev pub is_of : Option ℕ → Option ℕ → Bool
is_of none none = true
is_of (some a) (some b) = eqb a b
is_of _ _ = false

abbrev pub first_of {ℓ} : {A : Type ℓ} → Option A → Option A → Option A
first_of none second = second
first_of (some a) second = some a

abbrev pub is_config_of : Option ℕ → AiConfigRow → Bool
is_config_of tenant_id row = is_of row.tenant_id tenant_id && not row.deleted

-- `ORDER BY tenant_id NULLS LAST LIMIT 1`: the tenant's own row, or else the platform's.
abbrev pub config_row : List AiConfigRow → Scope → Option AiConfigRow
config_row rows (tenant tenant_id) =
    first_of (find (is_config_of (some tenant_id)) rows) (find (is_config_of none) rows)
config_row rows platform = find (is_config_of none) rows

abbrev pub is_some {ℓ} : {A : Type ℓ} → Option A → Bool
is_some none = false
is_some (some a) = true

abbrev pub resolved : Scope → AiConfigRow → ResolvedConfig
resolved (tenant tenant_id) row = record {
  row = row;
  scope_is_tenant = is_some row.tenant_id;
  capture_content = if is_some row.tenant_id then row.capture_content else false;
}
resolved platform row = record { row = row; scope_is_tenant = false; capture_content = false }

abbrev pub map_resolved : Scope → Option AiConfigRow → Option ResolvedConfig
map_resolved scope none = none
map_resolved scope (some row) = some (resolved scope row)

-- `resolve_config`, with the error of its query, if it fails.
unfoldable pub resolve_config :
    List AiConfigRow → (failure : Option Text) → Scope → Result (Option ResolvedConfig) Text
resolve_config rows (some e) scope = err e
resolve_config rows none scope = ok (map_resolved scope (config_row rows scope))

abbrev pub is_credential_of : Option ℕ → (provider : Text) → CredentialRow → Bool
is_credential_of tenant_id provider row =
    is_of row.tenant_id tenant_id && (row.provider == provider && not row.deleted)

abbrev pub credential_row : List CredentialRow → Scope → (provider : Text) → Option CredentialRow
credential_row rows (tenant tenant_id) provider =
    first_of (find (is_credential_of (some tenant_id) provider) rows)
      (find (is_credential_of none provider) rows)
credential_row rows platform provider = find (is_credential_of none provider) rows

module _ (s : Sealing) where
  abbrev pub aad : Option ℕ → (provider : Text) → Text
  aad (some id) provider = s.uuid_text id ++ codes "|" ++ provider
  aad none provider = codes "platform|" ++ provider

  abbrev decoded : Option Text → Result Text Text
  decoded none = err (codes "decrypted data is not valid UTF-8")
  decoded (some key) = ok key

  abbrev decrypted : Option Text → Result Text Text
  decrypted none = err (codes "decryption failed (tampered ciphertext or wrong key)")
  decrypted (some plaintext) = decoded (s.from_utf8 plaintext)

  abbrev with_cipher : Option Text → (master scope_aad ciphertext nonce : Text) → Result Text Text
  with_cipher (some e) master scope_aad ciphertext nonce = err (codes "AES-256-GCM init: " ++ e)
  with_cipher none master scope_aad ciphertext nonce =
      if not (eqb (length nonce) 12)
      then err (codes "invalid nonce length: expected 12, got " ++ s.decimal (length nonce))
      else decrypted (s.decrypt master nonce ciphertext scope_aad)

  -- `open`.
  abbrev pub open_key : (master scope_aad ciphertext nonce : Text) → Result Text Text
  open_key master scope_aad ciphertext nonce =
      with_cipher (s.init_error master) master scope_aad ciphertext nonce

  abbrev tagged : Bool → Result Text Text → Result (Option (Text × Bool)) Text
  tagged of_tenant (ok key) = ok (some (key, of_tenant))
  tagged of_tenant (err e) = err e

  abbrev opened :
      (master provider : Text) → Option CredentialRow → Result (Option (Text × Bool)) Text
  opened master provider none = ok none
  opened master provider (some row) =
      tagged (is_some row.tenant_id)
        (open_key master (aad row.tenant_id provider) row.ciphertext row.nonce)

  -- `resolve_credential`, with the error of its query, if it fails: the key, and whether it is the
  -- tenant's own.
  unfoldable pub resolve_credential :
      List CredentialRow
      → (failure : Option Text) → (master : Text) → Scope
      → (provider : Text) → Result (Option (Text × Bool)) Text
  resolve_credential rows (some e) master scope provider = err (codes "credential query: " ++ e)
  resolve_credential rows none master scope provider =
      opened master provider (credential_row rows scope provider)
