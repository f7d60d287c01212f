-- ===== src/Integrations/Crypto.antt =====
-- Signatures and sealed secrets: backend/crates/modules/integrations/src/crypto.rs, and
-- `hash_token` and `verify_signature` of webhook.rs. What the crates sha2, hmac, hex, base64 and
-- aes_gcm do is a parameter. Bytes are numbers, and a text stands for its bytes.
use customer_service_chat_sy.Base.{
  ℕ, zero, suc, Bool, false, ◌++◌, ◌∷◌, [], Option, none, some, Text, codes, eqb, if◌then◌else◌,
  length, starts_with, not,
}

pub record Primitives : Type 0 where
  pub sha256 : Text → Text
  pub hex_decode : Text → Option Text
  pub base64_decode : Text → Option Text
  -- `Hmac::<Sha256>::new_from_slice(key)`, `update(body)`, `verify_slice(mac)`.
  pub hmac_accepts_key : Text → Bool
  pub hmac_verify : (key body mac : Text) → Bool
  -- `Aes256Gcm::decrypt`, then `String::from_utf8`, of which either may fail.
  pub aes_decrypt : (key nonce ciphertext aad : Text) → Option Text
  -- A `Uuid` as it is written.
  pub uuid_text : ℕ → Text

-- `str::strip_prefix`.
abbrev pub drop : ℕ → Text → Text
drop zero s = s
drop (suc n) [] = []
drop (suc n) (c ∷ s) = drop n s

abbrev pub strip_prefix : Text → Text → Option Text
strip_prefix prefix s = if starts_with s prefix then some (drop (length prefix) s) else none

module _ (p : Primitives) where
  abbrev pub hash_token : Text → Text
  hash_token token = p.sha256 token

  abbrev verify_mac : (secret raw_body : Text) → Option Text → Bool
  verify_mac secret raw_body none = false
  verify_mac secret raw_body (some provided) =
      if p.hmac_accepts_key secret then p.hmac_verify secret raw_body provided else false

  abbrev verify_hex : (secret raw_body : Text) → Option Text → Bool
  verify_hex secret raw_body none = false
  verify_hex secret raw_body (some hex_sig) = verify_mac secret raw_body (p.hex_decode hex_sig)

  unfoldable pub verify_signature : (secret raw_body header : Text) → Bool
  verify_signature secret raw_body header =
      verify_hex secret raw_body (strip_prefix (codes "sha256=") header)

  abbrev key_of : Option Text → Option Text
  key_of none = none
  key_of (some decoded) = if eqb (length decoded) 32 then some decoded else none

  -- `MasterKey::from_base64`.
  abbrev pub from_base64 : Text → Option Text
  from_base64 s = key_of (p.base64_decode s)

  -- `crypto::open`; `decrypt` is not tried with a nonce of another length.
  abbrev pub open_secret : (master scope_aad ciphertext nonce : Text) → Option Text
  open_secret master scope_aad ciphertext nonce =
      if not (eqb (length nonce) 12) then none else p.aes_decrypt master nonce ciphertext scope_aad

  -- `crypto::aad`.
  abbrev pub aad : ℕ → (slug field_key : Text) → Text
  aad tenant_id slug field_key =
      codes "integration|" ++ p.uuid_text tenant_id ++ codes "|" ++ slug ++ codes "|" ++ field_key
