-- ===== src/Integrations/Webhook/Genuine.antt =====
-- A genuine webhook is accepted.
use customer_service_chat_sy.Base.{
  ℕ, Bool, true, false, ◌≡◌, refl, Option, some, arith, Text, if◌then◌else◌, ok, not,
}
use customer_service_chat_sy.RateLimit.Types.{
  Scope, webhook, Budget, Decision, allowed, refused, degraded,
}
use customer_service_chat_sy.Tools.Json.{Json}
use customer_service_chat_sy.Integrations.Crypto.{Primitives, hash_token}
use customer_service_chat_sy.Integrations.Tables.{
  Tables, ConnectionByToken, Faults, find_connection_by_token_hash,
}
use customer_service_chat_sy.Integrations.Webhook.{
  Response, accepted, AppConfig, record_delivery, with_payload, with_secret, with_sealed,
  with_master, intake, on_decision, for_connection, connection_identifier, or_default,
  receive_webhook,
}
use customer_service_chat_sy.Integrations.Webhook.Intake.{Genuine}

abbrev pub is_refused : Decision → Bool
is_refused (refused retry_after) = true
is_refused _ = false

-- Every call of the delivery's transaction succeeds.
abbrev pub IsUnhindered : Faults → Type 0
IsUnhindered faults =
    (faults.begin ≡ false)
    × (faults.insert_delivery ≡ false)
    × (faults.insert_event ≡ false)
    × (faults.commit ≡ false)

record-IsUnhindered :
    (db : Tables) (faults : Faults) (conn : ConnectionByToken) (payload : Json)
    → IsUnhindered faults
    → (record_delivery db faults conn payload).1 ≡ accepted
record-IsUnhindered db faults conn payload fine = ground arith

module _ (p : Primitives) (parse : Text → Option Json) (config : AppConfig) (db : Tables)
    (faults : Faults) (header body : Text) (conn : ConnectionByToken) (payload : Json)
    (fine : IsUnhindered faults)
    (genuine : Genuine p parse config db faults header body conn payload) where
  intake-Genuine : (intake p parse config db faults conn header body).1 ≡ accepted
  intake-Genuine =
      let (master, loaded, (ciphertext, nonce, stored, (parsed, (secret, opened, verified)))) =
        genuine in
      rw (loaded, with_master)
        (rw (stored, with_sealed)
          (rw (opened, with_secret)
            (rw verified
              (rw (parsed, with_payload) (record-IsUnhindered db faults conn payload fine)))))

  module _ {S : Type 0} (limit : S → Scope → Text → Budget → ℕ → S × Decision) where
    if-accepted :
        (b : Bool) (x y : S × (Tables × Response))
        → (b ≡ true → x.1.1 ≡ accepted)
        → (b ≡ false → y.1.1 ≡ accepted)
        → (if b then x else y).1.1 ≡ accepted
    if-accepted true x y first second = first refl
    if-accepted false x y first second = second refl

    decision-Genuine :
        (store : S) (later : ℕ) (decision : Decision)
        → is_refused decision ≡ false
        → (on_decision p parse limit config store db faults conn header body later decision).1.1
          ≡ accepted
    decision-Genuine store later (refused retry_after) h = absurd (ground arith)
    decision-Genuine store later (allowed r t) h = intake-Genuine
    decision-Genuine store later (degraded d) h = intake-Genuine

    -- A webhook for an active connection that the token names, signed with the connection's
    -- secret and with a body that parses, is accepted when the limiter does not refuse it and the
    -- transaction succeeds.
    pub receive_webhook-genuine :
        (store : S) (tenant_budget : ConnectionByToken → Option Budget) (token : Text)
        (now later : ℕ)
        → find_connection_by_token_hash db faults (hash_token p token) ≡ ok (some conn)
        → conn.is_active ≡ true
        → is_refused
            (limit store webhook
              (connection_identifier p conn.connection_id)
              (or_default (tenant_budget conn))
              now).1
          ≡ false
        → (receive_webhook p parse limit config store db faults tenant_budget token header body now
            later).1.1
          ≡ accepted
    unfolding receive_webhook
    receive_webhook-genuine store tenant_budget token now later found active free =
        rw (found, for_connection)
          (if-accepted (not conn.is_active) _ _ (λ inactive. absurd (ground arith))
            (λ h.
              if-accepted config.rate_limit_enabled _ _ (λ on. decision-Genuine _ later _ free)
                (λ off. intake-Genuine)))
