-- ===== src/Integrations/Webhook/Accepted.antt =====
-- A webhook that is accepted was genuine, and is recorded once.
use customer_service_chat_sy.Base.{
  ℕ, Bool, true, false, ◌≡◌, ◌≢◌, refl, Option, none, some, arith, Text, if◌then◌else◌, Result, ok,
  err, not,
}
use customer_service_chat_sy.RateLimit.Types.{Scope, Budget, Decision, allowed, refused, degraded}
use customer_service_chat_sy.Tools.Json.{Json}
use customer_service_chat_sy.Integrations.Model.{RejectionReason, inactive_connection, rate_limited}
use customer_service_chat_sy.Integrations.Crypto.{Primitives, hash_token}
use customer_service_chat_sy.Integrations.Tables.{
  Tables, ConnectionByToken, Faults, SqlError, find_connection_by_token_hash,
}
use customer_service_chat_sy.Integrations.Webhook.{
  Response, accepted, too_many_requests, not_found, AppConfig, intake, refuse, on_decision,
  for_active, for_connection, receive_webhook,
}
use customer_service_chat_sy.Integrations.Webhook.Intake.{
  Recorded, recorded, rejected, Genuine, intake-Either,
}

module _ {S : Type 0} (p : Primitives) (parse : Text → Option Json)
    (limit : S → Scope → Text → Budget → ℕ → S × Decision) (config : AppConfig) (store : S)
    (db : Tables) (faults : Faults) (tenant_budget : ConnectionByToken → Option Budget)
    (header body : Text) (now later : ℕ) where
  -- The same of the whole handler, for the connection that was found.
  data Overall (found : Result (Option ConnectionByToken) SqlError) (out : Tables × Response)
      : Type 0 where
    recorded_for :
        (conn : ConnectionByToken) (payload : Json)
        → found ≡ ok (some conn)
        → conn.is_active ≡ true
        → Genuine p parse config db faults header body conn payload
        → out.1 ≡ accepted
        → Recorded db out.0 conn payload
        → Overall found out
    none_recorded : out.1 ≢ accepted → out.0.deliveries ≡ db.deliveries → Overall found out

  refused-Overall :
      {found : Result (Option ConnectionByToken) SqlError} (s : S) (conn : ConnectionByToken)
      (reason : RejectionReason) (t : ℕ) (response : Response)
      → response ≢ accepted
      → Overall found (refuse p parse limit s db faults conn reason t response).1
  refused-Overall s conn reason t response other = none_recorded other (ground arith)

  intake-Overall :
      (conn : ConnectionByToken)
      → conn.is_active ≡ true
      → Overall (ok (some conn)) (intake p parse config db faults conn header body)
  intake-Overall conn active = elim (intake-Either p parse db faults conn header body config) [
    | recorded payload genuine same gained ↦
        recorded_for conn payload refl active genuine same gained
    | rejected other same ↦ none_recorded other same
  ]

  decision-Overall :
      (s : S) (conn : ConnectionByToken) (decision : Decision)
      → conn.is_active ≡ true
      → Overall
          (ok (some conn))
          (on_decision p parse limit config s db faults conn header body later decision).1
  decision-Overall s conn (refused retry_after) active =
      refused-Overall s conn rate_limited later (too_many_requests retry_after)
        (λ h. absurd (ground arith))
  decision-Overall s conn (allowed r t) active = intake-Overall conn active
  decision-Overall s conn (degraded d) active = intake-Overall conn active

  if_Overall :
      {found : Result (Option ConnectionByToken) SqlError} (b : Bool)
      (x y : S × (Tables × Response))
      → (b ≡ true → Overall found x.1)
      → (b ≡ false → Overall found y.1)
      → Overall found (if b then x else y).1
  if_Overall true x y first second = first refl
  if_Overall false x y first second = second refl

  active-Overall :
      (conn : ConnectionByToken)
      → conn.is_active ≡ true
      → Overall
          (ok (some conn))
          (for_active p parse limit config store db faults conn
            (tenant_budget conn)
            header
            body
            now
            later).1
  active-Overall conn active =
      if_Overall config.rate_limit_enabled _ _ (λ on. decision-Overall _ conn _ active)
        (λ off. intake-Overall conn active)

  connection-Overall :
      (found : Result (Option ConnectionByToken) SqlError)
      → Overall found
          (for_connection p parse limit config store db faults tenant_budget header body now later
            found).1
  connection-Overall (err e) = none_recorded (λ h. absurd (ground arith)) refl
  connection-Overall (ok none) = none_recorded (λ h. absurd (ground arith)) refl
  connection-Overall (ok (some conn)) =
      if_Overall (not conn.is_active) _ _
        (λ inactive.
          refused-Overall store conn inactive_connection now not_found (λ h. absurd (ground arith)))
        (λ active. active-Overall conn (ground arith))

  -- Only a delivery for an active connection that the token names, whose signature verifies with
  -- the connection's stored secret and whose body parses, is accepted, and then exactly that
  -- payload is recorded, once.
  pub receive_webhook-accepted :
      (token : Text)
      → let out =
          (receive_webhook p parse limit config store db faults tenant_budget token header body now
            later).1 in
        out.1 ≡ accepted
        → (conn : ConnectionByToken) × (find_connection_by_token_hash db faults (hash_token p token)
            ≡ ok (some conn))
          × (conn.is_active ≡ true)
          × ((payload : Json) × Genuine p parse config db faults header body conn payload
              × Recorded db out.0 conn payload)
  unfolding receive_webhook
  receive_webhook-accepted token h =
      elim (connection-Overall (find_connection_by_token_hash db faults (hash_token p token))) [
        | recorded_for conn payload found active genuine same gained ↦
            (conn, found, active, (payload, genuine, gained))
        | none_recorded other same ↦ absurd (other h)
      ]

  -- A delivery that is not accepted, for whatever reason, records no delivery.
  pub receive_webhook-rejected :
      (token : Text)
      → let out =
          (receive_webhook p parse limit config store db faults tenant_budget token header body now
            later).1 in
        out.1 ≢ accepted → out.0.deliveries ≡ db.deliveries
  unfolding receive_webhook
  receive_webhook-rejected token h =
      elim (connection-Overall (find_connection_by_token_hash db faults (hash_token p token))) [
        | recorded_for conn payload found active genuine same gained ↦ absurd (h same)
        | none_recorded other same ↦ same
      ]
