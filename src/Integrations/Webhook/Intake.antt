-- ===== src/Integrations/Webhook/Intake.antt =====
-- What follows the limit: either the delivery is genuine and recorded, or nothing is recorded.
use customer_service_chat_sy.Base.{
  true, ◌≡◌, ◌≢◌, refl, sym, ap, inl, inr, ◌||◌, ◌∷◌, [], ◌++◌, Option, none, some, arith, Text,
  Bool-cases, Option-cases, Result, ok, err,
}
use customer_service_chat_sy.Tools.Json.{Json}
use customer_service_chat_sy.Integrations.Model.{
  RejectionReason, invalid_signature, malformed_payload,
}
use customer_service_chat_sy.Integrations.Crypto.{Primitives, verify_signature, open_secret, aad}
use customer_service_chat_sy.Integrations.Tables.{
  Tables, ConnectionByToken, Faults, SqlError, find_secret_ciphertext,
}
use customer_service_chat_sy.Integrations.Webhook.{
  Response, accepted, not_found, unprocessable_entity, AppConfig, signing_secret_field,
  record_delivery, with_payload, with_secret, with_sealed, with_master, load_master_key, intake,
  log_for,
}

-- The tables gained this delivery and no other.
abbrev pub Recorded : Tables → Tables → ConnectionByToken → Json → Type 0
Recorded db db' conn payload =
    db'.deliveries
    ≡ db.deliveries
      ++ (record {
        tenant_id = conn.tenant_id;
        connection_id = conn.connection_id;
        payload = payload;
      })
        ∷ []

-- Either the delivery is accepted and recorded, for a payload that has the property, or it is not
-- accepted and no delivery is recorded.
pub data Either (G : Json → Type 0) (db : Tables) (conn : ConnectionByToken)
    (out : Tables × Response) : Type 0 where
  recorded :
      (payload : Json)
      → G payload
      → out.1 ≡ accepted
      → Recorded db out.0 conn payload
      → Either G db conn out
  rejected : out.1 ≢ accepted → out.0.deliveries ≡ db.deliveries → Either G db conn out

weaken :
    {G H : Json → Type 0} {db : Tables} {conn : ConnectionByToken} {out : Tables × Response}
    → ((payload : Json) → G payload → H payload)
    → Either G db conn out
    → Either H db conn out
weaken f (recorded payload g same gained) = recorded payload (f payload g) same gained
weaken f (rejected other same) = rejected other same

record-Either :
    (db : Tables) (faults : Faults) (conn : ConnectionByToken) (payload : Json)
    → Either (λ j. j ≡ payload) db conn (record_delivery db faults conn payload)
record-Either db faults conn payload =
    elim (Bool-cases
      (faults.begin || faults.insert_delivery || faults.insert_event || faults.commit)) [
        | inl fails ↦ rejected (λ h. absurd (ground arith)) (ground arith)
        | inr fine ↦ recorded payload refl (ground arith) (ground arith)
      ]

logged-Either :
    {G : Json → Type 0} (db : Tables) (faults : Faults) (conn : ConnectionByToken)
    (reason : RejectionReason) (response : Response)
    → response ≢ accepted
    → Either G db conn (log_for db faults conn reason, response)
logged-Either db faults conn reason response other = rejected other (ground arith)

payload-Either :
    (db : Tables) (faults : Faults) (conn : ConnectionByToken) (parsed : Option Json)
    → Either (λ j. parsed ≡ some j) db conn (with_payload db faults conn parsed)
payload-Either db faults conn none =
    logged-Either db faults conn malformed_payload unprocessable_entity (λ h. absurd (ground arith))
payload-Either db faults conn (some payload) =
    weaken (λ j e. ap some (sym e)) (record-Either db faults conn payload)

module _ (p : Primitives) (parse : Text → Option Json) where
  -- The body parses to the payload, and its sender knew the secret.
  abbrev pub SignedWith : (header body : Text) → Option Text → Json → Type 0
  SignedWith header body opened payload =
      (parse body ≡ some payload)
      × ((secret : Text) × (opened ≡ some secret) × (verify_signature p secret body header ≡ true))

  abbrev pub SealedAs :
      ConnectionByToken
      → (header body master : Text) → Result (Option (Text × Text)) SqlError
      → Json
      → Type 0
  SealedAs conn header body master found payload =
      (ciphertext nonce : Text) × (found ≡ ok (some (ciphertext, nonce)))
      × SignedWith header body
          (open_secret p master (aad p conn.tenant_id conn.catalog_slug signing_secret_field)
            ciphertext nonce)
          payload

  -- The master key is configured, the connection's secret is stored and opens under it, and the
  -- signature of the body verifies with the secret.
  abbrev pub Genuine :
      AppConfig → Tables → Faults → (header body : Text) → ConnectionByToken → Json → Type 0
  Genuine config db faults header body conn payload =
      (master : Text) × (load_master_key p parse config ≡ some master)
      × SealedAs conn header body master
          (find_secret_ciphertext db faults conn.connection_id signing_secret_field) payload

  module _ (db : Tables) (faults : Faults) (conn : ConnectionByToken) (header body : Text) where
    secret-Either :
        (opened : Option Text)
        → Either
            (SignedWith header body opened)
            db
            conn
            (with_secret p parse db faults conn header body opened)
    secret-Either none =
        logged-Either db faults conn invalid_signature not_found (λ h. absurd (ground arith))
    secret-Either (some secret) = elim (Bool-cases (verify_signature p secret body header)) [
      | inl good ↦
          rw (good, with_secret)
            (weaken (λ j e. (e, (secret, refl, good))) (payload-Either db faults conn (parse body)))
      | inr bad ↦
          rw (bad, with_secret)
            (logged-Either db faults conn invalid_signature not_found (λ h. absurd (ground arith)))
    ]

    sealed-Either :
        (master : Text) (found : Result (Option (Text × Text)) SqlError)
        → Either
            (SealedAs conn header body master found)
            db
            conn
            (with_sealed p parse db faults conn header body master found)
    sealed-Either master (err e) = rejected (λ h. absurd (ground arith)) refl
    sealed-Either master (ok none) =
        logged-Either db faults conn invalid_signature not_found (λ h. absurd (ground arith))
    sealed-Either master (ok (some (ciphertext, nonce))) =
        weaken (λ j signed. (ciphertext, nonce, refl, signed))
          (secret-Either (
            open_secret p master (aad p conn.tenant_id conn.catalog_slug signing_secret_field)
              ciphertext nonce))

    pub intake-Either :
        (config : AppConfig)
        → Either
            (Genuine config db faults header body conn)
            db
            conn
            (intake p parse config db faults conn header body)
    intake-Either config = elim (Option-cases (load_master_key p parse config)) [
      | inl missing ↦ rw (missing, with_master) (rejected (λ h. absurd (ground arith)) refl)
      | inr (master, loaded) ↦
          rw (loaded, with_master)
            (weaken (λ j s. (master, loaded, s))
              (sealed-Either master
                (find_secret_ciphertext db faults conn.connection_id signing_secret_field)))
    ]
