-- ===== src/Idempotency.antt =====
-- Requests with an idempotency key: backend/crates/shared/kernel/src/idempotency.rs. The store's
-- mutex is held for one `get` or one `put` only, so a request runs in three steps, between which
-- others may run theirs: it looks its key up, it is served, and its answer is stored. The service
-- behind the middleware is a parameter that passes its state; it is taken to serve a request in one
-- step.
pub mod Replay
pub mod Overlap
mod Examples
use customer_service_chat_sy.Base.{
  ℕ, true, List, [], ◌∷◌, Option, none, some, Text, codes, text_eq, lookup, insert, if◌then◌else◌,
  Result, ok, err, ◌==◌, zero, suc,
}

-- A request with its `Idempotency-Key` header, when that is there and is visible ASCII.
pub record Request : Type 0 where
  pub key : Option Text
  pub path : Text
  pub content : Text

-- `to_bytes` fails on a body that cannot be read to its end.
pub record Response : Type 0 where
  pub status : ℕ
  pub headers : List (Text × Text)
  pub body : Option Text

pub record CachedResponse : Type 0 where
  pub status : ℕ
  pub body : Text

abbrev pub Store : Type 0
Store = List (Text × CachedResponse)

-- `IdempotencyKey::from_request_parts`; 400 is `BAD_REQUEST`.
abbrev pub from_request_parts : Request → Result Text ℕ
from_request_parts request = elim request.key [
  | none ↦ err 400
  | some value ↦ if value == [] then err 400 else ok value
]

abbrev pub get : Store → Text → Option CachedResponse
get store key = lookup key store

abbrev pub put : Store → Text → CachedResponse → Store
put store key response = insert key response store

abbrev pub replay_headers : List (Text × Text)
replay_headers = (codes "idempotency-replayed", codes "true") ∷ []

abbrev pub into_replayed_response : CachedResponse → Response
into_replayed_response c = record {
  status = c.status;
  headers = replay_headers;
  body = some c.body;
}

-- `unwrap_or_default`.
abbrev pub or_empty : Option Text → Text
or_empty none = []
or_empty (some body) = body

abbrev pub cached : Response → CachedResponse
cached response = record { status = response.status; body = or_empty response.body }

abbrev pub with_body : Response → Text → Response
with_body response body = record response { body = some body }

-- Where a request with a key stands when it waits: the service has not served it yet, or its answer
-- is not stored yet.
pub data Waiting : Type 0 where
  unserved : (key : Text) (request : Request) → Waiting
  unstored : (key : Text) (response : Response) → Waiting

-- The store, the state of the service and the requests that wait.
pub record State (W : Type 0) : Type 0 where
  pub store : Store
  pub world : W
  pub waiting : List Waiting

-- The end of `idempotency_middleware`: what it stores and what it answers.
unfoldable pub store_answer : Store → Text → Response → Store × Response
store_answer store key response =
    (put store key (cached response), with_body response (or_empty response.body))

-- A request comes, or the one that waits at a position goes on.
pub data Event : Type 0 where
  arrives : Request → Event
  goes_on : ℕ → Event

abbrev pub behind : Waiting → Option (Waiting × List Waiting) → Option (Waiting × List Waiting)
behind w none = none
behind w (some (v, ws)) = some (v, w ∷ ws)

abbrev pub take_out : ℕ → List Waiting → Option (Waiting × List Waiting)
take_out i [] = none
take_out zero (w ∷ ws) = some (w, ws)
take_out (suc i) (w ∷ ws) = behind w (take_out i ws)

module _ {W : Type 0} (run : W → Request → W × Response) where
  abbrev pub known_or_waits :
      State W → Request → Text → Option CachedResponse → State W × Option Response
  known_or_waits s request key (some c) = (s, some (into_replayed_response c))
  known_or_waits s request key none =
      (record s { waiting = unserved key request ∷ s.waiting }, none)

  -- `idempotency_middleware` up to its call of the service; without a key it has nothing else to do.
  abbrev pub begin_request : State W → Request → Option Text → State W × Option Response
  begin_request s request none =
      (record s { world = (run s.world request).0 }, some (run s.world request).1)
  begin_request s request (some key) = known_or_waits s request key (get s.store key)

  -- The next step of a request that waits, with the others that do.
  abbrev pub proceed : State W → Waiting → List Waiting → State W × Option Response
  proceed s (unserved key request) others = (
    record s {
      world = (run s.world request).0;
      waiting = unstored key (run s.world request).1 ∷ others;
    },
    none,
  )
  proceed s (unstored key response) others = (
    record s { store = (store_answer s.store key response).0; waiting = others },
    some (store_answer s.store key response).1,
  )

  abbrev pub go_on : State W → Option (Waiting × List Waiting) → State W × Option Response
  go_on s none = (s, none)
  go_on s (some (w, others)) = proceed s w others

  -- What happens at an event, and the answer that it gives.
  unfoldable pub step : State W → Event → State W × Option Response
  unfolding store_answer
  step s (arrives request) = begin_request s request request.key
  step s (goes_on i) = go_on s (take_out i s.waiting)

  -- Events one after another.
  unfoldable pub serve : State W → List Event → State W
  unfolding step
  serve s [] = s
  serve s (event ∷ events) = serve (step s event).0 events

  -- A request that nothing interrupts.
  unfoldable pub idempotency_middleware : State W → Request → State W
  unfolding serve
  idempotency_middleware s request = serve s (arrives request ∷ goes_on 0 ∷ goes_on 0 ∷ [])
