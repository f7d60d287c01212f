-- ===== src/Idempotency/Overlap.antt =====
-- Two requests with one key that overlap.
use customer_service_chat_sy.Base.{
  ◌≡◌, refl, ap, ◌∙◌, List, [], ◌∷◌, Option, none, some, Text, text_eq, lookup, lookup-insert_self,
}
use customer_service_chat_sy.Idempotency.{
  Request, Response, State, unserved, Event, arrives, goes_on, store_answer, cached, step, serve,
}
use customer_service_chat_sy.Idempotency.Replay.{arrival_waits}

module _ {W : Type 0} (run : W → Request → W × Response) where
  both_wait :
      (s : State W) (first second : Request) (key : Text) (events : List Event)
      → first.key ≡ some key
      → second.key ≡ some key
      → lookup key s.store ≡ none
      → serve run s (arrives first ∷ arrives second ∷ events)
        ≡ serve run
            (record s { waiting = unserved key second ∷ unserved key first ∷ s.waiting })
            events
  unfolding serve
  both_wait s first second key events first_key second_key fresh =
      ap (λ (r : State W × Option Response). serve run r.0 (arrives second ∷ events))
        (arrival_waits run s first key first_key fresh)
      ∙ ap (λ (r : State W × Option Response). serve run r.0 events)
          (arrival_waits run (record s { waiting = unserved key first ∷ s.waiting }) second key
            second_key fresh)

  served_in_turn :
      (s : State W) (first second : Request) (key : Text)
      → let after_first =
          serve run
            (record s { waiting = unserved key second ∷ unserved key first ∷ s.waiting })
            (goes_on 1 ∷ goes_on 0 ∷ []) in
        let after_second = serve run after_first (goes_on 0 ∷ goes_on 0 ∷ []) in
        (lookup key after_first.store ≡ some (cached (run s.world first).1))
        × (after_second.world ≡ (run (run s.world first).0 second).0)
        × (lookup key after_second.store ≡ some (cached (run (run s.world first).0 second).1))
  unfolding serve step store_answer
  served_in_turn s first second key =
      (lookup-insert_self key _ s.store, refl, lookup-insert_self key _ _)

  -- Two requests with a key that has no answer yet come one after the other; then the first is served,
  -- stored and answered, and then the second. The service is run for both, and the stored answer of
  -- the first is overwritten by that of the second.
  pub overlapping_run_twice :
      (s : State W) (first second : Request) (key : Text)
      → first.key ≡ some key
      → second.key ≡ some key
      → lookup key s.store ≡ none
      → let after_first =
          serve run s (arrives first ∷ arrives second ∷ goes_on 1 ∷ goes_on 0 ∷ []) in
        let after_second = serve run after_first (goes_on 0 ∷ goes_on 0 ∷ []) in
        let served_first = run s.world first in
        let served_second = run served_first.0 second in
        (lookup key after_first.store ≡ some (cached served_first.1))
        × (after_second.world ≡ served_second.0)
        × (lookup key after_second.store ≡ some (cached served_second.1))
  overlapping_run_twice s first second key first_key second_key fresh =
      rw (both_wait s first second key (goes_on 1 ∷ goes_on 0 ∷ []) first_key second_key fresh)
        (served_in_turn s first second key)
