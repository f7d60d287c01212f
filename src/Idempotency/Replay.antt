-- ===== src/Idempotency/Replay.antt =====
-- A key that was answered while no other request with it waited is answered the same for ever.
use customer_service_chat_sy.Base.{
  ℕ, zero, suc, false, Bool, ◌≡◌, refl, sym, ap, inl, inr, List, [], ◌∷◌, Option, none, some, arith,
  Text, text_eq, ◌==◌, lookup, any, lookup-insert_ne, Bool-cases, ==→≡, ◌∙◌,
}
use customer_service_chat_sy.Idempotency.{
  Request, Response, CachedResponse, Waiting, unserved, unstored, State, Event, arrives, goes_on,
  behind, take_out, store_answer, into_replayed_response, known_or_waits, begin_request, proceed,
  go_on, step, serve,
}

abbrev pub is_of : Text → Waiting → Bool
is_of key (unserved k request) = k == key
is_of key (unstored k response) = k == key

-- The key has an answer, and no request with it waits.
pub record Settled {W : Type 0} (key : Text) (c : CachedResponse) (s : State W) : Type 0 where
  pub stored : lookup key s.store ≡ some c
  pub none_waits : any (is_of key) s.waiting ≡ false

data TakenOut (key : Text) : Option (Waiting × List Waiting) → Type 0 where
  missing : TakenOut key none
  taken :
      {w : Waiting} {ws : List Waiting}
      → is_of key w ≡ false
      → any (is_of key) ws ≡ false
      → TakenOut key (some (w, ws))

later-TakenOut :
    (key : Text) (w : Waiting) (r : Option (Waiting × List Waiting))
    → is_of key w ≡ false
    → TakenOut key r
    → TakenOut key (behind w r)
later-TakenOut key w none h missing = missing
later-TakenOut key w (some _) h (taken a b) = taken a (ground arith)

take_out-TakenOut :
    (key : Text) (i : ℕ) (ws : List Waiting)
    → any (is_of key) ws ≡ false
    → TakenOut key (take_out i ws)
take_out-TakenOut key i [] h = missing
take_out-TakenOut key zero (w ∷ ws) h = taken (ground arith) (ground arith)
take_out-TakenOut key (suc i) (w ∷ ws) h =
    later-TakenOut key w (take_out i ws) (ground arith) (take_out-TakenOut key i ws (ground arith))

module _ {W : Type 0} (run : W → Request → W × Response) (key : Text) (c : CachedResponse) where
  known-Settled :
      (s : State W) (request : Request) (k : Text) (found : Option CachedResponse)
      → lookup k s.store ≡ found
      → Settled key c s
      → Settled key c (known_or_waits run s request k found).0
  known-Settled s request k (some d) e h = h
  known-Settled s request k none e h = elim (Bool-cases (k == key)) [
    | inl same ↦
        let here : none ≡ some c = sym (rw (==→≡ k key same) at e) ∙ h.stored in
        absurd (ground (arith, here))
    | inr other ↦ record { stored = h.stored; none_waits = ground (arith, h.none_waits) }
  ]

  begin_request-Settled :
      (s : State W) (request : Request) (given : Option Text)
      → Settled key c s
      → Settled key c (begin_request run s request given).0
  begin_request-Settled s request none h = record { stored = h.stored; none_waits = h.none_waits }
  begin_request-Settled s request (some k) h = known-Settled s request k (lookup k s.store) refl h

  proceed-Settled :
      (s : State W) (w : Waiting) (ws : List Waiting)
      → is_of key w ≡ false
      → any (is_of key) ws ≡ false
      → Settled key c s
      → Settled key c (proceed run s w ws).0
  unfolding store_answer
  proceed-Settled s (unserved k request) ws a b h = record {
    stored = h.stored;
    none_waits = ground arith;
  }
  proceed-Settled s (unstored k response) ws a b h = record {
    stored = lookup-insert_ne k key _ s.store a ∙ h.stored;
    none_waits = b;
  }

  go_on-Settled :
      (s : State W) (r : Option (Waiting × List Waiting))
      → TakenOut key r
      → Settled key c s
      → Settled key c (go_on run s r).0
  go_on-Settled s none missing h = h
  go_on-Settled s (some (w, ws)) (taken a b) h = proceed-Settled s w ws a b h

  step-Settled :
      (s : State W) (event : Event) → Settled key c s → Settled key c (step run s event).0
  unfolding step
  step-Settled s (arrives request) h = begin_request-Settled s request request.key h
  step-Settled s (goes_on i) h =
      go_on-Settled s (take_out i s.waiting) (take_out-TakenOut key i s.waiting h.none_waits) h

  pub serve-Settled :
      (s : State W) (events : List Event) → Settled key c s → Settled key c (serve run s events)
  unfolding serve
  serve-Settled s [] h = h
  serve-Settled s (event ∷ events) h =
      serve-Settled (step run s event).0 events (step-Settled s event h)

  pub replay_known :
      (s : State W) (request : Request)
      → request.key ≡ some key
      → lookup key s.store ≡ some c
      → step run s (arrives request) ≡ (s, some (into_replayed_response c))
  unfolding step
  replay_known s request given at_key = rw given (rw at_key refl)

module _ {W : Type 0} (run : W → Request → W × Response) where
  -- A request whose key has no answer begins to wait.
  pub arrival_waits :
      (s : State W) (request : Request) (key : Text)
      → request.key ≡ some key
      → lookup key s.store ≡ none
      → step run s (arrives request)
        ≡ (record s { waiting = unserved key request ∷ s.waiting }, none)
  unfolding step
  arrival_waits s request key given fresh =
      ap (begin_request run s request) given ∙ ap (known_or_waits run s request key) fresh
