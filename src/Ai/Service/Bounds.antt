-- ===== src/Ai/Service/Bounds.antt =====
-- How much a completion may do outside, and when it is not configured.
use customer_service_chat_sy.Base.{
  ℕ, zero, suc, ◌+◌, ◌*◌, ◌≤◌, Bool, true, false, ◌≡◌, refl, List, [], ◌∷◌, ◌++◌, Option, none,
  some, Text, Bool-cases, inl, inr, length, count, count-append, ltb, if◌then◌else◌, Result, ok,
  err, arith,
}
use customer_service_chat_sy.Providers.Contract.{
  ChatRequest, ChatCompletion, ProviderError, ChatProvider,
}
use customer_service_chat_sy.Providers.Registry.{Registry, resolve}
use customer_service_chat_sy.Ai.Service.{
  AiInput, AiCallError, Attempt, Act, called, paused, Attempted, Answered, goes_on, returns,
  request_of, error_of, pause_after, after_call, retry_loop, retries, after_attempt, on_provider,
  attempt_loop, run_attempts,
}

abbrev pub is_call : Act → Bool
is_call (called provider model) = true
is_call (paused base) = false

abbrev pub is_pause : Act → Bool
is_pause (called provider model) = false
is_pause (paused base) = true

-- The index of `RETRY_BASE_MS` is out of range.
abbrev pub is_panic : Act → Bool
is_panic (called provider model) = false
is_panic (paused none) = true
is_panic (paused (some base)) = false

-- No more calls and pauses than that, and no panic.
pub record Within (calls pauses : ℕ) (acts : List Act) : Type 0 where
  pub called_at_most : count is_call acts ≤ calls
  pub paused_at_most : count is_pause acts ≤ pauses
  pub no_panic : count is_panic acts ≡ 0

Within-append :
    {c p c' p' : ℕ} {xs ys : List Act}
    → Within c p xs
    → Within c' p' ys
    → Within (c + c') (p + p') (xs ++ ys)
Within-append {xs} {ys} a b = record {
  called_at_most = omega (arith, count-append is_call xs ys, a.called_at_most, b.called_at_most);
  paused_at_most = omega (arith, count-append is_pause xs ys, a.paused_at_most, b.paused_at_most);
  no_panic = omega (arith, count-append is_panic xs ys, a.no_panic, b.no_panic);
}

weaken : {c p c' p' : ℕ} {xs : List Act} → Within c p xs → c ≤ c' → p ≤ p' → Within c' p' xs
weaken a more more' = record {
  called_at_most = omega (arith, a.called_at_most, more);
  paused_at_most = omega (arith, a.paused_at_most, more');
  no_panic = a.no_panic;
}

nothing-Within : {c p : ℕ} → Within c p []
nothing-Within = record {
  called_at_most = omega arith;
  paused_at_most = omega arith;
  no_panic = refl;
}

abbrev pauses_after : ℕ → ℕ
pauses_after retry = if ltb retry 2 then 1 else 0

abbrev pauses_in : List ℕ → ℕ
pauses_in [] = 0
pauses_in (retry ∷ left) = pauses_after retry + pauses_in left

pause_after-Within : (retry : ℕ) → Within 0 (pauses_after retry) (pause_after retry)
pause_after-Within zero = record {
  called_at_most = omega arith;
  paused_at_most = omega arith;
  no_panic = refl;
}
pause_after-Within (suc zero) = record {
  called_at_most = omega arith;
  paused_at_most = omega arith;
  no_panic = refl;
}
pause_after-Within (suc (suc retry)) =
    let late : ltb (suc (suc retry)) 2 ≡ false = ground arith in rw late nothing-Within

call-Within :
    {c p : ℕ} {xs : List Act} (provider model : Text)
    → Within c p xs
    → Within (suc c) p (called provider model ∷ xs)
call-Within provider model a = record {
  called_at_most = omega (arith, a.called_at_most);
  paused_at_most = omega (arith, a.paused_at_most);
  no_panic = omega (arith, a.no_panic);
}

module _ {World : Type 0} where
  after_call-Within :
      {c p : ℕ} (attempt : Attempt) (retry : ℕ) (x : World × Result ChatCompletion ProviderError)
      (again : World → Option AiCallError → Attempted World)
      → ((w : World) (last : Option AiCallError) → Within c p (again w last).1)
      → Within (suc c) (pauses_after retry + p) (after_call attempt retry x again).1
  after_call-Within attempt retry (w, ok completion) again left =
      call-Within attempt.provider attempt.model nothing-Within
  after_call-Within attempt retry (w, err e) again left = elim (Bool-cases e.retriable) [
    | inl may ↦ rw may (
        weaken
          (call-Within attempt.provider attempt.model
            (Within-append (pause_after-Within retry) (left w (some (error_of attempt e)))))
          (omega arith) (omega arith))
    | inr final ↦ rw final (call-Within attempt.provider attempt.model nothing-Within)
  ]

  retry_loop-Within :
      (provider : ChatProvider World) (attempt : Attempt) (req : ChatRequest) (left : List ℕ)
      (w : World) (last : Option AiCallError)
      → Within (length left) (pauses_in left) (retry_loop provider attempt req left w last).1
  unfolding retry_loop
  retry_loop-Within provider attempt req [] w last = nothing-Within
  retry_loop-Within provider attempt req (retry ∷ left) w last =
      after_call-Within attempt retry (provider.complete w attempt.key req)
        (retry_loop provider attempt req left) (retry_loop-Within provider attempt req left)

  after_attempt-Within :
      {c p c' p' : ℕ} (x : Attempted World) (next : World → Option AiCallError → Answered World)
      → Within c p x.1
      → ((w : World) (last : Option AiCallError) → Within c' p' (next w last).1)
      → Within (c + c') (p + p') (after_attempt x next).1
  after_attempt-Within (w, acts, returns answer) next now later =
      weaken now (omega arith) (omega arith)
  after_attempt-Within (w, acts, goes_on last) next now later = Within-append now (later w last)

  module _ (registry : Registry World) (input : AiInput) (request_id : Option Text) where
    on_provider-Within :
        {c p : ℕ} (attempt : Attempt) (found : Option (ChatProvider World)) (w : World)
        (last : Option AiCallError) (next : World → Option AiCallError → Answered World)
        → ((w' : World) (last' : Option AiCallError) → Within c p (next w' last').1)
        → Within (3 + c) (2 + p) (on_provider input request_id attempt found w last next).1
    on_provider-Within attempt none w last next later =
        weaken (later w last) (omega arith) (omega arith)
    on_provider-Within attempt (some provider) w last next later =
        after_attempt-Within _ next
          (retry_loop-Within provider attempt (request_of input request_id attempt) retries w last)
          later

    attempt_loop-Within :
        (attempts : List Attempt) (w : World) (last : Option AiCallError)
        → Within
            (3 * length attempts)
            (2 * length attempts)
            (attempt_loop registry input request_id attempts w last).1
    unfolding attempt_loop
    attempt_loop-Within [] w last = nothing-Within
    attempt_loop-Within (attempt ∷ attempts) w last =
        weaken
          (on_provider-Within attempt (resolve registry attempt.provider) w last
            (attempt_loop registry input request_id attempts) (attempt_loop-Within attempts))
          (omega arith) (omega arith)

    -- The loops end after at most three calls and two pauses for each attempt, whatever the providers
    -- answer, and the table of pauses is never read beyond its end.
    pub run_attempts-Within :
        (attempts : List Attempt) (w : World)
        → Within
            (3 * length attempts)
            (2 * length attempts)
            (run_attempts registry input request_id attempts w).1
    unfolding run_attempts
    run_attempts-Within attempts w = attempt_loop-Within attempts w none
