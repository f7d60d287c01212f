-- ===== src/Ai/Service/Failover.antt =====
-- What `run_attempts_traced` promises, apart from its loops and its retry counter.
use customer_service_chat_sy.Base.{
  ℕ, suc, ◌+◌, ◌<◌, true, false, ◌≡◌, refl, inl, inr, List, [], ◌∷◌, Option, none, some, Text,
  Bool-cases, length, Result, ok, err, arith,
}
use customer_service_chat_sy.Providers.Contract.{
  ChatRequest, ChatCompletion, ProviderError, ChatProvider,
}
use customer_service_chat_sy.Providers.Registry.{Registry, resolve}
use customer_service_chat_sy.Ai.Service.{
  AiInput, AiCallResult, AiCallError, not_configured, Attempt, Attempted, Answered, Flow, goes_on,
  returns, request_of, result_of, error_of, unwrap_or, after_call, retry_loop, after_attempt,
  on_provider, retries, attempt_loop, run_attempts,
}

module _ {World : Type 0} where
  -- So many calls in a row fail in a way that may pass; the last error before and after them.
  pub data Fails (provider : ChatProvider World) (attempt : Attempt) (req : ChatRequest)
      (earlier : Option AiCallError) (start : World) : ℕ → Option AiCallError → World → Type 0 where
    none_yet : Fails provider attempt req earlier start 0 earlier start
    fails :
        {n : ℕ} {last : Option AiCallError} {w w' : World} {e : ProviderError}
        → Fails provider attempt req earlier start n last w
        → provider.complete w attempt.key req ≡ (w', err e)
        → e.retriable ≡ true
        → Fails provider attempt req earlier start (suc n) (some (error_of attempt e)) w'

  -- What comes of one attempt: at most three calls, of which the last one decides unless it fails
  -- in a way that may pass.
  pub data Tried (provider : ChatProvider World) (attempt : Attempt) (req : ChatRequest)
      (earlier : Option AiCallError) (start : World) : World → Flow → Type 0 where
    failed_over :
        {last : Option AiCallError} {w : World}
        → Fails provider attempt req earlier start 3 last w
        → Tried provider attempt req earlier start w (goes_on last)
    succeeded :
        {n : ℕ} {last : Option AiCallError} {w w' : World} {completion : ChatCompletion}
        → Fails provider attempt req earlier start n last w
        → n < 3
        → provider.complete w attempt.key req ≡ (w', ok completion)
        → Tried provider attempt req earlier start w' (returns (ok (result_of attempt completion)))
    aborted :
        {n : ℕ} {last : Option AiCallError} {w w' : World} {e : ProviderError}
        → Fails provider attempt req earlier start n last w
        → n < 3
        → provider.complete w attempt.key req ≡ (w', err e)
        → e.retriable ≡ false
        → Tried provider attempt req earlier start w' (returns (err (error_of attempt e)))

  -- The attempts in their order, without those of unknown providers, up to the first that decides.
  pub data Answers (registry : Registry World) (input : AiInput) (request_id : Option Text)
      : Option AiCallError
        → World
        → List Attempt
        → World
        → Result AiCallResult AiCallError
        → Type 0 where
    exhausted :
        {earlier : Option AiCallError} {start : World}
        → Answers registry input request_id earlier start [] start
            (err (unwrap_or earlier not_configured))
    skipped :
        {earlier : Option AiCallError} {start : World} {attempt : Attempt} {attempts : List Attempt}
        {w : World} {answer : Result AiCallResult AiCallError}
        → resolve registry attempt.provider ≡ none
        → Answers registry input request_id earlier start attempts w answer
        → Answers registry input request_id earlier start (attempt ∷ attempts) w answer
    passed_on :
        {earlier : Option AiCallError} {start : World} {attempt : Attempt} {attempts : List Attempt}
        {w w' : World} {last : Option AiCallError} {answer : Result AiCallResult AiCallError}
        {provider : ChatProvider World}
        → resolve registry attempt.provider ≡ some provider
        → Tried provider attempt
            (request_of input request_id attempt)
            earlier
            start
            w
            (goes_on last)
        → Answers registry input request_id last w attempts w' answer
        → Answers registry input request_id earlier start (attempt ∷ attempts) w' answer
    decided :
        {earlier : Option AiCallError} {start : World} {attempt : Attempt} {attempts : List Attempt}
        {w : World} {answer : Result AiCallResult AiCallError} {provider : ChatProvider World}
        → resolve registry attempt.provider ≡ some provider
        → Tried provider attempt
            (request_of input request_id attempt)
            earlier
            start
            w
            (returns answer)
        → Answers registry input request_id earlier start (attempt ∷ attempts) w answer

  module _ (provider : ChatProvider World) (attempt : Attempt) (req : ChatRequest)
      (earlier : Option AiCallError) (start : World) where
    abbrev IsTried : Attempted World → Type 0
    IsTried (w, acts, flow) = Tried provider attempt req earlier start w flow

    after_call-Tried :
        (n retry : ℕ) (last : Option AiCallError) (w : World)
        (x : World × Result ChatCompletion ProviderError)
        (again : World → Option AiCallError → Attempted World)
        → Fails provider attempt req earlier start n last w
        → n < 3
        → provider.complete w attempt.key req ≡ x
        → ((last' : Option AiCallError) (w' : World)
            → Fails provider attempt req earlier start (suc n) last' w'
            → IsTried (again w' last'))
        → IsTried (after_call attempt retry x again)
    after_call-Tried n retry last w (w', ok completion) again before within e left =
        succeeded before within e
    after_call-Tried n retry last w (w', err f) again before within e left =
        elim (Bool-cases f.retriable) [
          | inl may ↦ rw may (left _ w' (fails before e may))
          | inr final ↦ rw final (aborted before within e final)
        ]

    retry_loop-Tried :
        (left : List ℕ) (n : ℕ) (last : Option AiCallError) (w : World)
        → Fails provider attempt req earlier start n last w
        → n + length left ≡ 3
        → IsTried (retry_loop provider attempt req left w last)
    unfolding retry_loop
    retry_loop-Tried [] n last w before count =
        let over : n ≡ 3 = omega arith in failed_over (rw over at before)
    retry_loop-Tried (retry ∷ left) n last w before count =
        after_call-Tried n retry last w _ _ before (omega arith) refl
          (λ last' w' again. retry_loop-Tried left (suc n) last' w' again (omega arith))

  module _ (registry : Registry World) (input : AiInput) (request_id : Option Text) where
    abbrev IsAnswered : Option AiCallError → World → List Attempt → Answered World → Type 0
    IsAnswered earlier start attempts (w, acts, answer) =
        Answers registry input request_id earlier start attempts w answer

    after_attempt-Answers :
        (attempt : Attempt) (attempts : List Attempt) (provider : ChatProvider World)
        (earlier : Option AiCallError) (start : World) (x : Attempted World)
        (next : World → Option AiCallError → Answered World)
        → resolve registry attempt.provider ≡ some provider
        → IsTried provider attempt (request_of input request_id attempt) earlier start x
        → ((w : World) (last : Option AiCallError) → IsAnswered last w attempts (next w last))
        → IsAnswered earlier start (attempt ∷ attempts) (after_attempt x next)
    after_attempt-Answers attempt attempts provider earlier start (w, acts, returns answer) next e
          tried later =
        decided e tried
    after_attempt-Answers attempt attempts provider earlier start (w, acts, goes_on last) next e
          tried later =
        passed_on e tried (later w last)

    on_provider-Answers :
        (attempt : Attempt) (attempts : List Attempt) (earlier : Option AiCallError) (start : World)
        (found : Option (ChatProvider World)) (next : World → Option AiCallError → Answered World)
        → resolve registry attempt.provider ≡ found
        → ((w : World) (last : Option AiCallError) → IsAnswered last w attempts (next w last))
        → IsAnswered earlier start
            (attempt ∷ attempts)
            (on_provider input request_id attempt found start earlier next)
    on_provider-Answers attempt attempts earlier start none next e later =
        skipped e (later start earlier)
    on_provider-Answers attempt attempts earlier start (some provider) next e later =
        after_attempt-Answers attempt attempts provider earlier start _ next e
          (retry_loop-Tried provider attempt (request_of input request_id attempt) earlier start
            retries 0 earlier start none_yet (omega arith))
          later

    attempt_loop-Answers :
        (attempts : List Attempt) (start : World) (earlier : Option AiCallError)
        → IsAnswered earlier start attempts
            (attempt_loop registry input request_id attempts start earlier)
    unfolding attempt_loop
    attempt_loop-Answers [] start earlier = exhausted
    attempt_loop-Answers (attempt ∷ attempts) start earlier =
        on_provider-Answers attempt attempts earlier start _ _ refl
          (λ w last. attempt_loop-Answers attempts w last)

    -- The answer of `run_attempts_traced` is the one that the attempts give in their order: those of
    -- unknown providers are passed over; each other one is called until a call succeeds, fails for
    -- good, or has failed three times in a way that may pass; the first two decide the answer, the
    -- third goes on to the next attempt; and when no attempt decides, the answer is the last error, or
    -- that nothing is configured when there was none.
    pub run_attempts-Answers :
        (attempts : List Attempt) (start : World)
        → let (w, acts, answer) = run_attempts registry input request_id attempts start in
          Answers registry input request_id none start attempts w answer
    unfolding run_attempts
    run_attempts-Answers attempts start = attempt_loop-Answers attempts start none
