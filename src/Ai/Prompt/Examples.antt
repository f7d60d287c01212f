-- ===== src/Ai/Prompt/Examples.antt =====
-- Prompts at concrete inputs.
use customer_service_chat_sy.Base.{
  ◌≡◌, refl, List, [], ◌∷◌, none, some, Text, codes, eqb, lookup, ok,
}
use customer_service_chat_sy.Ai.Prompt.{
  validate_loop, validate_prompt, drop_bytes, take_bytes, slice, render_loop, render_prompt,
}
use customer_service_chat_sy.Ai.Prompt.Reference.{rendered}
use customer_service_chat_sy.Ai.Prompt.Rendering.{render_prompt-rendered}
use customer_service_chat_sy.Ai.Prompt.Validated.{IsAccepted, validate_prompt-IsAccepted}

abbrev some_values : List (Text × Text)
some_values = (codes "agent_name", codes "Aria") ∷ []

-- The euro sign takes three bytes; the second placeholder is never closed.
abbrev odd_prompt : Text
odd_prompt = codes "a€ {{agent_name}} {{x {{y"

renders_odd : render_prompt odd_prompt some_values ≡ some (codes "a€ Aria {{x {{y")
unfolding render_prompt render_loop slice drop_bytes take_bytes lookup
renders_odd = refl

render_prompt-rendered_example :
    render_prompt odd_prompt some_values ≡ some (rendered some_values none odd_prompt)
render_prompt-rendered_example = render_prompt-rendered odd_prompt some_values

abbrev good_prompt : Text
good_prompt = codes "I am {{agent_name}}."

good_prompt_accepted : validate_prompt (λ n. []) (λ c. eqb c 32) good_prompt ≡ ok tt
unfolding validate_prompt validate_loop
good_prompt_accepted = refl

validate_prompt-IsAccepted_example : IsAccepted (λ c. eqb c 32) good_prompt
validate_prompt-IsAccepted_example =
    validate_prompt-IsAccepted (λ n. []) (λ c. eqb c 32) good_prompt good_prompt_accepted
