-- ===== src/Providers/Sse/Examples.antt =====
-- Streams at concrete inputs.
use customer_service_chat_sy.Base.{
  ℕ, Bool, ◌≡◌, refl, List, [], ◌∷◌, ◌++◌, map, none, Text, codes, eqb, ◌||◌, Result, ok, arith,
}
use customer_service_chat_sy.Providers.Contract.{ProviderError}
use customer_service_chat_sy.Providers.Sse.{
  SseFrame, chunk, find_frame_boundary, parse_sse_frame, drain, sse_loop, sse_frames,
}
use customer_service_chat_sy.Providers.Sse.Drain.{drain_done}
use customer_service_chat_sy.Providers.Sse.Chunks.{sse_frames-text_of}

-- One byte a character.
abbrev latin : List ℕ → Text
latin bytes = bytes

abbrev blank : ℕ → Bool
blank c = eqb c 32 || eqb c 10

abbrev frame_with : Text → Result SseFrame ProviderError
frame_with text = ok (record { event = none; payload = text })

abbrev one_chunk : List Text
one_chunk = (codes "data: a" ++ 10 ∷ 10 ∷ codes "data: b" ++ 10 ∷ 10 ∷ []) ∷ []

-- Split between the line feeds, and within a line.
abbrev three_chunks : List Text
three_chunks =
    (codes "data: a" ++ 10 ∷ []) ∷ (10 ∷ codes "dat") ∷ (codes "a: b" ++ 10 ∷ 10 ∷ []) ∷ []

two_frames :
    sse_frames latin blank (map chunk one_chunk)
    ≡ frame_with (codes "a") ∷ frame_with (codes "b") ∷ []
unfolding sse_frames sse_loop drain find_frame_boundary parse_sse_frame
two_frames = refl

-- A frame that ends with two CRLF stands alone when it comes first, but is merged with the next one
-- when both are in the buffer and that ends with two line feeds.
abbrev crlf_frame : Text
crlf_frame = codes "data: a" ++ 13 ∷ 10 ∷ 13 ∷ 10 ∷ []

abbrev lf_frame : Text
lf_frame = codes "data: b" ++ 10 ∷ 10 ∷ []

mixed_apart :
    sse_frames latin blank (chunk crlf_frame ∷ chunk lf_frame ∷ [])
    ≡ frame_with (codes "a") ∷ frame_with (codes "b") ∷ []
unfolding sse_frames sse_loop drain find_frame_boundary parse_sse_frame
mixed_apart = refl

mixed_together :
    sse_frames latin blank (chunk (crlf_frame ++ lf_frame) ∷ [])
    ≡ frame_with (codes "a" ++ 10 ∷ codes "b") ∷ []
unfolding sse_frames sse_loop drain find_frame_boundary parse_sse_frame
mixed_together = refl

sse_frames-text_of_example :
    sse_frames latin blank (map chunk one_chunk) ≡ sse_frames latin blank (map chunk three_chunks)
sse_frames-text_of_example = sse_frames-text_of latin blank one_chunk three_chunks refl refl

drain_done_example : find_frame_boundary (drain blank 20 lf_frame).1 ≡ none
drain_done_example = drain_done blank 20 lf_frame (omega arith)
