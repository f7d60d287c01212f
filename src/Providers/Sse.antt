-- ===== src/Providers/Sse.antt =====
-- Server-sent events: backend/crates/ai-providers/src/sse.rs. The body is the list of what its polls
-- give. The decoding of a chunk's bytes and which characters are white space are parameters; a
-- position in a text is counted in characters.
pub mod Drain
pub mod LineFeeds
pub mod Chunks
mod Examples
use customer_service_chat_sy.Base.{
  ℕ, zero, suc, ◌-◌, Bool, true, false, List, [], ◌∷◌, ◌++◌, Option, none, some, Text, codes, eqb,
  length, starts_with, if◌then◌else◌, Result, ok, err,
}
use customer_service_chat_sy.Providers.Contract.{unavailable, invalid_request, ProviderError}

pub record SseFrame : Type 0 where
  pub event : Option Text
  pub payload : Text  -- `data`

-- What a poll of the body gives: bytes, or the text of an error.
pub data Poll : Type 0 where
  chunk : List ℕ → Poll
  failed : Text → Poll

abbrev pub take : ℕ → Text → Text
take zero s = []
take (suc n) [] = []
take (suc n) (c ∷ s) = c ∷ take n s

abbrev pub drop : ℕ → Text → Text
drop zero s = s
drop (suc n) [] = []
drop (suc n) (c ∷ s) = drop n s

abbrev pub next_position : Option ℕ → Option ℕ
next_position none = none
next_position (some i) = some (suc i)

-- `str::find`.
abbrev pub find_text : (pattern s : Text) → Option ℕ
find_text pattern [] = if starts_with [] pattern then some 0 else none
find_text pattern (c ∷ s) =
    if starts_with (c ∷ s) pattern then some 0 else next_position (find_text pattern s)

abbrev pub two_lf : Text
two_lf = 10 ∷ 10 ∷ []

abbrev pub two_crlf : Text
two_crlf = 13 ∷ 10 ∷ 13 ∷ 10 ∷ []

abbrev pub or_else : Option ℕ → Option ℕ → Option ℕ
or_else none other = other
or_else (some i) other = some i

unfoldable pub find_frame_boundary : Text → Option ℕ
find_frame_boundary buf = or_else (find_text two_lf buf) (find_text two_crlf buf)

-- `strip_suffix`, and `unwrap_or` with the text itself.
abbrev pub ends_with : (suffix s : Text) → Bool
ends_with suffix [] = eqb (length suffix) 0
ends_with suffix (c ∷ s) =
    if eqb (length (c ∷ s)) (length suffix) then starts_with (c ∷ s) suffix else ends_with suffix s

abbrev pub without_last : (count total : ℕ) → Text → Text
without_last count total s = take (total - count) s

abbrev pub strip_suffix : (suffix s : Text) → Text
strip_suffix suffix s = if ends_with suffix s then without_last (length suffix) (length s) s else s

-- `split('\n')`: the line begun, and the others.
abbrev pub push_first : ℕ → List Text → List Text
push_first c [] = (c ∷ []) ∷ []
push_first c (line ∷ lines) = (c ∷ line) ∷ lines

abbrev pub lines_of : Text → List Text
lines_of [] = [] ∷ []
lines_of (c ∷ s) = if eqb c 10 then [] ∷ lines_of s else push_first c (lines_of s)

abbrev pub strip_prefix : (prefix s : Text) → Option Text
strip_prefix prefix s = if starts_with s prefix then some (drop (length prefix) s) else none

-- What has been read of a frame's lines.
pub record Fields : Type 0 where
  pub event : Option Text
  pub data_lines : List Text
  pub has_comment : Bool

abbrev pub join_lines : List Text → Text
join_lines [] = []
join_lines (line ∷ []) = line
join_lines (line ∷ next ∷ lines) = line ++ 10 ∷ join_lines (next ∷ lines)

module _ (is_whitespace : ℕ → Bool) where
  abbrev pub trim_start : Text → Text
  trim_start [] = []
  trim_start (c ∷ s) = if is_whitespace c then trim_start s else c ∷ s

  abbrev pub cons_trimmed : ℕ → Text → Text
  cons_trimmed c [] = if is_whitespace c then [] else c ∷ []
  cons_trimmed c (d ∷ s) = c ∷ d ∷ s

  abbrev pub trim_end : Text → Text
  trim_end [] = []
  trim_end (c ∷ s) = cons_trimmed c (trim_end s)

  abbrev pub on_data : Fields → Option Text → Fields
  on_data fields none = fields
  on_data fields (some stripped) = record fields {
    data_lines = fields.data_lines ++ trim_end (trim_start stripped) ∷ [];
  }

  abbrev pub on_event : Fields → (line : Text) → Option Text → Fields
  on_event fields line none = on_data fields (strip_prefix (codes "data:") line)
  on_event fields line (some stripped) = record fields {
    event = some (trim_end (trim_start stripped));
  }

  abbrev pub on_line : Fields → (line : Text) → Fields
  on_line fields raw =
      let line = strip_suffix (13 ∷ []) raw in
      if starts_with line (codes ":")
      then record fields { has_comment = true }
      else on_event fields line (strip_prefix (codes "event:") line)

  abbrev pub on_lines : Fields → List Text → Fields
  on_lines fields [] = fields
  on_lines fields (line ∷ lines) = on_lines (on_line fields line) lines

  abbrev pub frame_of : Fields → List Text → Result SseFrame ProviderError
  frame_of fields (line ∷ lines) =
      ok (record { event = fields.event; payload = join_lines (line ∷ lines) })
  frame_of fields [] =
      if fields.has_comment
      then ok (record { event = none; payload = [] })
      else err (record {
        category = invalid_request;
        retriable = false;
        detail = codes "sse frame with no data lines";
      })

  unfoldable pub parse_sse_frame : (raw : Text) → Result SseFrame ProviderError
  parse_sse_frame raw =
      let trimmed = strip_suffix (10 ∷ []) (strip_suffix (13 ∷ 10 ∷ []) raw) in
      let fields =
        on_lines (record { event = none; data_lines = []; has_comment = false })
          (lines_of trimmed) in
      frame_of fields fields.data_lines

abbrev pub is_empty : Option Text → Text → Bool
is_empty none [] = true
is_empty _ _ = false

abbrev pub is_empty_frame : Result SseFrame ProviderError → Bool
is_empty_frame (ok frame) = is_empty frame.event frame.payload
is_empty_frame (err e) = false

abbrev pub read_error : Text → ProviderError
read_error e = record {
  category = unavailable;
  retriable = true;
  detail = codes "sse read error: " ++ e;
}

module _ (is_whitespace : ℕ → Bool) where
  -- The frames that the buffer holds, less the empty ones, and what is left of it, from
  -- `frame_start + 2` on.
  unfoldable pub drain : (fuel : ℕ) → (buf : Text) → List (Result SseFrame ProviderError) × Text
  drain zero buf = ([], buf)
  drain (suc fuel) buf = elim (find_frame_boundary buf) [
    | none ↦ ([], buf)
    | some frame_start ↦
        let frame = parse_sse_frame is_whitespace (take frame_start buf) in
        let (frames, left) = drain fuel (drop (suc (suc frame_start)) buf) in
        (if is_empty_frame frame then frames else frame ∷ frames, left)
  ]

module _ (from_utf8_lossy : List ℕ → Text) (is_whitespace : ℕ → Bool) where
  -- The stream from a buffer on: the frames of the buffer, then the next poll.
  unfoldable pub sse_loop : (buf : Text) → List Poll → List (Result SseFrame ProviderError)
  sse_loop buf [] = (drain is_whitespace (length buf) buf).0
  sse_loop buf (chunk bytes ∷ polls) =
      let (frames, left) = drain is_whitespace (length buf) buf in
      frames ++ sse_loop (left ++ from_utf8_lossy bytes) polls
  sse_loop buf (failed e ∷ polls) =
      let (frames, left) = drain is_whitespace (length buf) buf in
      frames ++ err (read_error e) ∷ sse_loop left polls

  unfoldable pub sse_frames : List Poll → List (Result SseFrame ProviderError)
  sse_frames polls = sse_loop [] polls
