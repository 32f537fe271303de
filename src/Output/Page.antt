-- ===== src/Output/Page.antt =====
-- src/output.ts: `paginate`. The parts of a page are kept joined, as the text of the envelope.
use pi_watch.Base.{
  ℕ, zero, suc, ◌+◌, ◌-◌, min, Text, text, text_eq, Bool, true, false, Option, none, some, List, [],
  ◌∷◌, ◌++◌, length, ltb, ◌==◌, if◌then◌else◌,
}
use pi_watch.Output.Utf8.{Token, utf8_token, sanitize}
use pi_watch.Output.Json.{number, boolean, string, object, Fields, no_fields, field, json_bytes}

abbrev pub output_envelope_limit : ℕ
output_envelope_limit = 51200

abbrev pub output_line_limit : ℕ
output_line_limit = 2000

pub data CaptureStream : Type 0 where
  standard_output standard_error : CaptureStream

abbrev pub stream_text : CaptureStream → Text
stream_text standard_output = text "stdout"
stream_text standard_error = text "stderr"

-- `Omit<OutputData, 'nextOffsetBytes' | 'hasMore' | 'text'>`
pub record PageFacts : Type 0 where
  pub stream : CaptureStream
  pub offset_bytes : ℕ
  pub retained_bytes : ℕ
  pub can_grow : Bool
  pub available : Bool
  pub truncated : Bool
  pub incomplete : Bool
  pub open_at_cutover : Bool

pub record OutputData : Type 0 where
  pub facts : PageFacts
  pub next_offset_bytes : ℕ
  pub has_more : Bool
  pub shown : List ℕ

pub data OutputEnvelope : Type 0 where
  success : OutputData → OutputEnvelope
  read_failed : OutputEnvelope

-- The page that ends at `next` and shows a text.
abbrev pub page_data : PageFacts → ℕ → List ℕ → OutputData
page_data facts next shown = record {
  facts = facts;
  next_offset_bytes = next;
  has_more = ltb next facts.retained_bytes;
  shown = shown;
}

abbrev data_fields : OutputData → Fields
data_fields data' =
    let facts = data'.facts in
    field (text "stream") (string (stream_text facts.stream)) (
      field (text "offsetBytes") (number facts.offset_bytes) (
        field (text "retainedBytes") (number facts.retained_bytes) (
          field (text "canGrow") (boolean facts.can_grow) (
            field (text "available") (boolean facts.available) (
              field (text "truncated") (boolean facts.truncated) (
                field (text "incomplete") (boolean facts.incomplete) (
                  field (text "openAtCutover") (boolean facts.open_at_cutover) (
                    field (text "nextOffsetBytes") (number data'.next_offset_bytes) (
                      field (text "hasMore") (boolean data'.has_more)
                        (field (text "text") (string data'.shown) no_fields))))))))))

-- `serializedBytes(success(data))`
unfoldable pub serialized_bytes : OutputData → ℕ
serialized_bytes data' = json_bytes (
    object (
      field (text "schemaVersion") (number 1) (
        field (text "ok") (boolean true)
          (field (text "data") (object (data_fields data')) no_fields))))

-- The variables of the loop; `shown` is `parts.join('')`.
pub record PageState : Type 0 where
  pub shown : List ℕ
  pub escaped_text_bytes : ℕ
  pub consumed : ℕ
  pub line_feeds : ℕ

abbrev pub first_state : PageState
first_state = record { shown = []; escaped_text_bytes = 0; consumed = 0; line_feeds = 0 }

abbrev pub is_line_feed : List ℕ → Bool
is_line_feed displayed = text_eq displayed (10 ∷ [])

-- The loop's body after the token was read; `none` is `break`.
unfoldable pub accept : PageFacts → List ℕ → PageState → Token → Option PageState
accept facts bytes state token =
    let displayed = sanitize token.code_point in
    let consumed = state.consumed + token.consumed in
    let line_feeds = state.line_feeds + (if is_line_feed displayed then 1 else 0) in
    let logical_lines = line_feeds + (if is_line_feed displayed then 0 else 1) in
    let escaped = state.escaped_text_bytes + (json_bytes (string displayed) - 2) in
    let metadata = serialized_bytes (page_data facts (facts.offset_bytes + consumed) []) in
    if ltb (length bytes) consumed
    then none
    else (if ltb output_line_limit logical_lines
        then none
        else (if ltb output_envelope_limit (metadata + escaped)
            then none
            else some (record {
              shown = state.shown ++ displayed;
              escaped_text_bytes = escaped;
              consumed = consumed;
              line_feeds = line_feeds;
            })))

abbrev pub ends_here : PageFacts → List ℕ → Bool
ends_here facts bytes = facts.offset_bytes + length bytes == facts.retained_bytes

-- One turn of the loop.
unfoldable pub page_step : PageFacts → List ℕ → PageState → Option PageState
page_step facts bytes state =
    elim (utf8_token bytes state.consumed (ends_here facts bytes) facts.can_grow) [
      | none ↦ none
      | some token ↦ accept facts bytes state token
    ]

abbrev pub primary_length : List ℕ → ℕ
primary_length bytes = min (length bytes) output_envelope_limit

-- The loop. Every turn consumes a byte, so that `primary_length` turns are enough.
unfoldable pub page_loop : PageFacts → List ℕ → ℕ → PageState → PageState
page_loop facts bytes zero state = state
page_loop facts bytes (suc fuel) state = elim (ltb state.consumed (primary_length bytes)) [
  | false ↦ state
  | true ↦ elim (page_step facts bytes state) [
    | none ↦ state
    | some next ↦ page_loop facts bytes fuel next
  ]
]

abbrev pub close_page : PageFacts → PageState → OutputEnvelope
close_page facts state =
    let page = page_data facts (facts.offset_bytes + state.consumed) state.shown in
    if ltb output_envelope_limit (serialized_bytes page) then read_failed else success page

-- `paginate`; `canGrow` is a field of the facts.
unfoldable pub paginate : PageFacts → List ℕ → OutputEnvelope
unfolding page_loop
paginate facts bytes = close_page facts (page_loop facts bytes (primary_length bytes) first_state)
