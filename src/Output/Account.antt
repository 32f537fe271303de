-- ===== src/Output/Account.antt =====
-- src/output.ts: the bytes and line feeds that `paginate` counts.
use pi_watch.Base.{
  ℕ, ◌+◌, ◌≤◌, text_eq, Bool, true, List, [], ◌∷◌, ◌++◌, every, ltb, ◌==◌, if◌then◌else◌, ◌≡◌, refl,
  arith,
}
use pi_watch.Output.Utf8.{sanitize}
use pi_watch.Output.Json.{json_bytes, json_text_bytes, json_unit_bytes, decimal_bytes-bound}
use pi_watch.Output.Page.{
  PageFacts, page_data, serialized_bytes, is_line_feed, stream_text, CaptureStream, standard_output,
  standard_error,
}

-- The line feeds of a text.
abbrev pub line_feeds_of : List ℕ → ℕ
line_feeds_of [] = 0
line_feeds_of (c ∷ t) = (if c == 10 then 1 else 0) + line_feeds_of t

pub line_feeds_of-append :
    (s t : List ℕ) → line_feeds_of (s ++ t) ≡ line_feeds_of s + line_feeds_of t
line_feeds_of-append [] t = omega arith
line_feeds_of-append (c ∷ s) t = omega (arith, line_feeds_of-append s t)

pub every-append {ℓ} :
    {A : Type ℓ} (p : A → Bool) (s t : List A)
    → every p s ≡ true
    → every p t ≡ true
    → every p (s ++ t) ≡ true
every-append p [] t h k = k
every-append p (c ∷ s) t h k = ground (arith, every-append p s t)

pub line_feeds_of-sanitize :
    (code : ℕ) → line_feeds_of (sanitize code) ≡ (if is_line_feed (sanitize code) then 1 else 0)
unfolding sanitize text_eq
line_feeds_of-sanitize code = ground arith

pub empty_text : json_text_bytes [] ≡ 0
unfolding json_text_bytes
empty_text = refl

-- The accounting of the loop: a text adds its own bytes to those of the empty envelope.
pub serialized_bytes-shown :
    (facts : PageFacts) (next : ℕ) (shown : List ℕ)
    → serialized_bytes (page_data facts next shown)
      ≡ serialized_bytes (page_data facts next []) + json_text_bytes shown
unfolding serialized_bytes json_bytes
serialized_bytes-shown facts next shown = omega (arith, empty_text)

pub stream-bytes : (stream : CaptureStream) → json_text_bytes (stream_text stream) ≡ 6
unfolding json_text_bytes json_unit_bytes
stream-bytes standard_output = refl
stream-bytes standard_error = refl

pub boolean-bytes : (b : Bool) → (if b then 4 else 5) ≤ 5
boolean-bytes b = ground arith

-- The envelope without its text is small.
pub metadata-bound :
    (facts : PageFacts) (next : ℕ) → serialized_bytes (page_data facts next []) ≤ 400
unfolding serialized_bytes json_bytes json_text_bytes json_unit_bytes
metadata-bound facts next = omega (
  arith,
  stream-bytes facts.stream,
  decimal_bytes-bound 16 1,
  decimal_bytes-bound 16 facts.offset_bytes,
  decimal_bytes-bound 16 facts.retained_bytes,
  decimal_bytes-bound 16 next,
  boolean-bytes facts.can_grow,
  boolean-bytes facts.available,
  boolean-bytes facts.truncated,
  boolean-bytes facts.incomplete,
  boolean-bytes facts.open_at_cutover,
  boolean-bytes (ltb next facts.retained_bytes),
)
