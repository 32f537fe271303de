-- ===== src/Tests/Output.antt =====
-- A page over a few bytes of output, and the theorems about pages at it.
use pi_watch.Base.{
  ℕ, ◌+◌, ◌≤◌, ◌<◌, true, false, none, some, List, [], ◌∷◌, length, every, text_eq, ◌≡◌, refl,
  arith,
}
use pi_watch.Output.Utf8.{
  utf8_token, width_of, bad_continuation, sanitize, is_displayable, utf8_token-bounds,
  sanitize-displayable,
}
use pi_watch.Output.Page.{
  standard_output, PageFacts, OutputData, success, paginate, page_data, serialized_bytes, page_step,
  accept,
}
use pi_watch.Output.Json.{json_bytes, json_text_bytes, json_unit_bytes, decimal_bytes}
use pi_watch.Output.Bounds.{IsBounded, paginate-IsBounded}
use pi_watch.Output.Progress.{is_cut, paginate-progress}

-- "é", escape, line feed, and a byte that starts nothing.
abbrev sample : List ℕ
sample = 0xC3 ∷ 0xA9 ∷ 0x1B ∷ 0x0A ∷ 0xFF ∷ []

abbrev facts : PageFacts
facts = record {
  stream = standard_output;
  offset_bytes = 10;
  retained_bytes = 15;
  can_grow = false;
  available = true;
  truncated = false;
  incomplete = false;
  open_at_cutover = false;
}

first_token : utf8_token sample 0 true false ≡ some (record { consumed = 2; code_point = 0xE9 })
unfolding utf8_token width_of bad_continuation
first_token = refl

-- A cut character at the end of a snapshot that can grow is left for the next page.
cut_token : utf8_token (0xC3 ∷ []) 0 true true ≡ none
unfolding utf8_token width_of bad_continuation
cut_token = refl

escaped : sanitize 0x1B ≡ b'\\' ∷ b'x' ∷ b'1' ∷ b'b' ∷ []
unfolding sanitize
escaped = refl

utf8_token-bounds_example : (1 ≤ 2) × (0 + 2 ≤ length sample)
utf8_token-bounds_example =
    utf8_token-bounds sample 0 true false {t = record { consumed = 2; code_point = 0xE9 }}
      (omega arith) first_token

sanitize-displayable_example : every is_displayable (sanitize 0x1B) ≡ true
sanitize-displayable_example = sanitize-displayable 0x1B

paginate-IsBounded_example :
    (page : OutputData) × (consumed : ℕ) × (paginate facts sample ≡ success page)
    × IsBounded facts sample consumed page
paginate-IsBounded_example = paginate-IsBounded facts sample

sample_page :
    paginate facts sample
    ≡ success (page_data facts 15 (0xE9 ∷ b'\\' ∷ b'x' ∷ b'1' ∷ b'b' ∷ 0x0A ∷ 0xFFFD ∷ []))
unfolding paginate serialized_bytes json_bytes json_text_bytes json_unit_bytes decimal_bytes
    page_step utf8_token bad_continuation accept text_eq sanitize
sample_page = refl

-- The same bytes at the end of a live snapshot.
abbrev live_facts : PageFacts
live_facts = record facts { can_grow = true }

live_page :
    paginate live_facts sample
    ≡ success (page_data live_facts 15 (0xE9 ∷ b'\\' ∷ b'x' ∷ b'1' ∷ b'b' ∷ 0x0A ∷ 0xFFFD ∷ []))
unfolding paginate serialized_bytes json_bytes json_text_bytes json_unit_bytes decimal_bytes
    page_step utf8_token bad_continuation accept text_eq sanitize
live_page = refl

sample_whole : is_cut sample ≡ false
unfolding width_of
sample_whole = refl

paginate-progress_example : 10 < 15
paginate-progress_example =
    paginate-progress live_facts sample
      {page = page_data live_facts 15 (0xE9 ∷ b'\\' ∷ b'x' ∷ b'1' ∷ b'b' ∷ 0x0A ∷ 0xFFFD ∷ [])}
      (omega arith) sample_whole live_page
