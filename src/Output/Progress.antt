-- ===== src/Output/Progress.antt =====
-- src/output.ts: the first turn of the loop of `paginate`.
use pi_watch.Base.{
  ℕ, zero, suc, ◌+◌, ◌*◌, ◌-◌, ◌≤◌, ◌<◌, Bool, true, false, ◌&&◌, Option, none, some, List, [], ◌∷◌,
  length, ltb, not, is_some, ◌≡◌, ◌≢◌, refl, arith,
}
use pi_watch.Output.Utf8.{
  Token, byte_at, width_of, bad_continuation, utf8_token, utf8_token-bounds, sanitize,
}
use pi_watch.Output.Json.{json_text_bytes, json_unit_bytes}
use pi_watch.Output.Page.{
  PageFacts, OutputData, success, PageState, first_state, accept, page_step, primary_length,
  page_loop, ends_here, close_page, paginate,
}
use pi_watch.Output.Bounds.{
  page_loop-Reaches, first_state-IsPage, page_step-IsPage, page_step-consumed, displayed-bytes,
}
use pi_watch.Output.Account.{metadata-bound}

-- The bytes are the beginning of a character, so far valid, and not all of it.
abbrev pub is_cut : List ℕ → Bool
is_cut bytes =
    let first = byte_at bytes 0 in
    ltb (length bytes) (width_of first)
    && not (is_some (bad_continuation bytes 0 first 1 (length bytes - 1)))

utf8_token-whole :
    (bytes : List ℕ) (ends grows : Bool)
    → (ends && (grows && is_cut bytes)) ≡ false
    → utf8_token bytes 0 ends grows ≢ none
unfolding utf8_token
utf8_token-whole bytes ends grows h e = ground arith

unit-bytes : (c : ℕ) → json_unit_bytes c ≤ 6
unfolding json_unit_bytes
unit-bytes c = ground arith

text-bytes : (t : List ℕ) → json_text_bytes t ≤ 6 * length t
unfolding json_text_bytes
text-bytes [] = omega arith
text-bytes (c ∷ t) = omega (arith, unit-bytes c, text-bytes t)

length-sanitize : (code : ℕ) → length (sanitize code) ≤ 4
unfolding sanitize
length-sanitize code = ground arith

sanitize-bytes : (code : ℕ) → json_text_bytes (sanitize code) ≤ 24
sanitize-bytes code = omega (arith, text-bytes (sanitize code), length-sanitize code)

accept-first :
    (facts : PageFacts) (bytes : List ℕ) (token : Token)
    → token.consumed ≤ length bytes
    → accept facts bytes first_state token ≢ none
unfolding accept
accept-first facts bytes token inside h =
    let displayed = sanitize token.code_point in
    ground (
      arith,
      displayed-bytes displayed,
      sanitize-bytes token.code_point,
      metadata-bound facts (facts.offset_bytes + (0 + token.consumed)),
    )

accept-token :
    (facts : PageFacts) (bytes : List ℕ) (read : Option Token)
    → 0 < length bytes
    → (ends_here facts bytes && (facts.can_grow && is_cut bytes)) ≡ false
    → utf8_token bytes 0 (ends_here facts bytes) facts.can_grow ≡ read
    → (elim read [ none ↦ none | some token ↦ accept facts bytes first_state token ]) ≢ none
accept-token facts bytes none inside whole e h =
    utf8_token-whole bytes (ends_here facts bytes) facts.can_grow whole e
accept-token facts bytes (some token) inside whole e h =
    let (some_bytes, room) = utf8_token-bounds bytes 0 _ _ inside e in
    accept-first facts bytes token (omega (arith, room)) h

page_step-first :
    (facts : PageFacts) (bytes : List ℕ)
    → 0 < length bytes
    → (ends_here facts bytes && (facts.can_grow && is_cut bytes)) ≡ false
    → page_step facts bytes first_state ≢ none
unfolding page_step
page_step-first facts bytes inside whole = accept-token facts bytes _ inside whole refl

turn-consumed :
    (facts : PageFacts) (bytes : List ℕ) (fuel : ℕ) (next : Option PageState)
    → page_step facts bytes first_state ≡ next
    → next ≢ none
    → 0 < primary_length bytes
    → primary_length bytes ≤ 1 + fuel
    → let last : PageState = elim next [
      | none ↦ first_state
      | some s ↦ page_loop facts bytes fuel s
    ] in
      0 < last.consumed
turn-consumed facts bytes fuel none e some_next inside enough = absurd (some_next refl)
turn-consumed facts bytes fuel (some s) e some_next inside enough =
    let further = page_step-consumed facts bytes first_state inside e in
    let page = page_step-IsPage facts bytes first_state (first_state-IsPage facts bytes) e in
    let (p, more, stopped) = page_loop-Reaches facts bytes fuel s page (omega arith) in omega arith

page_loop-consumed :
    (facts : PageFacts) (bytes : List ℕ) (fuel : ℕ)
    → 0 < length bytes
    → (ends_here facts bytes && (facts.can_grow && is_cut bytes)) ≡ false
    → primary_length bytes ≤ fuel
    → 0 < (page_loop facts bytes fuel first_state).consumed
unfolding page_loop
page_loop-consumed facts bytes zero inside whole enough = omega arith
page_loop-consumed facts bytes (suc fuel) inside whole enough =
    let open_window : ltb 0 (primary_length bytes) ≡ true = ground arith in
    rw (page_loop, open_window)
      (turn-consumed facts bytes fuel (page_step facts bytes first_state) refl
        (page_step-first facts bytes inside whole) (omega arith) (omega arith))

close_page-next :
    (facts : PageFacts) (state : PageState) {page : OutputData}
    → 0 < state.consumed
    → close_page facts state ≡ success page
    → facts.offset_bytes < page.next_offset_bytes
close_page-next facts state moved h = ground arith

-- A page over bytes that are there moves the reader on by at least one byte, of a finished job and
-- of a live one alike; the only exception is that a snapshot that can still grow ends with these
-- bytes and they are a valid beginning of one character, without its end.
pub paginate-progress :
    (facts : PageFacts) (bytes : List ℕ) {page : OutputData}
    → 0 < length bytes
    → (ends_here facts bytes && (facts.can_grow && is_cut bytes)) ≡ false
    → paginate facts bytes ≡ success page
    → facts.offset_bytes < page.next_offset_bytes
unfolding paginate
paginate-progress facts bytes {page} inside whole h =
    let moved = page_loop-consumed facts bytes (primary_length bytes) inside whole (omega arith) in
    close_page-next facts (page_loop facts bytes (primary_length bytes) first_state) moved h
