-- ===== src/Output/Bounds.antt =====
-- src/output.ts: the loop of `paginate`, and the page that it makes.
use pi_watch.Base.{
  ℕ, zero, suc, ◌+◌, ◌-◌, ◌≤◌, ◌<◌, true, Option, none, some, List, [], length, every, ltb, ◌≡◌,
  refl, sym, arith, Bool-cases, ◌⊎◌, inl, inr,
}
use pi_watch.Output.Utf8.{
  Token, utf8_token, utf8_token-bounds, sanitize, is_displayable, sanitize-displayable,
}
use pi_watch.Output.Json.{
  json_bytes, json_text_bytes, json_unit_bytes, decimal_bytes, json_text_bytes-append,
  decimal_bytes-bound,
}
use pi_watch.Output.Page.{
  output_envelope_limit, output_line_limit, PageFacts, OutputData, success, page_data,
  serialized_bytes, PageState, first_state, accept, page_step, primary_length, page_loop, ends_here,
  close_page, paginate,
}
use pi_watch.Output.Account.{
  line_feeds_of, line_feeds_of-append, every-append, line_feeds_of-sanitize, empty_text,
  serialized_bytes-shown, metadata-bound,
}

-- What holds of the loop's variables.
pub record IsPage (facts : PageFacts) (bytes : List ℕ) (state : PageState) : Type 0 where
  pub counted : state.escaped_text_bytes ≡ json_text_bytes state.shown
  pub fits :
      serialized_bytes (page_data facts (facts.offset_bytes + state.consumed) [])
        + state.escaped_text_bytes
      ≤ output_envelope_limit
  pub inside : state.consumed ≤ length bytes
  pub feeds : state.line_feeds ≡ line_feeds_of state.shown
  pub few_lines : state.line_feeds ≤ output_line_limit
  pub displayable : every is_displayable state.shown ≡ true

pub displayed-bytes :
    (t : List ℕ) → json_bytes (pi_watch.Output.Json.string t) - 2 ≡ json_text_bytes t
unfolding json_bytes
displayed-bytes t = omega arith

accept-IsPage :
    (facts : PageFacts) (bytes : List ℕ) (state : PageState) (token : Token) {next : PageState}
    → IsPage facts bytes state
    → accept facts bytes state token ≡ some next
    → IsPage facts bytes next
unfolding accept
accept-IsPage facts bytes state token {next} p h =
    let displayed = sanitize token.code_point in
    let added = displayed-bytes displayed in
    let more = json_text_bytes-append state.shown displayed in
    let more_feeds = line_feeds_of-append state.shown displayed in
    let own_feeds = line_feeds_of-sanitize token.code_point in
    let clean =
      every-append is_displayable state.shown displayed p.displayable
        (sanitize-displayable token.code_point) in
    record {
      counted = ground (arith, added, more, p.counted);
      fits = ground arith;
      inside = ground arith;
      feeds = ground (arith, more_feeds, own_feeds, p.feeds);
      few_lines = ground arith;
      displayable = ground (arith, clean);
    }

pub page_step-parts :
    (facts : PageFacts) (bytes : List ℕ) (state : PageState) {next : PageState}
    → page_step facts bytes state ≡ some next
    → (token : Token) × (utf8_token bytes state.consumed (ends_here facts bytes) facts.can_grow
        ≡ some token)
      × (accept facts bytes state token ≡ some next)
unfolding page_step
page_step-parts facts bytes state h = ground arith

pub page_step-IsPage :
    (facts : PageFacts) (bytes : List ℕ) (state : PageState) {next : PageState}
    → IsPage facts bytes state
    → page_step facts bytes state ≡ some next
    → IsPage facts bytes next
page_step-IsPage facts bytes state {next} p h =
    let (token, read, accepted) = page_step-parts facts bytes state h in
    accept-IsPage facts bytes state token p accepted

-- The loop stops: at the end of the window, or where its body breaks.
abbrev pub IsStopped : PageFacts → List ℕ → PageState → Type 0
IsStopped facts bytes state =
    (primary_length bytes ≤ state.consumed) ⊎ (page_step facts bytes state ≡ none)

accept-consumed :
    (facts : PageFacts) (bytes : List ℕ) (state : PageState) (token : Token) {next : PageState}
    → accept facts bytes state token ≡ some next
    → next.consumed ≡ state.consumed + token.consumed
unfolding accept
accept-consumed facts bytes state token h = ground arith

pub page_step-consumed :
    (facts : PageFacts) (bytes : List ℕ) (state : PageState) {next : PageState}
    → state.consumed < primary_length bytes
    → page_step facts bytes state ≡ some next
    → state.consumed < next.consumed
page_step-consumed facts bytes state {next} inside h =
    let (token, read, accepted) = page_step-parts facts bytes state h in
    let more = accept-consumed facts bytes state token accepted in
    let some_bytes = utf8_token-bounds bytes state.consumed _ _ (omega arith) read in omega arith

-- What the loop makes of a state.
abbrev pub Reaches : PageFacts → List ℕ → PageState → PageState → Type 0
Reaches facts bytes state last =
    IsPage facts bytes last × (state.consumed ≤ last.consumed) × IsStopped facts bytes last

turn-Reaches :
    (facts : PageFacts) (bytes : List ℕ) (fuel : ℕ) (state : PageState) (next : Option PageState)
    → page_step facts bytes state ≡ next
    → IsPage facts bytes state
    → primary_length bytes ≤ state.consumed + suc fuel
    → state.consumed < primary_length bytes
    → ((s : PageState)
        → IsPage facts bytes s
        → primary_length bytes ≤ s.consumed + fuel
        → Reaches facts bytes s (page_loop facts bytes fuel s))
    → Reaches facts bytes state (elim next [ none ↦ state | some s ↦ page_loop facts bytes fuel s ])
turn-Reaches facts bytes fuel state none h p enough inside rest = (p, omega arith, inr h)
turn-Reaches facts bytes fuel state (some s) h p enough inside rest =
    let further = page_step-consumed facts bytes state inside h in
    let (page, more, stopped) = rest s (page_step-IsPage facts bytes state p h) (omega arith) in
    (page, omega arith, stopped)

pub page_loop-Reaches :
    (facts : PageFacts) (bytes : List ℕ) (fuel : ℕ) (state : PageState)
    → IsPage facts bytes state
    → primary_length bytes ≤ state.consumed + fuel
    → Reaches facts bytes state (page_loop facts bytes fuel state)
unfolding page_loop
page_loop-Reaches facts bytes zero state p enough = (p, omega arith, inl (omega arith))
page_loop-Reaches facts bytes (suc fuel) state p enough =
    elim (Bool-cases (ltb state.consumed (primary_length bytes))) [
      | inr over ↦ rw (page_loop, over) (p, omega arith, inl (ground arith))
      | inl inside ↦
          rw (page_loop, inside)
            (turn-Reaches facts bytes fuel state (page_step facts bytes state) refl p enough
              (ground arith) (λ s q e. page_loop-Reaches facts bytes fuel s q e))
    ]

pub first_state-IsPage : (facts : PageFacts) (bytes : List ℕ) → IsPage facts bytes first_state
first_state-IsPage facts bytes = record {
  counted = sym empty_text;
  fits = omega (arith, metadata-bound facts (facts.offset_bytes + 0));
  inside = omega arith;
  feeds = refl;
  few_lines = omega arith;
  displayable = refl;
}

-- A page that the reader may rely on.
pub record IsBounded (facts : PageFacts) (bytes : List ℕ) (consumed : ℕ) (page : OutputData)
    : Type 0 where
  pub same_facts : page.facts ≡ facts
  pub next : page.next_offset_bytes ≡ facts.offset_bytes + consumed
  pub inside : consumed ≤ length bytes
  pub more : page.has_more ≡ ltb page.next_offset_bytes facts.retained_bytes
  pub fits : serialized_bytes page ≤ output_envelope_limit
  pub few_lines : line_feeds_of page.shown ≤ output_line_limit
  pub displayable : every is_displayable page.shown ≡ true

close_page-success :
    (facts : PageFacts) (bytes : List ℕ) (state : PageState)
    → IsPage facts bytes state
    → let page = page_data facts (facts.offset_bytes + state.consumed) state.shown in
      (close_page facts state ≡ success page) × (serialized_bytes page ≤ output_envelope_limit)
close_page-success facts bytes state p =
    let total = serialized_bytes-shown facts (facts.offset_bytes + state.consumed) state.shown in
    let small : serialized_bytes (page_data facts (facts.offset_bytes + state.consumed) state.shown)
        ≤ output_envelope_limit =
      omega (arith, total, p.counted, p.fits) in
    (ground (arith, small), small)

-- `paginate` always returns a page, never the failure after its loop: the page starts at the
-- offset, ends inside of the bytes it was given, fits the envelope, has at most the allowed line
-- feeds and shows no control character but tab and line feed.
pub paginate-IsBounded :
    (facts : PageFacts) (bytes : List ℕ)
    → (page : OutputData) × (consumed : ℕ) × (paginate facts bytes ≡ success page)
      × IsBounded facts bytes consumed page
unfolding paginate
paginate-IsBounded facts bytes =
    let last = page_loop facts bytes (primary_length bytes) first_state in
    let (p, more, stopped) =
      page_loop-Reaches facts bytes (primary_length bytes) first_state
        (first_state-IsPage facts bytes) (omega arith) in
    let (returned, small) = close_page-success facts bytes last p in
    (
      page_data facts (facts.offset_bytes + last.consumed) last.shown,
      last.consumed,
      returned,
      record {
        same_facts = refl;
        next = refl;
        inside = p.inside;
        more = refl;
        fits = small;
        few_lines = omega (arith, p.feeds, p.few_lines);
        displayable = p.displayable;
      },
    )
