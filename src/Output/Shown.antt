-- ===== src/Output/Shown.antt =====
-- src/output.ts: what the text of a page of `paginate` is.
use pi_watch.Base.{
  ℕ, zero, suc, ◌+◌, some, List, [], ◌++◌, ltb, ◌≡◌, arith, Bool-cases, Option-cases, inl, inr,
}
use pi_watch.Output.Utf8.{Token, utf8_token, sanitize}
use pi_watch.Output.Page.{
  PageFacts, PageState, OutputData, success, first_state, accept, page_step, page_loop,
  primary_length, ends_here, close_page, paginate,
}
use pi_watch.Output.Bounds.{page_step-parts}

-- The first so many bytes, taken token by token, are shown as this text: the displayed form of each
-- of their code points, in their order.
pub data Shows (facts : PageFacts) (bytes : List ℕ) : ℕ → List ℕ → Type 0 where
  nothing : Shows facts bytes 0 []
  further :
      {consumed : ℕ} {shown : List ℕ} (token : Token)
      → utf8_token bytes consumed (ends_here facts bytes) facts.can_grow ≡ some token
      → Shows facts bytes consumed shown
      → Shows facts bytes (consumed + token.consumed) (shown ++ sanitize token.code_point)

accept-shown :
    (facts : PageFacts) (bytes : List ℕ) (state : PageState) (token : Token) {next : PageState}
    → accept facts bytes state token ≡ some next
    → (next.consumed ≡ state.consumed + token.consumed)
      × (next.shown ≡ state.shown ++ sanitize token.code_point)
unfolding accept
accept-shown facts bytes state token h = ground arith

page_step-Shows :
    (facts : PageFacts) (bytes : List ℕ) (state : PageState) {next : PageState}
    → page_step facts bytes state ≡ some next
    → Shows facts bytes state.consumed state.shown
    → Shows facts bytes next.consumed next.shown
page_step-Shows facts bytes state {next} h s =
    let (token, read, accepted) = page_step-parts facts bytes state h in
    let (consumed, shown) = accept-shown facts bytes state token accepted in
    rw (consumed, shown) (further token read s)

page_loop-Shows :
    (facts : PageFacts) (bytes : List ℕ) (fuel : ℕ) (state : PageState)
    → Shows facts bytes state.consumed state.shown
    → let last = page_loop facts bytes fuel state in Shows facts bytes last.consumed last.shown
unfolding page_loop
page_loop-Shows facts bytes zero state s = s
page_loop-Shows facts bytes (suc fuel) state s =
    elim (Bool-cases (ltb state.consumed (primary_length bytes))) [
      | inr over ↦ rw (page_loop, over) s
      | inl inside ↦ elim (Option-cases (page_step facts bytes state)) [
        | inl stuck ↦ rw (page_loop, inside, stuck) s
        | inr (next, stepped) ↦
            rw (page_loop, inside, stepped)
              (page_loop-Shows facts bytes fuel next (page_step-Shows facts bytes state stepped s))
      ]
    ]

close_page-parts :
    (facts : PageFacts) (state : PageState) {page : OutputData}
    → close_page facts state ≡ success page
    → (page.next_offset_bytes ≡ facts.offset_bytes + state.consumed) × (page.shown ≡ state.shown)
close_page-parts facts state h = ground arith

-- The text of a page shows the bytes that the page consumed.
pub paginate-Shows :
    (facts : PageFacts) (bytes : List ℕ) {page : OutputData} (consumed : ℕ)
    → paginate facts bytes ≡ success page
    → page.next_offset_bytes ≡ facts.offset_bytes + consumed
    → Shows facts bytes consumed page.shown
unfolding paginate
paginate-Shows facts bytes {page} consumed h next =
    let last = page_loop facts bytes (primary_length bytes) first_state in
    let shown = page_loop-Shows facts bytes (primary_length bytes) first_state nothing in
    let (same, text) = close_page-parts facts last h in
    let equal : consumed ≡ last.consumed = omega (arith, same, next) in rw (text, equal) shown
