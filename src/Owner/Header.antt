-- ===== src/Owner/Header.antt =====
-- src/owner.ts: the identity that a session header gives.
use pi_watch.Base.{
  ℕ, Text, text, ◌⊎◌, refl, true, Option, none, some, List, [], ◌∷◌, ◌≡◌, arith, Option-cases, inl,
  inr,
}
use pi_watch.JobTypes.Validate.{JsValue, string, is_lower_hex, matches_uuid}
use pi_watch.JobTypes.Identity.{matches_uuid-to_lower_case}
use pi_watch.Evidence.Validate.{property}
use pi_watch.Capture.Receipt.{Parsed, no_object, entries}
use pi_watch.Owner.Validate.{
  trim, header_id, session_id, first_header, split_lines, default_session_header_reader,
}

header_id-matches_uuid :
    (value : Option JsValue) {id : Text}
    → header_id value ≡ some id
    → matches_uuid is_lower_hex id ≡ true
header_id-matches_uuid none {id} h = ground (arith, h)
header_id-matches_uuid (some (string t)) {id} h = ground (arith, h, matches_uuid-to_lower_case t)
header_id-matches_uuid (some value) {id} h = ground (arith, h)

session_id-matches_uuid :
    (value : Option Parsed) {id : Text}
    → session_id value ≡ some id
    → matches_uuid is_lower_hex id ≡ true
unfolding session_id
session_id-matches_uuid none {id} h = ground (arith, h)
session_id-matches_uuid (some no_object) {id} h = ground (arith, h)
session_id-matches_uuid (some (entries members)) {id} h =
    ground (arith, h, header_id-matches_uuid (property (text "id") members) {id = id})

trim-cases : (t : Text) → (t ≡ []) ⊎ ((c : ℕ) × (rest : Text) × (t ≡ c ∷ rest))
trim-cases [] = inl refl
trim-cases (c ∷ rest) = inr (c, rest, refl)

first_header-matches_uuid :
    (json_parse : Text → Option Parsed) (lines : List Text) {id : Text}
    → first_header json_parse lines ≡ some id
    → matches_uuid is_lower_hex id ≡ true
unfolding first_header
first_header-matches_uuid json_parse [] {id} h = ground (arith, h)
first_header-matches_uuid json_parse (line ∷ lines) {id} h = elim (trim-cases (trim line)) [
  | inl blank ↦ ground (arith, h, blank, first_header-matches_uuid json_parse lines {id = id})
  | inr (c, t, rest) ↦
      ground (arith, h, rest, session_id-matches_uuid (json_parse (c ∷ t)) {id = id})
]

-- Whatever the file holds and `JSON.parse` returns, the reader of session headers gives a UUID in
-- lower case, or nothing.
pub default_session_header_reader-matches_uuid :
    (json_parse : Text → Option Parsed) (first_chunk : Text → Option Text) (path : Text) {id : Text}
    → default_session_header_reader json_parse first_chunk path ≡ some id
    → matches_uuid is_lower_hex id ≡ true
unfolding default_session_header_reader
default_session_header_reader-matches_uuid json_parse first_chunk path {id} h =
    elim (Option-cases (first_chunk path)) [
      | inl unread ↦ ground (arith, h, unread)
      | inr (chunk, read) ↦
          ground
            (arith, h, read, first_header-matches_uuid json_parse (split_lines chunk) {id = id})
    ]
