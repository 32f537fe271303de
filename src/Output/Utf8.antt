-- ===== src/Output/Utf8.antt =====
-- src/output.ts: `utf8Token` and `sanitize`. A snapshot is a list of bytes; a token is one code
-- point, and displayed text is a list of code points.
use pi_watch.Base.{
  ℕ, zero, suc, ◌+◌, ◌-◌, ◌*◌, ◌/◌, ◌%◌, ◌≤◌, ◌<◌, max, Bool, true, not, ◌&&◌, ◌||◌, Option, none,
  some, List, [], ◌∷◌, leb, ltb, ◌==◌, if◌then◌else◌, get_elem?, get_or, length, every, ◌≡◌, refl,
  arith, Bool-cases, inl, inr,
}
use pi_watch.JobTypes.Validate.{in_range}

-- `bytes[index] ?? 0`
abbrev pub byte_at : List ℕ → ℕ → ℕ
byte_at bytes index = get_or (get_elem? bytes index) 0

pub record Token : Type 0 where
  pub consumed : ℕ
  pub code_point : ℕ

-- `isContinuation`
abbrev pub is_continuation : ℕ → Bool
is_continuation = in_range 0x80 0xBF

-- The number of bytes that a first byte above 0x7F announces; 0 for a byte that starts nothing.
unfoldable pub width_of : ℕ → ℕ
width_of first =
    if in_range 0xC2 0xDF first
    then 2
    else (if in_range 0xE0 0xEF first then 3 else (if in_range 0xF0 0xF4 first then 4 else 0))

-- `firstContinuationValid`
abbrev pub first_continuation_valid : ℕ → ℕ → ℕ → Bool
first_continuation_valid first offset byte =
    not (offset == 1)
    || ((not (first == 0xE0) || leb 0xA0 byte)
        && ((not (first == 0xED) || leb byte 0x9F)
            && ((not (first == 0xF0) || leb 0x90 byte) && (not (first == 0xF4) || leb byte 0x8F))))

-- The two loops over continuation bytes, from `offset` for `count` bytes: the first offset that is
-- wrong.
unfoldable pub bad_continuation : List ℕ → ℕ → ℕ → ℕ → ℕ → Option ℕ
bad_continuation bytes index first offset zero = none
bad_continuation bytes index first offset (suc count) =
    let byte = byte_at bytes (index + offset) in
    let rest = bad_continuation bytes index first (offset + 1) count in
    if not (is_continuation byte) || not (first_continuation_valid first offset byte)
    then some offset
    else rest

-- `bytes.toString('utf8', index, index + width)` on bytes that passed the loop.
abbrev pub decode : List ℕ → ℕ → ℕ → ℕ
decode bytes index width =
    let b0 = byte_at bytes index in
    let b1 = byte_at bytes (index + 1) % 64 in
    let b2 = byte_at bytes (index + 2) % 64 in
    let b3 = byte_at bytes (index + 3) % 64 in
    if width == 2
    then b0 % 32 * 64 + b1
    else (if width == 3
        then b0 % 16 * 4096 + b1 * 64 + b2
        else b0 % 8 * 262144 + b1 * 4096 + b2 * 64 + b3)

abbrev pub replacement : ℕ
replacement = 0xFFFD

-- The end of a token whose continuation bytes were looked at.
abbrev close_token : Option ℕ → Option Token → Option Token
close_token (some offset) tail = some (record { consumed = max 1 offset; code_point = replacement })
close_token none tail = tail

-- `utf8Token`; `none` is `null`.
unfoldable pub utf8_token : List ℕ → ℕ → Bool → Bool → Option Token
unfolding width_of
utf8_token bytes index snapshot_ends_here can_grow =
    let first = byte_at bytes index in
    let width = width_of first in
    let available = length bytes - index in
    if leb first 0x7F
    then some (record { consumed = 1; code_point = first })
    else (if width == 0
        then some (record { consumed = 1; code_point = replacement })
        else (if ltb available width
            then close_token (bad_continuation bytes index first 1 (available - 1)) (
                if snapshot_ends_here && can_grow
                then none
                else some (record { consumed = available; code_point = replacement }))
            else close_token (bad_continuation bytes index first 1 (width - 1))
                (some (record { consumed = width; code_point = decode bytes index width }))))

abbrev hex_digit : ℕ → ℕ
hex_digit n = if ltb n 10 then n + 48 else n + 87

-- `sanitize`: the escape of a control character is `\r` or `\x` with two digits.
unfoldable pub sanitize : ℕ → List ℕ
sanitize code =
    if code == 0x09 || code == 0x0A
    then code ∷ []
    else (if code == 0x0D
        then b'\\' ∷ b'r' ∷ []
        else (if ltb code 0x20 || in_range 0x7F 0x9F code
            then b'\\' ∷ b'x' ∷ hex_digit (code / 16) ∷ hex_digit (code % 16) ∷ []
            else code ∷ []))

bad_continuation-range :
    (bytes : List ℕ) (index first offset count : ℕ) {k : ℕ}
    → bad_continuation bytes index first offset count ≡ some k
    → (offset ≤ k) × (k < offset + count)
unfolding bad_continuation
bad_continuation-range bytes index first offset zero h = ground arith
bad_continuation-range bytes index first offset (suc count) {k} h =
    ground (arith, bad_continuation-range bytes index first (offset + 1) count {k = k})

close_token-bounds :
    (bad : Option ℕ) (count room : ℕ) {tail : Option Token} {t : Token}
    → ((k : ℕ) → bad ≡ some k → (1 ≤ k) × (k < 1 + count))
    → count < room
    → ((u : Token) → tail ≡ some u → (1 ≤ u.consumed) × (u.consumed ≤ room))
    → close_token bad tail ≡ some t
    → (1 ≤ t.consumed) × (t.consumed ≤ room)
close_token-bounds none count room {tail} {t} range small after h = after t h
close_token-bounds (some k) count room range small after h = ground (arith, range k refl)

-- Inside of the snapshot a token takes at least one byte, and only bytes of the snapshot.
pub utf8_token-bounds :
    (bytes : List ℕ) (index : ℕ) (ends grows : Bool) {t : Token}
    → index < length bytes
    → utf8_token bytes index ends grows ≡ some t
    → (1 ≤ t.consumed) × (index + t.consumed ≤ length bytes)
unfolding utf8_token
utf8_token-bounds bytes index ends grows {t} inside h =
    let first = byte_at bytes index in
    let available = length bytes - index in
    let short =
      close_token-bounds (bad_continuation bytes index first 1 (available - 1)) (available - 1)
        available
        {tail = if ends && grows
          then none
          else some (record { consumed = available; code_point = replacement })}
        {t = t} (λ k e. bad_continuation-range bytes index first 1 (available - 1) {k = k} e)
        (omega arith) (λ u e. ground arith) in
    elim (Bool-cases (width_of first == 0)) [
      | inl unknown_byte ↦ ground (arith, short, unknown_byte)
      | inr known_byte ↦
          let full =
            close_token-bounds (bad_continuation bytes index first 1 (width_of first - 1))
              (width_of first - 1) (width_of first)
              {tail = some (record {
                consumed = width_of first;
                code_point = decode bytes index (width_of first);
              })}
              {t = t}
              (λ k e. bad_continuation-range bytes index first 1 (width_of first - 1) {k = k} e)
              (ground arith) (λ u e. ground arith) in
          ground (arith, short, full, known_byte)
    ]

-- What a page may show: tab, line feed, and no other control character.
abbrev pub is_displayable : ℕ → Bool
is_displayable c = c == 9 || (c == 10 || (in_range 0x20 0x7E c || ltb 0x9F c))

-- Whatever code point a token holds, `sanitize` shows tab, line feed and characters that are no
-- control characters.
pub sanitize-displayable : (code : ℕ) → every is_displayable (sanitize code) ≡ true
unfolding sanitize
sanitize-displayable code = ground arith
