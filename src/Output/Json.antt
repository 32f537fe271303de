-- ===== src/Output/Json.antt =====
-- src/output.ts: `serializedBytes`, the length in UTF-8 of what `JSON.stringify` returns.
use pi_watch.Base.{
  ℕ, zero, suc, ◌+◌, ◌/◌, ◌≤◌, Bool, ◌||◌, List, [], ◌∷◌, ◌++◌, ltb, ◌==◌, if◌then◌else◌, ◌≡◌,
  arith,
}
use pi_watch.JobTypes.Validate.{in_range}

mutual
  pub data Json : Type 0 where
    number : ℕ → Json
    boolean : Bool → Json
    string : List ℕ → Json
    object : Fields → Json

  -- The members of an object, each with its key.
  pub data Fields : Type 0 where
    no_fields : Fields
    field : List ℕ → Json → Fields → Fields

-- The length of a code point in UTF-8.
abbrev pub utf8_bytes : ℕ → ℕ
utf8_bytes c =
    if ltb c 0x80 then 1 else (if ltb c 0x800 then 2 else (if ltb c 0x10000 then 3 else 4))

-- A code point of a string: `\"`, `\\` and the five short escapes, `\u` with four digits for other
-- control characters, or itself.
unfoldable pub json_unit_bytes : ℕ → ℕ
json_unit_bytes c =
    if c == b'"' || (c == b'\\' || (in_range 8 10 c || in_range 12 13 c))
    then 2
    else (if ltb c 0x20 then 6 else utf8_bytes c)

unfoldable pub json_text_bytes : List ℕ → ℕ
json_text_bytes [] = 0
json_text_bytes (c ∷ t) = json_unit_bytes c + json_text_bytes t

-- The digits of a number; sixteen hold every safe integer.
unfoldable pub decimal_bytes : ℕ → ℕ → ℕ
decimal_bytes zero n = 1
decimal_bytes (suc fuel) n =
    let rest = decimal_bytes fuel (n / 10) in if ltb n 10 then 1 else 1 + rest

unfoldable mutual
  pub json_bytes : Json → ℕ
  json_bytes (number n) = decimal_bytes 16 n
  json_bytes (boolean b) = if b then 4 else 5
  json_bytes (string t) = json_text_bytes t + 2
  json_bytes (object no_fields) = 2
  json_bytes (object (field key value rest)) =
      json_text_bytes key + 2 + 1 + json_bytes value + more_bytes rest + 2

  -- The members after the first, each behind its comma.
  more_bytes : Fields → ℕ
  more_bytes no_fields = 0
  more_bytes (field key value rest) =
      1 + (json_text_bytes key + 2 + 1 + json_bytes value) + more_bytes rest

pub json_text_bytes-append :
    (s t : List ℕ) → json_text_bytes (s ++ t) ≡ json_text_bytes s + json_text_bytes t
unfolding json_text_bytes
json_text_bytes-append [] t = omega arith
json_text_bytes-append (c ∷ s) t = ground (arith, json_text_bytes-append s t)

pub decimal_bytes-bound : (fuel n : ℕ) → decimal_bytes fuel n ≤ fuel + 1
unfolding decimal_bytes
decimal_bytes-bound zero n = omega arith
decimal_bytes-bound (suc fuel) n = ground (arith, decimal_bytes-bound fuel (n / 10))
