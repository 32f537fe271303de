-- ===== src/JobTypes/Identity.antt =====
-- src/job-types.ts: the identity that `allocateReservationId` returns for a candidate.
use pi_watch.Base.{ℕ, zero, suc, Text, Bool, true, Option, none, some, [], ◌∷◌, ◌≡◌, refl, arith}
use pi_watch.JobTypes.Errors.{ok}
use pi_watch.JobTypes.Validate.{
  string, is_lower_hex, is_hex, skip_run, chain_run, dash, is_end, matches_uuid, lower_unit,
  to_lower_case, allocate_reservation_id,
}

abbrev lower_rest : Option Text → Option Text
lower_rest none = none
lower_rest (some t) = some (to_lower_case t)

-- What a class accepts another accepts in lower case, and they accept no more.
abbrev Lowers : (ℕ → Bool) → (ℕ → Bool) → Type 0
Lowers p q = (c : ℕ) → q (lower_unit c) ≡ p c

skip_run-to_lower_case :
    (p q : ℕ → Bool) (lowers : Lowers p q) (n : ℕ) (t : Text)
    → skip_run q n (to_lower_case t) ≡ lower_rest (skip_run p n t)
unfolding skip_run
skip_run-to_lower_case p q lowers zero t = refl
skip_run-to_lower_case p q lowers (suc n) [] = refl
skip_run-to_lower_case p q lowers (suc n) (c ∷ t) =
    ground (arith, lowers c, skip_run-to_lower_case p q lowers n t)

chain_run-lower_rest :
    (p q : ℕ → Bool) (lowers : Lowers p q) (n : ℕ) (t : Option Text)
    → chain_run (lower_rest t) q n ≡ lower_rest (chain_run t p n)
chain_run-lower_rest p q lowers n none = refl
chain_run-lower_rest p q lowers n (some t) = skip_run-to_lower_case p q lowers n t

hex-Lowers : Lowers is_hex is_lower_hex
hex-Lowers c = ground arith

dash-Lowers : Lowers dash dash
dash-Lowers c = ground arith

is_end-lower_rest : (t : Option Text) → is_end (lower_rest t) ≡ is_end t
is_end-lower_rest none = refl
is_end-lower_rest (some []) = refl
is_end-lower_rest (some (c ∷ t)) = refl

pub matches_uuid-to_lower_case :
    (t : Text) → matches_uuid is_lower_hex (to_lower_case t) ≡ matches_uuid is_hex t
unfolding matches_uuid
matches_uuid-to_lower_case t = simp (
  skip_run-to_lower_case is_hex is_lower_hex hex-Lowers,
  chain_run-lower_rest is_hex is_lower_hex hex-Lowers,
  chain_run-lower_rest dash dash dash-Lowers,
  is_end-lower_rest,
)

-- The identity allocated for a candidate is a UUID in lower case, and the candidate itself in
-- lower case.
pub allocate_reservation_id-matches_uuid :
    (fresh candidate : Text) {id : Text}
    → allocate_reservation_id fresh (string candidate) ≡ ok id
    → (matches_uuid is_lower_hex id ≡ true) × (id ≡ to_lower_case candidate)
unfolding allocate_reservation_id
allocate_reservation_id-matches_uuid fresh candidate h =
    ground (arith, matches_uuid-to_lower_case candidate)
