-- ===== src/Tests/JobTypes.antt =====
-- A candidate identity in upper case.
use pi_watch.Base.{Text, text, true, [], ◌≡◌, refl}
use pi_watch.JobTypes.Errors.{ok}
use pi_watch.JobTypes.Validate.{
  string, is_lower_hex, skip_run, matches_uuid, to_lower_case, allocate_reservation_id,
}
use pi_watch.JobTypes.Identity.{allocate_reservation_id-matches_uuid}

abbrev candidate : Text
candidate = text "ABCDEF22-2222-4222-8222-22222222222A"

abbrev identity : Text
identity = text "abcdef22-2222-4222-8222-22222222222a"

allocated : allocate_reservation_id [] (string candidate) ≡ ok identity
unfolding allocate_reservation_id matches_uuid skip_run
allocated = refl

allocate_reservation_id-matches_uuid_example :
    (matches_uuid is_lower_hex identity ≡ true) × (identity ≡ to_lower_case candidate)
allocate_reservation_id-matches_uuid_example =
    allocate_reservation_id-matches_uuid [] candidate allocated
