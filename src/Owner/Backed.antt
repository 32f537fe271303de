-- ===== src/Owner/Backed.antt =====
-- src/owner.ts: an owner that is accepted is backed by a session file.
use pi_watch.Base.{
  Text, text_eq, text_eq→eq, text_eq_refl, Bool, true, Option, none, some, ◌≡◌, ◌↔◌, arith,
  Option-cases, inl, inr,
}
use pi_watch.JobTypes.Errors.{Thrown, ok, err, store_error, StoreErrorCode, owner_rejected}
use pi_watch.JobTypes.Validate.{
  JsValue, string, is_hex, matches_uuid, to_lower_case, is_well_formed_non_empty,
}
use pi_watch.Owner.Validate.{validate_session, validate_owner}

-- The identity is a UUID, and the file at the path is a regular file whose header has it.
pub record IsBacked (is_file : Text → Bool) (reader : Text → Option Text) (owner path id : Text)
    : Type 0 where
  pub uuid : matches_uuid is_hex owner ≡ true
  pub well_formed : is_well_formed_non_empty path ≡ true
  pub regular : is_file path ≡ true
  pub header : reader path ≡ some id
  pub same : to_lower_case id ≡ to_lower_case owner

same_text :
    (id owner : Text)
    → to_lower_case id ≡ to_lower_case owner
    → text_eq (to_lower_case id) (to_lower_case owner) ≡ true
same_text id owner h = rw h (text_eq_refl (to_lower_case owner))

-- The code of a `StoreError`.
abbrev pub code_of : Thrown → Option StoreErrorCode
code_of (store_error code message) = some code
code_of _ = none

-- An identity is accepted exactly if it is a UUID and its path leads to a regular file whose
-- header has the same identity, up to case.
pub validate_owner-IsBacked :
    (is_file : Text → Bool) (reader : Text → Option Text) (owner path : Text)
    → (validate_owner is_file reader (string owner) (string path) ≡ ok tt)
      ↔ ((id : Text) × IsBacked is_file reader owner path id)
unfolding validate_owner validate_session
validate_owner-IsBacked is_file reader owner path = (
  λ h. elim (Option-cases (reader path)) [
    | inl unread ↦ (owner, ground (arith, h, unread))
    | inr (id, read) ↦
        (id, ground (arith, h, read, text_eq→eq (to_lower_case id) (to_lower_case owner)))
  ],
  λ (id, b). ground (arith, b, same_text id owner b.same),
)

-- Whatever is handed over, an identity that is not accepted is refused with OWNER_REJECTED.
pub validate_owner-error :
    (is_file : Text → Bool) (reader : Text → Option Text) (owner session_path : JsValue)
    {e : Thrown}
    → validate_owner is_file reader owner session_path ≡ err e
    → code_of e ≡ some owner_rejected
unfolding validate_owner validate_session
validate_owner-error is_file reader owner session_path {e} h = ground (arith, h)
