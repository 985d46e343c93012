-- ===== src/Auth.antt =====
-- The identity that internal/auth/auth.go hands to the handlers, the token of a request, and the
-- roles that a token may claim.
pub mod Libraries
pub mod Validators
pub mod Bearer
pub mod Laws
use golden_path_control_plan.Prelude.{
  ℕ, ◌≡◌, String, Bool, true, false, not, ◌||◌, Option, none, some, str_eq, is_blank, trim_space,
  split_two, if◌then◌else◌,
}
use golden_path_control_plan.Fallible.{Fallible, done}
use golden_path_control_plan.Config.Settings.{Platform}
use golden_path_control_plan.Domain.Models.{Role, engineer, platform_admin, unknown_role}

-- A number of nanoseconds since 1970
abbrev pub Instant : Type 0
Instant = ℕ

pub record Principal : Type 0 where
  pub subject : String
  pub role : Role
  pub issuer : String

-- `domain.Role(text)`, and its inverse
unfoldable pub role_of : String → Role
role_of text =
    if str_eq text "engineer"
    then engineer
    else if str_eq text "platform-admin"
    then platform_admin
    else unknown_role text

unfoldable pub role_text : Role → String
role_text engineer = "engineer"
role_text platform_admin = "platform-admin"
role_text (unknown_role text) = text

abbrev pub is_known : Role → Bool
is_known engineer = true
is_known platform_admin = true
is_known (unknown_role text) = false

-- The interface `Validator`, at an instant: it returns only principals with a known role.
pub record TokenValidator : Type 0 where
  pub validate : Instant → String → Fallible Principal
  pub is_known_role :
      (t : Instant) (raw : String) (p : Principal)
      → validate t raw ≡ done p
      → is_known p.role ≡ true

abbrev pub token_part : Platform → Option (String × String) → Option String
token_part os none = none
token_part os (some (scheme, rest)) =
    if not (os.equal_fold scheme "Bearer") || is_blank rest then none else some (trim_space rest)

-- ParseBearerToken, with `none` for ErrUnauthorized
unfoldable pub parse_bearer_token : Platform → String → Option String
parse_bearer_token os header =
    let value = trim_space header in
    if str_eq value "" then none else token_part os (split_two " " value)
