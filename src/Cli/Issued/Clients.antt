-- ===== src/Cli/Issued/Clients.antt =====
-- The clients of internal/devoidc that `oidcClientIDForRole` of cmd/cli/main.go names, and their subjects.
use golden_path_control_plan.Prelude.{
  String, some, ◌≡◌, refl, true, false, str_eq, trim_space, is_blank, find?, if◌then◌else◌,
  Bool-cases, inl, inr,
}
use golden_path_control_plan.Fallible.{done, Yields, Yields-insist, Yields-any, Yields-done}
use golden_path_control_plan.Config.Settings.{Platform}
use golden_path_control_plan.Domain.Models.{Role, engineer, platform_admin, unknown_role}
use golden_path_control_plan.Auth.{is_known}
use golden_path_control_plan.Devoidc.{new_issuer, clients_of, with_defaults, unless_blank}
use golden_path_control_plan.Devoidc.Settings.{IssuerConfig, ClientDefinition, Signer}
use golden_path_control_plan.Cli.Shell.{value_of}
use golden_path_control_plan.Cli.Tokens.{oidc_client_id_for_role, token_form}

-- The client of a role, and the subject that its token is for
abbrev pub client_id_of : Role → String
client_id_of engineer = "golden-path-engineer"
client_id_of _ = "golden-path-platform-admin"

abbrev pub default_subject_of : IssuerConfig → Role → String
default_subject_of c engineer = c.engineer_subject
default_subject_of c _ = c.platform_admin_subject

abbrev pub client_for : IssuerConfig → Role → ClientDefinition
client_for c r = record {
  client_id = client_id_of r;
  default_subject = default_subject_of c r;
  client_role = r;
}

module _ (os : Platform) where
  pub client_id_lem :
      (r : Role) → is_known r ≡ true → oidc_client_id_for_role os r ≡ done (client_id_of r)
  unfolding oidc_client_id_for_role
  client_id_lem engineer h = refl
  client_id_lem platform_admin h = refl
  client_id_lem (unknown_role t) h = cc

pub known_client :
    (c : IssuerConfig) (r : Role)
    → is_known r ≡ true
    → find? (λ d. str_eq d.client_id (trim_space (client_id_of r))) (clients_of c)
      ≡ some (client_for c r)
unfolding clients_of trim_space
known_client c engineer h = refl
known_client c platform_admin h = refl
known_client c (unknown_role t) h = cc

unless_blank-filled :
    (v fallback : String) → is_blank fallback ≡ false → is_blank (unless_blank v fallback) ≡ false
unless_blank-filled v fallback h = elim (Bool-cases (is_blank v)) [
  | inl b ↦ rw b h
  | inr b ↦ rw b b
]

abbrev pub SubjectsFilled : IssuerConfig → Type 0
SubjectsFilled c =
    (is_blank c.engineer_subject ≡ false) × (is_blank c.platform_admin_subject ≡ false)

pub new_issuer-SubjectsFilled :
    (signer : Signer) (c : IssuerConfig) → Yields (new_issuer signer c) (λ i. SubjectsFilled i.cfg)
unfolding new_issuer with_defaults trim_space
new_issuer-SubjectsFilled signer c = Yields-insist _ λ u. Yields-any _ λ key _. Yields-done (
  unless_blank-filled c.engineer_subject _ refl,
  unless_blank-filled c.platform_admin_subject _ refl,
)

pub default-filled :
    (c : IssuerConfig) (r : Role) → SubjectsFilled c → is_blank (default_subject_of c r) ≡ false
default-filled c engineer h = h.0
default-filled c platform_admin h = h.1
default-filled c (unknown_role t) h = h.1

pub asked_subject :
    (id subject : String)
    → value_of "subject" (token_form id subject) ≡ (if is_blank subject then "" else subject)
unfolding token_form
asked_subject id subject = elim (Bool-cases (is_blank subject)) [
  | inl b ↦ rw b refl
  | inr b ↦ rw b refl
]
