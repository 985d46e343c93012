-- ===== src/Cli/Tokens.antt =====
-- `issueOIDCToken` of cmd/cli/main.go.
use golden_path_control_plan.Prelude.{
  String, ◌<>◌, [], ◌∷◌, List, is_blank, trim_space, decimal, not, ◌==◌, if◌then◌else◌,
}
use golden_path_control_plan.Stateful.{◌>>=◌, ◌>>◌, check, lift}
use golden_path_control_plan.Fallible.{Fallible, done, failed, prefixed}
use golden_path_control_plan.Config.Settings.{Platform, AuthConfig}
use golden_path_control_plan.Domain.Models.{Role, engineer, platform_admin, unknown_role}
use golden_path_control_plan.Domain.Validation.{fail_if}
use golden_path_control_plan.Auth.{role_text}
use golden_path_control_plan.Devoidc.{trim_slash}
use golden_path_control_plan.Cli.Shell.{HttpRequest, HttpResponse, Tools, TokenPayload, Run, send}
use golden_path_control_plan.Cli.Requests.{get_request, post_form_request}

-- fmt.Errorf(prefix + "%w", err) for the error of an exchange
unfoldable pub fetch : Tools → String → HttpRequest → Run HttpResponse
unfolding send
fetch tools prefix r s = let (response, s') = send tools r s in (prefixed prefix response, s')

unfoldable pub oidc_client_id_for_role : Platform → Role → Fallible String
oidc_client_id_for_role os engineer = done "golden-path-engineer"
oidc_client_id_for_role os platform_admin = done "golden-path-platform-admin"
oidc_client_id_for_role os (unknown_role text) =
    failed ("cli: unsupported role " <> os.quote (role_text (unknown_role text)))

unfoldable pub token_form : String → String → List (String × String)
token_form client_id subject =
    ("grant_type", "client_credentials")
    ∷ ("client_id", client_id)
    ∷ (if is_blank subject then [] else ("subject", subject) ∷ [])

unfoldable pub choose_token : TokenPayload → Fallible String
choose_token payload =
    if not (is_blank payload.id_token)
    then done payload.id_token
    else if not (is_blank payload.access_token)
    then done payload.access_token
    else failed "cli: oidc token response did not include a token"

unfoldable pub discovery_url : AuthConfig → String
discovery_url cfg = trim_slash cfg.oidc_issuer_url <> "/.well-known/openid-configuration"

unfoldable pub fetch_endpoint : Tools → AuthConfig → Run String
unfolding fetch discovery_url
fetch_endpoint tools cfg = do
  response ← fetch tools "cli: fetch oidc discovery document: " (get_request (discovery_url cfg))
  check (
      fail_if (not (response.status == 200))
        ("cli: discovery endpoint returned status " <> decimal response.status))
  endpoint ←
      lift (prefixed "cli: decode oidc discovery document: " (tools.decode_discovery response))
  check (fail_if (is_blank endpoint) "cli: discovery document did not contain token_endpoint")
  lift (done endpoint)

unfoldable pub fetch_token : Tools → String → String → String → Run String
unfolding fetch token_form choose_token
fetch_token tools endpoint client_id subject = do
  response ←
      fetch tools "cli: fetch oidc token: "
        (post_form_request endpoint (token_form client_id subject))
  check (
      fail_if (not (response.status == 200)) (
        "cli: token endpoint returned status "
        <> decimal response.status
        <> ": "
        <> trim_space response.text))
  payload ← lift (prefixed "cli: decode oidc token response: " (tools.decode_tokens response))
  lift (choose_token payload)

unfoldable pub issue_oidc_token : Platform → Tools → AuthConfig → String → Role → Run String
unfolding fetch_endpoint fetch_token oidc_client_id_for_role
issue_oidc_token os tools cfg subject role = do
  endpoint ← fetch_endpoint tools cfg
  client_id ← lift (oidc_client_id_for_role os role)
  fetch_token tools endpoint client_id subject
