-- ===== src/Cli/Issued.antt =====
-- `issueOIDCToken` of cmd/cli/main.go against the issuer of internal/devoidc: the token that it fetches
-- is one that internal/auth/oidc.go accepts.
pub mod Clients
use golden_path_control_plan.Prelude.{
  String, ◌<>◌, List, some, ◌≡◌, true, trim_space, is_blank, if◌then◌else◌,
}
use golden_path_control_plan.Fallible.{done, Yields, Yields-insist, Yields-any, Yields-done}
use golden_path_control_plan.Config.Settings.{Platform, AuthConfig}
use golden_path_control_plan.Domain.Models.{Role, engineer, platform_admin, unknown_role}
use golden_path_control_plan.Auth.{Instant, is_known}
use golden_path_control_plan.Devoidc.{
  new_issuer, handler, trim_slash, issued, clients_of, with_defaults, unless_blank,
}
use golden_path_control_plan.Devoidc.Settings.{
  IssuerConfig, ClientDefinition, Signer, Issuer, FormRequest, Answer, DiscoveryDocument,
  discovery_document, status_of,
}
use golden_path_control_plan.Cli.Shell.{Content, form, HttpRequest, HttpResponse, Tools, value_of}
use golden_path_control_plan.Cli.Requests.{get_request, post_form_request}
use golden_path_control_plan.Cli.Tokens.{oidc_client_id_for_role, token_form, discovery_url}
use Clients.{client_id_of, client_for}

abbrev pub values_of : Content → String → String
values_of (form values) key = value_of key values
values_of other key = ""

-- What net/http makes of a request for the issuer
abbrev pub received : HttpRequest → FormRequest
received r = record { method = r.method; form = done (values_of r.content) }

-- The network takes the requests under the issuer's URL to its handler, at one time, and brings the
-- handler's answers back as JSON.
pub record Reaches (tools : Tools) (signer : Signer) (issuer : Issuer signer) (now : Instant)
    : Type 0 where
  pub carry : Answer → HttpResponse
  pub carried_status : (a : Answer) → (carry a).status ≡ status_of a
  pub decoded_discovery :
      (d : DiscoveryDocument)
      → tools.decode_discovery (carry (discovery_document d)) ≡ done d.token_endpoint
  pub decoded_tokens :
      (raw : String)
      → tools.decode_tokens (carry (issued signer issuer (done raw)))
        ≡ done record { access_token = raw; id_token = raw }
  pub answered :
      (before : List HttpRequest) (r : HttpRequest) (path : String) (a : Answer)
      → r.url ≡ trim_slash issuer.cfg.issuer_url <> path
      → handler signer issuer path (received r) now ≡ some a
      → tools.network before r ≡ done (carry a)

module _ (os : Platform) (tools : Tools) (signer : Signer) (issuer : Issuer signer) (now : Instant)
    (reaches : Reaches tools signer issuer now) (cfg : AuthConfig)
    (same_url : cfg.oidc_issuer_url ≡ issuer.cfg.issuer_url) where
  abbrev pub endpoint : String
  endpoint = trim_slash issuer.cfg.issuer_url <> "/token"

  abbrev pub asked_first : HttpRequest
  asked_first = get_request (discovery_url cfg)

  -- What the issuer is asked for, and by whom
  module _ (config : IssuerConfig) (new : new_issuer signer config ≡ done issuer) (role : Role)
      (known : is_known role ≡ true) (subject : String) where
    abbrev pub client : ClientDefinition
    client = client_for issuer.cfg role

    abbrev pub given : List (String × String)
    given = token_form (client_id_of role) subject

    abbrev pub asked_then : HttpRequest
    asked_then = post_form_request endpoint given

    -- The subject that the token is for
    abbrev pub subject_of : String
    subject_of = if is_blank subject then trim_space client.default_subject else trim_space subject
