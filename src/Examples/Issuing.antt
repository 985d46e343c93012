-- ===== src/Examples/Issuing.antt =====
-- A token of the development issuer, under a library that knows one token.
use golden_path_control_plan.Prelude.{
  ◌≡◌, refl, String, none, str_eq, trim_space, if◌then◌else◌, pos,
}
use golden_path_control_plan.Fallible.{done, failed, ◌>>=◌}
use golden_path_control_plan.Domain.Models.{engineer}
use golden_path_control_plan.Config.Settings.{seconds}
use golden_path_control_plan.Auth.{role_text}
use golden_path_control_plan.Auth.Libraries.{Oidc}
use golden_path_control_plan.Devoidc.{clients_of, new_issuer, map_claims}
use golden_path_control_plan.Devoidc.Settings.{
  IssuerConfig, ClientDefinition, Signer, Issuer, FormRequest,
}
use golden_path_control_plan.Devoidc.Laws.{Verifies, asked}

abbrev pub config : IssuerConfig
config = record {
  addr = "";
  issuer_url = "";
  audience = "";
  token_ttl = pos 0;
  engineer_subject = "";
  platform_admin_subject = "";
}

abbrev pub signer : Signer
signer = record {
  PrivateKey = String;
  generate_key = done "key";
  key_id = λ k. "kid";
  modulus = λ k. "n";
  exponent = λ k. "AQAB";
  signed_string = λ k kid claims. done "signed";
  parse_url = λ u. none;
}

abbrev pub oidc : Oidc
oidc = record {
  Context = Unit {0};
  Provider = String;
  KeySet = String;
  Verifier = String;
  IdToken = String;
  insecure_issuer_url_context = λ c u. c;
  new_remote_key_set = λ c u. u;
  new_verifier = λ u k a. u;
  new_provider = λ c u. done u;
  provider_verifier = λ p a. p;
  verify = λ v t raw. if str_eq raw "signed" then done raw else failed "no such token";
  token_claims = λ t. done record {
    oidc_role = "engineer";
    sub = "developer@example.com";
    iss = "http://localhost:9000";
  };
}

abbrev settings : IssuerConfig
settings = record {
  addr = ":9000";
  issuer_url = "http://localhost:9000";
  audience = "golden-path-control-plane";
  token_ttl = seconds 3600;
  engineer_subject = "developer@example.com";
  platform_admin_subject = "platform-admin@example.com";
}

abbrev pub issuer : Issuer signer
issuer = record { cfg = settings; private_key = "key"; kid = "kid"; clients = clients_of settings }

abbrev client : ClientDefinition
client = record {
  client_id = "golden-path-engineer";
  default_subject = "developer@example.com";
  client_role = engineer;
}

abbrev form : String → String
form key =
    if str_eq key "grant_type"
    then "client_credentials"
    else if str_eq key "client_id"
    then " golden-path-engineer "
    else ""

abbrev request : FormRequest
request = record { method = "POST"; form = done form }

pub created : new_issuer signer config ≡ done issuer
unfolding new_issuer ◌>>=◌ trim_space clients_of
created = refl

verifies :
    Verifies signer oidc issuer "keys"
      (map_claims signer issuer (asked signer issuer client form) 100000000000000)
unfolding map_claims trim_space role_text
verifies = record {
  raw = "signed";
  signed = refl;
  accepted = λ url audience t current. ("signed", refl, refl);
}
