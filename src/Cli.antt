-- ===== src/Cli.antt =====
-- cmd/cli/main.go: the client of the command line.
pub mod Shell
pub mod Requests
pub mod Tokens
pub mod Laws
pub mod Issued
use golden_path_control_plan.Prelude.{
  ℕ, String, ◌<>◌, [], ◌∷◌, List, str_eq, is_blank, if◌then◌else◌,
}
use golden_path_control_plan.Stateful.{◌>>=◌, ◌>>◌, check, lift}
use golden_path_control_plan.Fallible.{Fallible, done, failed, prefixed}
use golden_path_control_plan.Config.Settings.{Platform, AuthConfig, seconds}
use golden_path_control_plan.Config.{load_token_issuer_config}
use golden_path_control_plan.Domain.Models.{Role}
use golden_path_control_plan.Domain.Validation.{fail_if}
use golden_path_control_plan.Auth.{Instant, role_of}
use golden_path_control_plan.Auth.Libraries.{Jwt}
use golden_path_control_plan.Auth.Validators.{issue_hmac_token}
use Shell.{no_content, json, text_flag, duration_flag, Tools, Terminal, FlagValues, Run, print_line}
use Requests.{do_request}
use Tokens.{issue_oidc_token}

abbrev usage_text : String
usage_text =
    "usage:\n" <> "  cli token --subject developer@example.com --role engineer\n"
    <> "  cli register-service --file ./service.json\n" <> "  cli scorecard --service-id <uuid>\n"
    <> "  cli queue-evaluation --service-id <uuid>\n"
    <> "  cli create-candidate --service-id <uuid> --environment production"
    <> " --version v1.0.0 --commit-sha abc123" <> " --requested-by developer@example.com\n"
    <> "  cli evaluate-candidate --candidate-id <uuid>"

module _ (os : Platform) (jwt : Jwt) (tools : Tools) (now : Instant) where
  -- the switch over `cfg.Auth.Mode`
  unfoldable pub token_by_mode : AuthConfig → FlagValues → Run String
  unfolding issue_oidc_token
  token_by_mode cfg flags =
      let subject = flags.text_of "subject" in
      let role = role_of (flags.text_of "role") in
      if str_eq cfg.mode "hmac"
      then lift (issue_hmac_token os jwt cfg subject role (flags.duration_of "ttl") now)
      else if str_eq cfg.mode "oidc"
      then issue_oidc_token os tools cfg subject role
      else lift (failed ("unsupported auth mode " <> os.quote cfg.mode))

  unfoldable pub run_token : List String → Run (Unit {0})
  unfolding token_by_mode print_line
  run_token args = do
    flags ← lift (
        tools.parse_flags "token"
          (text_flag "subject" "developer@example.com" "token subject"
            ∷ text_flag "role" "engineer" "role: engineer|platform-admin"
            ∷ duration_flag "ttl" (seconds 3600) "token lifetime"
            ∷ [])
          args)
    cfg ← lift (load_token_issuer_config os)
    token ← token_by_mode cfg.issuer_auth flags
    print_line token

  unfoldable pub run_register_service : List String → Run (Unit {0})
  unfolding do_request
  run_register_service args = do
    flags ← lift (
        tools.parse_flags "register-service"
          (text_flag "file" "" "path to service JSON payload" ∷ []) args)
    check (fail_if (is_blank (flags.text_of "file")) "register-service: --file is required")
    body ← lift (prefixed "register-service: read file: " (tools.read_file (flags.text_of "file")))
    do_request os tools "POST" "/v1/services" (json body)

  unfoldable pub run_create_candidate : List String → Run (Unit {0})
  unfolding do_request
  run_create_candidate args = do
    flags ← lift (
        tools.parse_flags "create-candidate"
          (text_flag "service-id" "" "service UUID"
            ∷ text_flag "environment" "production" "deployment environment"
            ∷ text_flag "version" "" "release version"
            ∷ text_flag "commit-sha" "" "commit sha"
            ∷ text_flag "requested-by" "developer@example.com" "requester email"
            ∷ [])
          args)
    id ← lift (
        prefixed "create-candidate: invalid service-id: "
          (tools.parse_uuid (flags.text_of "service-id")))
    body ← lift (
        tools.marshal_candidate record {
          service_id = id;
          environment = flags.text_of "environment";
          version = flags.text_of "version";
          commit_sha = flags.text_of "commit-sha";
          requested_by = flags.text_of "requested-by";
        })
    do_request os tools "POST" "/v1/deployment-candidates" (json body)

  -- The template of a path is the function that fills it.
  unfoldable pub run_get : List String → (String → String) → String → Run (Unit {0})
  unfolding do_request
  run_get args path_of id_flag = do
    flags ← lift (tools.parse_flags "get" (text_flag id_flag "" "resource UUID" ∷ []) args)
    let value = flags.text_of id_flag
    check (fail_if (str_eq value "") ("get: --" <> id_flag <> " is required"))
    do_request os tools "GET" (path_of value) no_content

  unfoldable pub run_post_empty : List String → (String → String) → String → Run (Unit {0})
  unfolding do_request
  run_post_empty args path_of id_flag = do
    flags ← lift (tools.parse_flags "post-empty" (text_flag id_flag "" "resource UUID" ∷ []) args)
    let value = flags.text_of id_flag
    check (fail_if (str_eq value "") ("post-empty: --" <> id_flag <> " is required"))
    do_request os tools "POST" (path_of value) (json "{}")

  -- The exit status of a command: `fail` prints its error.
  abbrev pub exit_of : Fallible (Unit {0}) × Terminal → ℕ × Terminal
  exit_of (done _, s) = (0, s)
  exit_of (failed e, s) = (1, record s { errors = e ∷ s.errors })

  abbrev pub usage : Terminal → ℕ × Terminal
  usage s = (1, record s { out = usage_text ∷ s.out })

  unfoldable pub dispatch : String → List String → Terminal → ℕ × Terminal
  unfolding run_token run_register_service run_create_candidate run_get run_post_empty
  dispatch command args s =
      if str_eq command "token"
      then exit_of (run_token args s)
      else if str_eq command "register-service"
      then exit_of (run_register_service args s)
      else if str_eq command "scorecard"
      then exit_of (run_get args (λ id. "/v1/services/" <> id <> "/scorecard") "service-id" s)
      else if str_eq command "queue-evaluation"
      then exit_of
          (run_post_empty args (λ id. "/v1/services/" <> id <> "/evaluations") "service-id" s)
      else if str_eq command "create-candidate"
      then exit_of (run_create_candidate args s)
      else if str_eq command "evaluate-candidate"
      then exit_of (
          run_post_empty args (λ id. "/v1/deployment-candidates/" <> id <> "/evaluate")
            "candidate-id" s)
      else usage s

  -- `main`, on the arguments of the process
  unfoldable pub main : List String → Terminal → ℕ × Terminal
  unfolding dispatch
  main [] s = usage s
  main (program ∷ []) s = usage s
  main (program ∷ command ∷ args) s = dispatch command args s
