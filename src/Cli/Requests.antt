-- ===== src/Cli/Requests.antt =====
-- `doRequest` of cmd/cli/main.go, and the requests that `http.Get` and `http.PostForm` build.
use golden_path_control_plan.Prelude.{
  String, ◌<>◌, [], ◌∷◌, List, str_eq, trim_space, decimal, leb, if◌then◌else◌, Option, none, some,
}
use golden_path_control_plan.Stateful.{◌>>=◌, ◌>>◌, check, lift}
use golden_path_control_plan.Fallible.{Fallible, done, failed}
use golden_path_control_plan.Config.Settings.{Platform}
use golden_path_control_plan.Domain.Validation.{fail_if}
use golden_path_control_plan.Devoidc.{trim_slash}
use golden_path_control_plan.Cli.Shell.{
  Content, no_content, form, HttpRequest, HttpResponse, Tools, Run, send, print_line,
}

-- io.ReadAll
abbrev pub read_all : Option String → String → Fallible String
read_all none text = done text
read_all (some e) text = failed e

module _ (os : Platform) where
  unfoldable pub base_url : String
  base_url =
      let url = trim_slash (os.getenv "CONTROL_PLANE_API_URL") in
      if str_eq url "" then "http://localhost:8080" else url

  unfoldable pub bearer_token : String
  bearer_token = trim_space (os.getenv "CONTROL_PLANE_TOKEN")

  unfoldable pub api_request : String → String → Content → HttpRequest
  unfolding base_url bearer_token
  api_request method path content = record {
    method = method;
    url = base_url <> path;
    headers =
        ("Authorization", "Bearer " <> bearer_token)
        ∷ ("Content-Type", "application/json")
        ∷ ("Accept", "application/json")
        ∷ [];
    content = content;
  }

  -- What `doRequest` makes of the response
  unfoldable pub report : HttpResponse → Run (Unit {0})
  report response = do
    payload ← lift (read_all response.broken response.text)
    print_line payload
    check (
        fail_if (leb 400 response.status)
          ("cli: request failed with status " <> decimal response.status))

  unfoldable pub do_request : Tools → String → String → Content → Run (Unit {0})
  unfolding api_request bearer_token base_url report send
  do_request tools method path content = do
    check (fail_if (str_eq bearer_token "") "CONTROL_PLANE_TOKEN must be set")
    check (tools.bad_request method (base_url <> path))
    response ← send tools (api_request method path content)
    report response

-- The requests of http.Get and http.PostForm
abbrev pub get_request : String → HttpRequest
get_request url = record { method = "GET"; url = url; headers = []; content = no_content }

abbrev pub post_form_request : String → List (String × String) → HttpRequest
post_form_request url values = record {
  method = "POST";
  url = url;
  headers = ("Content-Type", "application/x-www-form-urlencoded") ∷ [];
  content = form values;
}
