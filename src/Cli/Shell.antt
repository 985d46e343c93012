-- ===== src/Cli/Shell.antt =====
-- What a command of cmd/cli can do beside computing: send requests, and print. `Tools` holds what
-- the repository does not: the network, and the functions of Go that read flags, files and JSON.
use golden_path_control_plan.Prelude.{ℕ, String, Option, List, [], ◌∷◌, str_eq, if◌then◌else◌}
use golden_path_control_plan.Fallible.{Fallible, done}
use golden_path_control_plan.Stateful.{Stateful}
use golden_path_control_plan.Config.Settings.{Duration}
use golden_path_control_plan.Domain.Models.{Uuid}
use golden_path_control_plan.Domain.Inputs.{DeploymentCandidateInput}

-- The body of a request: none, a JSON text, or `url.Values`
pub data Content : Type 0 where
  no_content : Content
  json : String → Content
  form : List (String × String) → Content

pub record HttpRequest : Type 0 where
  pub method : String
  pub url : String
  pub headers : List (String × String)
  pub content : Content

-- A response: what arrives of its body, and the error that ends the reading, if one does
pub record HttpResponse : Type 0 where
  pub status : ℕ
  pub text : String
  pub broken : Option String

-- A flag with its name, its default and its usage
pub data Flag : Type 0 where
  text_flag : String → String → String → Flag
  duration_flag : String → Duration → String → Flag

pub record FlagValues : Type 0 where
  pub text_of : String → String
  pub duration_of : String → Duration

-- The payload of a token response
pub record TokenPayload : Type 0 where
  pub access_token : String
  pub id_token : String

pub record Tools : Type 0 where
  -- The answer to a request, after the requests that were sent before it, the latest first
  pub network : List HttpRequest → HttpRequest → Fallible HttpResponse
  -- The error of `http.NewRequest` for a method and a URL
  pub bad_request : String → String → Option String
  -- `Parse` of a FlagSet with a name and its flags
  pub parse_flags : String → List Flag → List String → Fallible FlagValues
  pub read_file : String → Fallible String
  pub parse_uuid : String → Fallible Uuid
  pub marshal_candidate : DeploymentCandidateInput → Fallible String
  -- `Decode` of the bodies of the discovery document, of which its token endpoint is kept, and of
  -- the token response
  pub decode_discovery : HttpResponse → Fallible String
  pub decode_tokens : HttpResponse → Fallible TokenPayload

-- The requests that were sent, and the lines that were printed, the latest first
pub record Terminal : Type 0 where
  pub sent : List HttpRequest
  pub out : List String
  pub errors : List String

abbrev pub Run {ℓ} : Type ℓ → Type ℓ
Run A = Stateful Terminal A

unfoldable pub send : Tools → HttpRequest → Run HttpResponse
send tools r s = (tools.network s.sent r, record s { sent = r ∷ s.sent })

unfoldable pub print_line : String → Run (Unit {0})
print_line line s = (done tt, record s { out = line ∷ s.out })

-- The value that stands under a key, as headers and forms are read; a missing one is empty.
abbrev pub value_of : String → List (String × String) → String
value_of key [] = ""
value_of key ((k, v) ∷ rest) = if str_eq k key then v else value_of key rest
