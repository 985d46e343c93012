-- ===== src/Domain/Parsers.antt =====
-- The two parsers that the checks call and this repository does not hold: `mail.ParseAddress`,
-- of which the checks see whether it fails, and `url.ParseRequestURI`, of which they see the scheme.
use golden_path_control_plan.Prelude.{String, Option}

pub data Uri : Type 0 where
  malformed : String → Uri
  scheme : String → Uri

pub record Parsers : Type 0 where
  -- the error's text, or `none` for an address
  pub parse_address : String → Option String
  pub parse_request_uri : String → Uri
