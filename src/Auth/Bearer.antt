-- ===== src/Auth/Bearer.antt =====
-- `ParseBearerToken` of internal/auth/auth.go on the header that a client builds from a token.
use text.Mathlib.TextLemmas.{append_assoc, append-ne-nil_of_right_ne-nil}
use golden_path_control_plan.Prelude.{
  ◌≡◌, ◌≢◌, refl, ap, ◌∙◌, String, ◌<>◌, true, false, some, arith, str_eq, eq_iff, IsCompact,
  trim_space, trim_space-append, trim_space-compact, split_two, split_two-append, is_space,
}
use golden_path_control_plan.Config.Settings.{Platform}
use golden_path_control_plan.Auth.{parse_bearer_token, token_part}

header_lem :
    (raw : String) → raw ≢ "" → IsCompact raw → trim_space ("Bearer " <> raw) ≡ "Bearer " <> raw
unfolding is_space
header_lem raw n h = trim_space-append "B" "earer " raw refl n h

header-parts : (raw : String) → split_two " " ("Bearer " <> raw) ≡ some ("Bearer", raw)
header-parts raw =
    ap (split_two " ") (append_assoc "Bearer" " " raw)
    ∙ split_two-append " " "Bearer" raw (refl, (refl, (refl, (refl, (refl, (refl, tt))))))

token_part_lem :
    (os : Platform) (raw : String)
    → os.equal_fold "Bearer" "Bearer" ≡ true
    → raw ≢ ""
    → trim_space raw ≡ raw
    → token_part os (some ("Bearer", raw)) ≡ some raw
token_part_lem os raw f n e = ground (arith, eq_iff (trim_space raw) "")

-- A header that carries a token gives it back.
pub parse_bearer_token-header :
    (os : Platform) (raw : String)
    → os.equal_fold "Bearer" "Bearer" ≡ true
    → raw ≢ ""
    → IsCompact raw
    → parse_bearer_token os ("Bearer " <> raw) ≡ some raw
unfolding parse_bearer_token
parse_bearer_token-header os raw f n h =
    let e : str_eq ("Bearer " <> raw) "" ≡ false =
      ground (arith, eq_iff ("Bearer " <> raw) "", append-ne-nil_of_right_ne-nil "Bearer " n) in
    rw (header_lem raw n h, e, header-parts raw)
      (token_part_lem os raw f n (trim_space-compact raw h))
