-- ===== src/Prelude/Text.antt =====
-- Text as Go's `strings` and `fmt` treat it.
use Prim.Native.Nat.{ℕ, zero, suc, ◌/◌, ◌%◌}
use Prim.Native.Char.{Char, code}
use Prim.Native.String.{String, [], ◌∷◌, ◌++◌}
use mathlib.Core.Path.{◌≡◌, refl, sym, ap, ◌∙◌}
use mathlib.Core.Logic.{◌≢◌, inl, inr}
use mathlib.Core.Bool.{Bool, false, ◌&&◌, ◌||◌}
use native.Mathlib.Omega.{arith}
use text.Mathlib.Text.{◌==◌ as str_eq}
use text.Mathlib.TextEquality.{eq_iff}
use text.Mathlib.TextLemmas.{nil-append, cons-append, append-ne-nil_of_right_ne-nil}
use golden_path_control_plan.Prelude.Tests.{ltb, leb, ◌==◌, if◌then◌else◌, Bool-cases}

-- unicode.IsSpace
unfoldable pub is_space : ℕ → Bool
is_space c =
    (leb 9 c && leb c 13)
    || c == 32
    || c == 0x85
    || c == 0xA0
    || c == 0x1680
    || (leb 0x2000 c && leb c 0x200A)
    || c == 0x2028
    || c == 0x2029
    || c == 0x202F
    || c == 0x205F
    || c == 0x3000

pub trim_left : String → String
trim_left [] = []
trim_left (c ∷ s) = if is_space (code c) then trim_left s else c ∷ s

-- A space is dropped when nothing but spaces follows it.
pub trim_right : String → String
trim_right [] = []
trim_right (c ∷ s) =
    let rest = trim_right s in if is_space (code c) && str_eq rest "" then [] else c ∷ rest

-- strings.TrimSpace
unfoldable pub trim_space : String → String
unfolding trim_left trim_right is_space
trim_space s = trim_right (trim_left s)

-- strings.TrimSpace(s) == ""
abbrev pub is_blank : String → Bool
is_blank s = str_eq (trim_space s) ""

pub trim_space-empty : trim_space "" ≡ ""
unfolding trim_space
trim_space-empty = refl

-- A text that is not blank is not empty.
pub is_blank-ne-empty : (s : String) → is_blank s ≡ false → str_eq s "" ≡ false
is_blank-ne-empty s h = ground (arith, eq_iff s "", eq_iff (trim_space s) "", trim_space-empty)

-- A text without a space
abbrev pub IsCompact : String → Type 0
IsCompact [] = Unit {0}
IsCompact (c ∷ s) = (is_space (code c) ≡ false) × IsCompact s

trim_left-compact : (s : String) → IsCompact s → trim_left s ≡ s
unfolding trim_left
trim_left-compact [] h = refl
trim_left-compact (c ∷ s) h = rw h.0 refl

trim_right-compact : (s : String) → IsCompact s → trim_right s ≡ s
unfolding trim_right
trim_right-compact [] h = refl
trim_right-compact (c ∷ s) h = rw (h.0, trim_right-compact s h.1) refl

trim_right-append : (s t : String) → t ≢ "" → IsCompact t → trim_right (s ++ t) ≡ s ++ t
unfolding trim_right
trim_right-append [] t n h = rw (nil-append t) (trim_right-compact t h)
trim_right-append (c ∷ s) t n h =
    let m : str_eq (s ++ t) "" ≡ false =
      ground (arith, eq_iff (s ++ t) "", append-ne-nil_of_right_ne-nil s n) in
    rw (cons-append c s t, trim_right-append s t n h) ground (arith, m)

trim_space_lem : (s : String) → trim_space s ≡ trim_right (trim_left s)
unfolding trim_space
trim_space_lem s = refl

trim_left-stays : (c : Char) (s : String) → is_space (code c) ≡ false → trim_left (c ∷ s) ≡ c ∷ s
unfolding trim_left
trim_left-stays c s b = rw b refl

-- What begins with no space and ends with none is left as it is.
pub trim_space-append :
    (c : Char) (s t : String)
    → is_space (code c) ≡ false
    → t ≢ ""
    → IsCompact t
    → trim_space ((c ∷ s) ++ t) ≡ (c ∷ s) ++ t
trim_space-append c s t b n h =
    trim_space_lem ((c ∷ s) ++ t)
    ∙ ap trim_right
        (ap trim_left (cons-append c s t) ∙ trim_left-stays c (s ++ t) b ∙ sym (cons-append c s t))
    ∙ trim_right-append (c ∷ s) t n h

pub trim_space-compact : (t : String) → IsCompact t → trim_space t ≡ t
unfolding trim_space
trim_space-compact t h = rw (trim_left-compact t h) (trim_right-compact t h)

trim_left-nonempty :
    (s t : String) → t ≢ "" → IsCompact t → (u : String) × (trim_left (s ++ t) ≡ u ++ t)
unfolding trim_left
trim_left-nonempty [] t n h = ([], rw (nil-append t) (trim_left-compact t h))
trim_left-nonempty (c ∷ s) t n h = elim (Bool-cases (is_space (code c))) [
  | inl b ↦ let (u, e) = trim_left-nonempty s t n h in (u, rw (cons-append c s t, b) e)
  | inr b ↦ (c ∷ s, rw (cons-append c s t, b) refl)
]

-- What ends in a text without a space is not blank.
pub is_blank-append : (s t : String) → t ≢ "" → IsCompact t → is_blank (s ++ t) ≡ false
is_blank-append s t n h =
    let (u, e) = trim_left-nonempty s t n h in
    let whole : trim_space (s ++ t) ≡ u ++ t =
      trim_space_lem (s ++ t) ∙ ap trim_right e ∙ trim_right-append u t n h in
    rw whole ground (arith, eq_iff (u ++ t) "", append-ne-nil_of_right_ne-nil u n)

trim_right-trim_right : (s : String) → trim_right (trim_right s) ≡ trim_right s
unfolding trim_right
trim_right-trim_right [] = refl
trim_right-trim_right (c ∷ s) = elim (Bool-cases (is_space (code c) && str_eq (trim_right s) "")) [
  | inl b ↦ rw b refl
  | inr b ↦ rw (b, trim_right-trim_right s, b) refl
]

trim_left-trim_right :
    (s : String) → trim_left (trim_right (trim_left s)) ≡ trim_right (trim_left s)
unfolding trim_right trim_left
trim_left-trim_right [] = refl
trim_left-trim_right (c ∷ s) = elim (Bool-cases (is_space (code c))) [
  | inl b ↦ rw b (trim_left-trim_right s)
  | inr b ↦ rw (b, b) (trim_left-stays c (trim_right s) b)
]

pub trim_space-trim_space : (s : String) → trim_space (trim_space s) ≡ trim_space s
unfolding trim_space
trim_space-trim_space s =
    ap trim_right (trim_left-trim_right s) ∙ trim_right-trim_right (trim_left s)

digit : ℕ → String
digit n =
    if n == 0
    then "0"
    else if n == 1
    then "1"
    else if n == 2
    then "2"
    else if n == 3
    then "3"
    else if n == 4
    then "4"
    else if n == 5
    then "5"
    else if n == 6
    then "6"
    else if n == 7
    then "7"
    else if n == 8
    then "8"
    else "9"

digits : ℕ → ℕ → String
digits zero n = ""
digits (suc fuel) n =
    let front = digits fuel (n / 10) in if ltb n 10 then digit n else front ++ digit (n % 10)

-- `%d` of fmt: the fuel, one round for each digit, is never used up.
unfoldable pub decimal : ℕ → String
unfolding digits digit
decimal n = digits (suc n) n
