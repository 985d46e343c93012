-- ===== src/Prelude/Search.antt =====
-- Parts of a text, as Go's `strings` finds them, and the number of its bytes.
use Prim.Native.Nat.{ℕ}
use Prim.Native.Char.{Char, code}
use Prim.Native.String.{String, [], ◌∷◌, ◌++◌}
use mathlib.Core.Path.{◌≡◌, refl, sym}
use mathlib.Core.Bool.{Bool, true, false, ◌&&◌, ◌||◌}
use mathlib.Core.Option.{Option, none, some}
use native.Mathlib.Omega.{arith}
use text.Mathlib.TextLemmas.{nil-append, cons-append, append_assoc}
use golden_path_control_plan.Prelude.Tests.{◌==◌, if◌then◌else◌, ==_refl}

-- strings.HasPrefix, with the prefix first
unfoldable pub has_prefix : String → String → Bool
has_prefix [] s = true
has_prefix (c ∷ p) [] = false
has_prefix (c ∷ p) (d ∷ s) = code c == code d && has_prefix p s

-- strings.Contains, with the part first
unfoldable pub contains : String → String → Bool
unfolding has_prefix
contains part [] = has_prefix part []
contains part (c ∷ s) = has_prefix part (c ∷ s) || contains part s

abbrev pub or_else : Option String → Option String → Option String
or_else (some s) t = some s
or_else none t = t

abbrev pub put_before : Char → Option String → Option String
put_before c (some s) = some (c ∷ s)
put_before c none = none

-- `value[:strings.Index(value, part)]`, or `none` where `Index` is -1
unfoldable pub before_first : String → String → Option String
unfolding has_prefix
before_first part [] = if has_prefix part [] then some [] else none
before_first part (c ∷ s) =
    let rest = put_before c (before_first part s) in
    if has_prefix part (c ∷ s) then some [] else rest

-- `value[strings.LastIndex(value, mark):]` for a mark of one character, or `none` where `LastIndex`
-- is -1
unfoldable pub from_last : Char → String → Option String
from_last mark [] = none
from_last mark (c ∷ s) =
    or_else (from_last mark s) (if code c == code mark then some (c ∷ s) else none)

abbrev pub put_first : Char → Option (String × String) → Option (String × String)
put_first c (some (s, t)) = some (c ∷ s, t)
put_first c none = none

-- `strings.SplitN(value, mark, 2)` for a mark of one character: the two parts, or `none` where there
-- is only one
unfoldable pub split_two : Char → String → Option (String × String)
split_two mark [] = none
split_two mark (c ∷ s) =
    let rest = put_first c (split_two mark s) in if code c == code mark then some ([], s) else rest

-- A character does not occur.
abbrev pub Lacks : ℕ → String → Type 0
Lacks n [] = Unit {0}
Lacks n (c ∷ s) = ((code c == n) ≡ false) × Lacks n s

separator-append : (s : String) → "://" ++ s ≡ ":" ∷ "/" ∷ "/" ∷ s
separator-append s =
    rw (cons-append ":" "//" s, cons-append "/" "/" s, cons-append "/" "" s, nil-append s) refl

before_first-separator : (s : String) → before_first "://" (":" ∷ "/" ∷ "/" ∷ s) ≡ some ""
unfolding before_first has_prefix
before_first-separator s = refl

before_first-other :
    (c : Char) (s t : String)
    → (code c == 58) ≡ false
    → before_first "://" s ≡ some t
    → before_first "://" (c ∷ s) ≡ some (c ∷ t)
unfolding before_first has_prefix
before_first-other c s t h e = ground arith

-- The first `://` is found behind a scheme without a colon.
pub before_first-scheme :
    (scheme rest : String)
    → Lacks 58 scheme
    → before_first "://" (scheme ++ ("://" ++ rest)) ≡ some scheme
before_first-scheme [] rest h =
    rw (nil-append ("://" ++ rest), separator-append rest) (before_first-separator rest)
before_first-scheme (c ∷ s) rest h =
    rw (cons-append c s ("://" ++ rest))
      (before_first-other c (s ++ ("://" ++ rest)) s h.0 (before_first-scheme s rest h.1))

from_last-none : (mark : Char) (s : String) → Lacks (code mark) s → from_last mark s ≡ none
unfolding from_last
from_last-none mark [] h = refl
from_last-none mark (c ∷ s) h = ground (arith, from_last-none mark s h.1)

-- The last mark is found before a text that lacks it.
from_last-append :
    (mark : Char) (front back : String)
    → Lacks (code mark) back
    → from_last mark (front ++ (mark ∷ back)) ≡ some (mark ∷ back)
unfolding from_last
from_last-append mark [] back h =
    rw (nil-append (mark ∷ back)) ground (arith, from_last-none mark back h, ==_refl (code mark))
from_last-append mark (c ∷ s) back h =
    rw (cons-append c s (mark ∷ back), from_last-append mark s back h) refl

-- The same with more texts in front, and the mark as a text.
pub from_last-marked :
    (mark : Char) (a b c back : String)
    → Lacks (code mark) back
    → from_last mark (a ++ (b ++ (c ++ ((mark ∷ []) ++ back)))) ≡ some ((mark ∷ []) ++ back)
from_last-marked mark a b c back h =
    rw
      (
        cons-append mark [] back,
        nil-append back,
        sym (append_assoc b c (mark ∷ back)),
        sym (append_assoc a (b ++ c) (mark ∷ back)),
      )
      (from_last-append mark (a ++ (b ++ c)) back h)

-- A text is split at the first mark.
pub split_two-append :
    (mark : Char) (front back : String)
    → Lacks (code mark) front
    → split_two mark (front ++ ((mark ∷ []) ++ back)) ≡ some (front, back)
unfolding split_two
split_two-append mark [] back h =
    rw (cons-append mark [] back, nil-append back, nil-append (mark ∷ back), ==_refl (code mark))
      refl
split_two-append mark (c ∷ s) back h =
    rw (cons-append c s ((mark ∷ []) ++ back), split_two-append mark s back h.1, h.0) refl
