-- ===== src/Prelude/Text.antt =====
-- What the code uses of `str` and `String`: characters by code point, prefixes, splitting at a
-- character, ASCII case, joining, and decimal output.
use Prim.Native.Nat.{ℕ, zero, suc, ◌/◌, ◌%◌}
use Prim.Native.Char.{Char, code}
use Prim.Native.String
use Prim.Native.String.{String, [], ◌∷◌}
use mathlib.Core.Path.{◌≡◌, refl}
use mathlib.Core.Bool.{Bool, true, false, ◌&&◌, ◌||◌}
use mathlib.Core.Option.{Option, none, some}
use mathlib.Core.List.{List}
use native.Mathlib.Omega.{arith}
use text.Mathlib.TextLemmas.{nil-append, cons-append}
use dep_scan.Prelude.Tests.{◌==◌, ltb, if◌then◌else◌}
use dep_scan.Prelude.{◌↔◌}

infixr 65 ◌+++◌
abbrev pub ◌+++◌ : String → String → String
s +++ t = String.◌++◌ s t

-- The code points of a text.
abbrev pub codes : String → List ℕ
codes [] = List.[]
codes (c ∷ s) = List.◌∷◌ (code c) (codes s)

-- The number of code points.
abbrev pub text_length : String → ℕ
text_length [] = 0
text_length (c ∷ s) = suc (text_length s)

abbrev pub is_empty_text : String → Bool
is_empty_text [] = true
is_empty_text (c ∷ s) = false

-- `s.starts_with(p)`
unfoldable pub has_prefix : String → String → Bool
has_prefix [] s = true
has_prefix (p ∷ ps) [] = false
has_prefix (p ∷ ps) (c ∷ s) = code p == code c && has_prefix ps s

-- `s.chars().all(p)`
unfoldable pub all_chars : (ℕ → Bool) → String → Bool
all_chars p [] = true
all_chars p (c ∷ s) = p (code c) && all_chars p s

-- `s.contains(c)` for a character.
unfoldable pub contains_char : ℕ → String → Bool
contains_char k [] = false
contains_char k (c ∷ s) = code c == k || contains_char k s

-- `char::to_ascii_lowercase`
unfoldable pub lower_char : Char → Char
lower_char c =
    if code c == b'A'
    then "a"
    else if code c == b'B'
    then "b"
    else if code c == b'C'
    then "c"
    else if code c == b'D'
    then "d"
    else if code c == b'E'
    then "e"
    else if code c == b'F'
    then "f"
    else if code c == b'G'
    then "g"
    else if code c == b'H'
    then "h"
    else if code c == b'I'
    then "i"
    else if code c == b'J'
    then "j"
    else if code c == b'K'
    then "k"
    else if code c == b'L'
    then "l"
    else if code c == b'M'
    then "m"
    else if code c == b'N'
    then "n"
    else if code c == b'O'
    then "o"
    else if code c == b'P'
    then "p"
    else if code c == b'Q'
    then "q"
    else if code c == b'R'
    then "r"
    else if code c == b'S'
    then "s"
    else if code c == b'T'
    then "t"
    else if code c == b'U'
    then "u"
    else if code c == b'V'
    then "v"
    else if code c == b'W'
    then "w"
    else if code c == b'X'
    then "x"
    else if code c == b'Y'
    then "y"
    else if code c == b'Z'
    then "z"
    else c

-- `str::to_ascii_lowercase`
unfoldable pub to_ascii_lowercase : String → String
unfolding lower_char
to_ascii_lowercase [] = []
to_ascii_lowercase (c ∷ s) = lower_char c ∷ to_ascii_lowercase s

lowercase_test : to_ascii_lowercase "GitHub.COM-1é" ≡ "github.com-1é"
unfolding to_ascii_lowercase
lowercase_test = refl

abbrev pub cons_before : Char → String × String → String × String
cons_before c r = (c ∷ r.0, r.1)

-- `s.split_once(c)` for a character: the parts before and after its first occurrence.
unfoldable pub split_once : ℕ → String → Option (String × String)
split_once k [] = none
split_once k (c ∷ s) =
    if code c == k
    then some ([], s)
    else elim (split_once k s) [ none ↦ none | some r ↦ some (cons_before c r) ]

-- `parts.join(separator)`
unfoldable pub join : String → List String → String
join separator List.[] = ""
join separator (List.◌∷◌ s rest) = elim rest [
  | List.[] ↦ s
  | List.◌∷◌ t more ↦ s +++ separator +++ join separator rest
]

-- One decimal digit.
abbrev digit : ℕ → String
digit d =
    if d == 0
    then "0"
    else if d == 1
    then "1"
    else if d == 2
    then "2"
    else if d == 3
    then "3"
    else if d == 4
    then "4"
    else if d == 5
    then "5"
    else if d == 6
    then "6"
    else if d == 7
    then "7"
    else if d == 8
    then "8"
    else "9"

show_from : ℕ → ℕ → String → String
show_from zero n later = later
show_from (suc fuel) n later =
    let s = digit (n % 10) +++ later in
    let more = show_from fuel (n / 10) s in if ltb n 10 then s else more

-- `{}` of an unsigned number. A number has no more digits than its own value plus one.
unfoldable pub show : ℕ → String
unfolding show_from
show n = show_from (suc n) n ""

show_test : show 1042 ≡ "1042"
unfolding show
show_test = refl

-- A text that is put together around its first separator is taken apart there.
pub split_once-append :
    (k : ℕ) (a : String) (c : Char) (b : String)
    → contains_char k a ≡ false
    → code c ≡ k
    → split_once k (a +++ (c ∷ b)) ≡ some (a, b)
unfolding split_once contains_char
split_once-append k [] c b free e = rw nil-append (ground arith)
split_once-append k (x ∷ a) c b free e = rw cons-append (ground (arith, split_once-append k a c b))

pub is_empty_text_iff : (s : String) → (is_empty_text s ≡ true) ↔ (s ≡ "")
is_empty_text_iff [] = ((λ _. refl), λ _. refl)
is_empty_text_iff (c ∷ s) = ((λ h. cc), λ h. cc)
