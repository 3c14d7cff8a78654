-- ===== src/Prelude/Lines.antt =====
-- What the code uses of `str` when it takes texts apart: lines and fields, white space, a part
-- searched for, and the bytes of a text.
use Prim.Native.Nat.{ℕ, zero, suc, ◌+◌, ◌/◌, ◌%◌}
use Prim.Native.Char.{code}
use Prim.Native.String.{String, [], ◌∷◌}
use mathlib.Core.Path.{◌≡◌, refl}
use mathlib.Core.Bool.{Bool, ◌&&◌, ◌||◌}
use mathlib.Core.Option.{Option, none, some}
use mathlib.Core.List.{List, map, ◌++◌ as append_list}
use dep_scan.Prelude.Tests.{◌==◌, ltb, leb, if◌then◌else◌}
use dep_scan.Prelude.Text.{has_prefix, is_empty_text, text_length, cons_before}

-- `s.split(c)` for a character.
unfoldable pub split : ℕ → String → List String
split k [] = List.◌∷◌ "" List.[]
split k (c ∷ s) =
    let rest = split k s in
    if code c == k then List.◌∷◌ "" rest else (elim rest [
      | List.[] ↦ List.◌∷◌ (c ∷ "") List.[]
      | List.◌∷◌ first more ↦ List.◌∷◌ (c ∷ first) more
    ])

abbrev strip_carriage_return : String → String
strip_carriage_return [] = []
strip_carriage_return (c ∷ s) =
    let rest = strip_carriage_return s in
    if (code c == b'\r') && is_empty_text s then [] else c ∷ rest

abbrev without_last_empty : List String → List String
without_last_empty List.[] = List.[]
without_last_empty (List.◌∷◌ l rest) =
    let more = without_last_empty rest in
    elim rest [
      | List.[] ↦ if is_empty_text l then List.[] else List.◌∷◌ l List.[]
      | List.◌∷◌ m ms ↦ List.◌∷◌ l more
    ]

-- `str::lines`
unfoldable pub lines : String → List String
unfolding split
lines s = map strip_carriage_return (without_last_empty (split b'\n' s))

lines_test : lines "a\r\nb\n" ≡ List.◌∷◌ "a" (List.◌∷◌ "b" List.[])
unfolding lines
lines_test = refl

-- `char::is_whitespace`
unfoldable pub is_whitespace : ℕ → Bool
is_whitespace c =
    (leb 9 c && leb c 13)
    || c == 32
    || c == 133
    || c == 160
    || c == 5760
    || (leb 8192 c && leb c 8202)
    || c == 8232
    || c == 8233
    || c == 8239
    || c == 8287
    || c == 12288

unfoldable pub trim_start : String → String
unfolding is_whitespace
trim_start [] = []
trim_start (c ∷ s) = if is_whitespace (code c) then trim_start s else c ∷ s

unfoldable pub trim_end : String → String
unfolding is_whitespace
trim_end [] = []
trim_end (c ∷ s) =
    let rest = trim_end s in if is_whitespace (code c) && is_empty_text rest then [] else c ∷ rest

-- `str::trim`
unfoldable pub trim : String → String
unfolding trim_start trim_end
trim s = trim_end (trim_start s)

-- `s.chars().filter(p).collect()`
unfoldable pub filter_chars : (ℕ → Bool) → String → String
filter_chars p [] = []
filter_chars p (c ∷ s) = let rest = filter_chars p s in if p (code c) then c ∷ rest else rest

-- The text behind a number of characters.
unfoldable pub drop_chars : ℕ → String → String
drop_chars zero s = s
drop_chars (suc n) [] = []
drop_chars (suc n) (c ∷ s) = drop_chars n s

-- The parts before and after the first occurrence of a text, as `find` and two slices give them.
unfoldable pub split_at_text : String → String → Option (String × String)
unfolding has_prefix drop_chars
split_at_text p [] = if is_empty_text p then some ("", "") else none
split_at_text p (c ∷ s) =
    let rest = split_at_text p s in
    if has_prefix p (c ∷ s)
    then some ("", drop_chars (text_length p) (c ∷ s))
    else (elim rest [ none ↦ none | some r ↦ some (cons_before c r) ])

-- The UTF-8 bytes of one code point.
abbrev pub utf8_char : ℕ → List ℕ
utf8_char c =
    if ltb c 128
    then List.◌∷◌ c List.[]
    else if ltb c 2048
    then List.◌∷◌ (192 + c / 64) (List.◌∷◌ (128 + c % 64) List.[])
    else if ltb c 65536
    then List.◌∷◌ (224 + c / 4096) (List.◌∷◌ (128 + c / 64 % 64) (List.◌∷◌ (128 + c % 64) List.[]))
    else List.◌∷◌ (240 + c / 262144) (
        List.◌∷◌ (128 + c / 4096 % 64)
          (List.◌∷◌ (128 + c / 64 % 64) (List.◌∷◌ (128 + c % 64) List.[])))

-- `s.as_bytes()`
unfoldable pub as_bytes : String → List ℕ
as_bytes [] = List.[]
as_bytes (c ∷ s) = append_list (utf8_char (code c)) (as_bytes s)

trim_test : trim " a b\r" ≡ "a b"
unfolding trim
trim_test = refl

split_test : split b'+' "name+ab+" ≡ List.◌∷◌ "name" (List.◌∷◌ "ab" (List.◌∷◌ "" List.[]))
unfolding split
split_test = refl
