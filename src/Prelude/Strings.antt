-- ===== src/Prelude/Strings.antt =====
-- Operations of `str` that the source uses on whole texts.
use Prim.Native.String.{String, ◌++◌, len, slice}
use mathlib.Core.Path.{◌≡◌}
use Prim.Native.Nat.{ℕ, zero, suc}
use Prim.Native.Char.{code}
use mathlib.Core.Bool.{Bool, true, false, ◌&&◌, ◌||◌}
use mathlib.Core.List.{List, [], ◌∷◌}
use mathlib.Core.Option.{Option, none, some}
use text.Mathlib.Text.{starts_with, ◌==◌ as str_eq}
use text.Mathlib.TextPositions.{starts_with-append, slice-append_right, len-append}
use shuttle_rs.Prelude.Tests.{leb, ltb, ◌==◌, if◌then◌else◌}
use shuttle_rs.Prelude.Lists.{any, all}

-- `format!("{a}{b}")`
infixr 66 ◌&◌
abbrev pub ◌&◌ : String → String → String
a & b = a ++ b

-- `value.strip_prefix(prefix)`
unfoldable pub strip_prefix : String → String → Option String
strip_prefix prefix value =
    if starts_with value prefix then some (slice value (len prefix) (len value)) else none

pub strip_prefix-append : (prefix rest : String) → strip_prefix prefix (prefix & rest) ≡ some rest
unfolding strip_prefix
strip_prefix-append prefix rest =
    rw (starts_with-append prefix rest)
      (rw (len-append prefix rest) (rw (slice-append_right prefix rest)))

-- The code points of a text. A test that fails beyond ASCII holds of all of them exactly if it
-- holds of all bytes.
abbrev pub codes : String → List ℕ
codes String.[] = []
codes (String.◌∷◌ c s) = code c ∷ codes s

-- `char::is_whitespace`
abbrev pub is_whitespace : ℕ → Bool
is_whitespace c =
    c == 32
    || (leb 9 c && leb c 13)
    || c == 0x85
    || c == 0xa0
    || c == 0x1680
    || (leb 0x2000 c && leb c 0x200a)
    || c == 0x2028
    || c == 0x2029
    || c == 0x202f
    || c == 0x205f
    || c == 0x3000

-- `value.trim().is_empty()`
unfoldable pub is_blank : String → Bool
is_blank value = all is_whitespace (codes value)

-- `value.contains(part)` for a text
abbrev pub includes : String → String → Bool
includes String.[] part = starts_with "" part
includes (String.◌∷◌ c rest) part = starts_with (String.◌∷◌ c rest) part || includes rest part

-- `value.replace(c, text)` for a character, by its code point
abbrev pub replace_char : ℕ → String → String → String
replace_char n text String.[] = ""
replace_char n text (String.◌∷◌ c rest) =
    let after = replace_char n text rest in if code c == n then text & after else String.◌∷◌ c after

-- `value.split_once(' ')`
abbrev pub split_at_space : String → Option (String × String)
split_at_space String.[] = none
split_at_space (String.◌∷◌ c rest) =
    let after = split_at_space rest in
    if code c == 32
    then some ("", rest)
    else elim after [ none ↦ none | some (left, right) ↦ some (String.◌∷◌ c left, right) ]

-- `value.split_once(part)`
abbrev pub split_once : String → String → Option (String × String)
split_once String.[] part = if str_eq part "" then some ("", "") else none
split_once (String.◌∷◌ c rest) part =
    let after = split_once rest part in
    let whole = String.◌∷◌ c rest in
    if starts_with whole part
    then some ("", slice whole (len part) (len whole))
    else elim after [ none ↦ none | some (left, right) ↦ some (String.◌∷◌ c left, right) ]

-- `value.split(separator)` for a character, by its code point
abbrev pub split_at : ℕ → String → List String
split_at n String.[] = "" ∷ []
split_at n (String.◌∷◌ c rest) =
    let after = split_at n rest in
    if code c == n
    then "" ∷ after
    else elim after [ [] ↦ String.◌∷◌ c "" ∷ [] | part ∷ parts ↦ String.◌∷◌ c part ∷ parts ]

-- A line without the carriage return at its end.
abbrev without_return : String → String
without_return String.[] = ""
without_return (String.◌∷◌ c rest) =
    if code c == 13 && str_eq rest "" then "" else String.◌∷◌ c (without_return rest)

abbrev lines_of : List String → List String
lines_of [] = []
lines_of (last ∷ []) = if str_eq last "" then [] else last ∷ []
lines_of (line ∷ next ∷ rest) = without_return line ∷ lines_of (next ∷ rest)

-- `left < right` of texts: that of their bytes is that of their code points
abbrev pub text_lt : String → String → Bool
text_lt String.[] String.[] = false
text_lt String.[] (String.◌∷◌ d right) = true
text_lt (String.◌∷◌ c left) String.[] = false
text_lt (String.◌∷◌ c left) (String.◌∷◌ d right) =
    ltb (code c) (code d) || (code c == code d && text_lt left right)

-- `value.lines()`
abbrev pub lines : String → List String
lines value = lines_of (split_at 10 value)

-- `value.chars().take(n).collect()`
abbrev pub take_chars : ℕ → String → String
take_chars zero value = ""
take_chars (suc n) String.[] = ""
take_chars (suc n) (String.◌∷◌ c rest) = String.◌∷◌ c (take_chars n rest)

-- `HashSet<&String>::contains`
abbrev pub contains : List String → String → Bool
contains seen value = any (λ s. str_eq s value) seen

-- `value.split_whitespace()`, with the characters of the word that has begun
abbrev pub words_from : String → String → List String
words_from word String.[] = if str_eq word "" then [] else word ∷ []
words_from word (String.◌∷◌ c rest) = elim (is_whitespace (code c)) [
  | true ↦ if str_eq word "" then words_from "" rest else word ∷ words_from "" rest
  | false ↦ words_from (word & String.◌∷◌ c "") rest
]

abbrev pub split_whitespace : String → List String
split_whitespace value = words_from "" value

abbrev trim_start : String → String
trim_start String.[] = ""
trim_start (String.◌∷◌ c rest) = elim (is_whitespace (code c)) [
  | true ↦ trim_start rest
  | false ↦ String.◌∷◌ c rest
]

abbrev trim_end : String → String
trim_end String.[] = ""
trim_end (String.◌∷◌ c rest) =
    let end = trim_end rest in
    if is_whitespace (code c) && str_eq end "" then "" else String.◌∷◌ c end

-- `value.trim()`
unfoldable pub trim : String → String
trim value = trim_end (trim_start value)
