-- ===== src/Metrics/Parse.antt =====
-- The operations on texts that `Metadata::read` takes from the standard library.
use cantal.Common.{
  ℕ, ◌+◌, ◌-◌, ◌*◌, ◌^◌, ltb, leb, ◌==◌, Bool, ◌&&◌, ◌||◌, if◌then◌else◌, Option, none, some, List,
  [], ◌∷◌,
}
use cantal.Metrics.{Text}

-- The lines that `read_line` gives, each with its end.
abbrev pub with_char : ℕ → List Text → List Text
with_char c [] = (c ∷ []) ∷ []
with_char c (l ∷ ls) = (c ∷ l) ∷ ls

unfoldable pub lines : Text → List Text
lines [] = []
lines (c ∷ text) = let rest = lines text in if c == 10 then (10 ∷ []) ∷ rest else with_char c rest

-- `char::is_whitespace`.
unfoldable pub is_space : ℕ → Bool
is_space c =
    (leb 9 c && leb c 13)
    || c == 32
    || c == 133
    || c == 160
    || c == 5760
    || (leb 8192 c && leb c 8202)
    || c == 8232
    || c == 8233
    || c == 8239
    || c == 8287
    || c == 12288

unfoldable pub trim_start : Text → Text
trim_start [] = []
trim_start (c ∷ text) = let rest = trim_start text in if is_space c then rest else c ∷ text

abbrev pub add_trimmed : ℕ → Text → Text
add_trimmed c [] = if is_space c then [] else c ∷ []
add_trimmed c (d ∷ text) = c ∷ d ∷ text

unfoldable pub trim_end : Text → Text
trim_end [] = []
trim_end (c ∷ text) = add_trimmed c (trim_end text)

abbrev pub trim : Text → Text
trim text = trim_end (trim_start text)

-- `splitn(2, sep)`: what stands before the first separator, and what stands after it.
unfoldable pub split_first : ℕ → Text → Text × Option Text
split_first sep [] = ([], none)
split_first sep (c ∷ text) =
    let (before, after) = split_first sep text in
    if c == sep then ([], some text) else (c ∷ before, after)

-- `split(sep)`.
abbrev pub add_char : ℕ → List Text → List Text
add_char c [] = (c ∷ []) ∷ []
add_char c (p ∷ pieces) = (c ∷ p) ∷ pieces

unfoldable pub split : ℕ → Text → List Text
split sep [] = [] ∷ []
split sep (c ∷ text) = let rest = split sep text in if c == sep then [] ∷ rest else add_char c rest

-- The digits of a number that is less than 2 ^ 64.
unfoldable pub parse_digits : ℕ → Text → Option ℕ
parse_digits acc [] = some acc
parse_digits acc (c ∷ text) =
    let value = acc * 10 + (c - b'0') in
    let rest = parse_digits value text in
    if leb b'0' c && leb c b'9' then if ltb value (2 ^ 64) then rest else none else none

-- `usize::from_str`: digits, after at most one plus.
abbrev pub some_digits : Text → Option ℕ
some_digits [] = none
some_digits (c ∷ text) = parse_digits 0 (c ∷ text)

unfoldable pub parse_usize : Text → Option ℕ
parse_usize [] = none
parse_usize (c ∷ text) = if c == b'+' then some_digits text else parse_digits 0 (c ∷ text)
