-- ===== src/Metrics/Descriptors.antt =====
-- `Metadata::read`: the descriptors in the file beside the values. The opened file is its text, if
-- it can be read and decoded, with its `stat`; the JSON library is a parameter.
use cantal.Common.{ℕ, ltb, ◌%◌, ◌^◌, if◌then◌else◌, Option, none, some, List, [], ◌∷◌}
use cantal.History.Key.{bytes_eq}
use cantal.Metrics.{
  Text, LevelType, signed, unsigned, float, MetricType, counter, level, state, pad, unknown,
  bad_type_name, bad_length_text, bad_level_kind, no_description, MetadataError, io, json,
  parse_error, bad_length, Result, ok, err, Descriptor, Stat, Metadata,
}
use cantal.Metrics.Parse.{lines, trim, split_first, split, parse_usize}

infixl 5 ◌>>=◌
abbrev pub ◌>>=◌ {ℓ κ} : {A : Type ℓ} {B : Type κ} → Result A → (A → Result B) → Result B
ok a >>= f = f a
err e >>= f = err e

abbrev pub ok_or {ℓ} : {A : Type ℓ} → Option A → MetadataError → Result A
ok_or none e = err e
ok_or (some a) e = ok a

-- A type with its length, which has to be at most `most`.
abbrev checked : ℕ → ℕ → MetricType → Result MetricType
checked most n type = if ltb most n then err (bad_length n) else ok type

abbrev level_kind : List Text → Option LevelType
level_kind [] = none
level_kind (word ∷ _) =
    if bytes_eq word (b's' ∷ b'i' ∷ b'g' ∷ b'n' ∷ b'e' ∷ b'd' ∷ [])
    then some signed
    else if bytes_eq word (b'u' ∷ b'n' ∷ b's' ∷ b'i' ∷ b'g' ∷ b'n' ∷ b'e' ∷ b'd' ∷ [])
    then some unsigned
    else if bytes_eq word (b'f' ∷ b'l' ∷ b'o' ∷ b'a' ∷ b't' ∷ [])
    then some float
    else none

abbrev read_level : ℕ → List Text → Result MetricType
read_level n rest =
    if ltb 255 n
    then err (bad_length n)
    else (ok_or (level_kind rest) (parse_error bad_level_kind) >>= λ kind.
        ok (level (n % 2 ^ 8) kind))

-- The words before the colon: the name of a type, a length, and what the type adds.
unfoldable pub read_type : Text → ℕ → List Text → Result MetricType
read_type typ n rest =
    if bytes_eq typ (b'c' ∷ b'o' ∷ b'u' ∷ b'n' ∷ b't' ∷ b'e' ∷ b'r' ∷ [])
    then checked 255 n (counter (n % 2 ^ 8))
    else if bytes_eq typ (b'l' ∷ b'e' ∷ b'v' ∷ b'e' ∷ b'l' ∷ [])
    then read_level n rest
    else if bytes_eq typ (b's' ∷ b't' ∷ b'a' ∷ b't' ∷ b'e' ∷ [])
    then checked 65535 n (state (n % 2 ^ 16))
    else if bytes_eq typ (b'p' ∷ b'a' ∷ b'd' ∷ [])
    then checked 65535 n (pad (n % 2 ^ 16))
    else checked 65535 n (unknown (n % 2 ^ 16))

abbrev pub first_word : List Text → Option (Text × List Text)
first_word [] = none
first_word (w ∷ ws) = some (w, ws)

abbrev pub next_value : List Text → Option (ℕ × List Text)
next_value [] = none
next_value (w ∷ ws) = elim (parse_usize w) [ none ↦ none | some n ↦ some (n, ws) ]

module _ {Json : Type 0} (null : Json) (from_str : Text → Option Json) where
  -- A pad has no name; any other type has one, which is JSON.
  unfoldable pub describe : MetricType → Option Text → Result (Descriptor Json)
  describe (pad n) name = ok (record { kind = pad n; textname = []; json = null })
  describe type name = ok_or name (parse_error no_description) >>= λ textname.
      ok_or (from_str textname) json >>= λ value.
      ok (record { kind = type; textname = trim textname; json = value })

  unfoldable pub read_line : Text → Result (Descriptor Json)
  read_line line =
      let (head, name) = split_first b':' (trim line) in
      ok_or (first_word (split b' ' head)) (parse_error bad_type_name) >>= λ word.
      ok_or (next_value word.1) (parse_error bad_length_text) >>= λ value.
      read_type word.0 value.0 value.1 >>= λ type. describe type name

  unfoldable pub read_lines : List Text → Result (List (Descriptor Json))
  read_lines [] = ok []
  read_lines (line ∷ rest) = elim (read_line line) [
    | err e ↦ err e
    | ok item ↦ read_lines rest >>= λ items. ok (item ∷ items)
  ]

  unfoldable pub read : Option (Text × Stat) → Result (Metadata Json)
  read none = err io
  read (some (content, stat)) =
      read_lines (lines content) >>= λ items. ok (record { items = items; stat = stat })
