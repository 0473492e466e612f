-- ===== src/Metrics/Reading.antt =====
-- `Metadata::read_data`: the values of a file, in the order of their descriptors. Integers are
-- little-endian; a float and a text are made of their bytes by functions that are parameters.
use cantal.Common.{
  ℕ, ◌+◌, ◌-◌, ◌*◌, ltb, leb, ◌==◌, Bool, false, ◌||◌, if◌then◌else◌, Option, none, some, List, [],
  ◌∷◌, take, drop, length,
}
use cantal.History.Values.{TipValue}
use cantal.Metrics.{
  MetricType, LevelType, FileId, file_id_eq, io, unexpected_eof, duplicate, Result, ok, err,
  Descriptor, Metadata,
}

pub record Cursor : Type 0 where
  pub buf : List ℕ
  pub position : ℕ

-- The number that bytes stand for, the lowest first.
abbrev pub number : List ℕ → ℕ
number [] = 0
number (b ∷ bytes) = b + 256 * number bytes

-- Eight bytes, if there are so many left.
abbrev pub read_bytes : Cursor → Option (List ℕ × Cursor)
read_bytes stream =
    if leb (stream.position + 8) (length stream.buf)
    then some
        (take 8 (drop stream.position stream.buf), record stream { position = stream.position + 8 })
    else none

-- `seek(Current(n))`: past the end too.
abbrev pub seek : ℕ → Cursor → Cursor
seek n stream = record stream { position = stream.position + n }

-- Up to the first zero, if there is one.
unfoldable pub until_zero : List ℕ → List ℕ
until_zero [] = []
until_zero (b ∷ bytes) = let rest = until_zero bytes in if b == 0 then [] else b ∷ rest

-- `HashSet::insert`, whether the file is new, and the set with it.
abbrev pub is_visited : FileId → List FileId → Bool
is_visited id [] = false
is_visited id (other ∷ visited) = file_id_eq other id || is_visited id visited

module _ {F : Type 0} (float_of : List ℕ → F) (lossy : List ℕ → List ℕ) where
  abbrev pub with_value :
      Option (List ℕ × Cursor) → (List ℕ → TipValue F) → Result (Option (TipValue F) × Cursor)
  with_value none make = err io
  with_value (some (bytes, stream)) make = ok (some (make bytes), stream)

  -- The text of a state, after its time.
  abbrev pub state_text : ℕ → Option (List ℕ × Cursor) → Result (Option (TipValue F) × Cursor)
  state_text n none = err io
  state_text n (some (time_ms, stream)) =
      if ltb (length stream.buf) (stream.position + n - 8)
      then err unexpected_eof
      else ok (
        some (
            TipValue.state (number time_ms)
              (lossy (until_zero (take (n - 8) (drop stream.position stream.buf))))),
        seek (n - 8) stream,
      )

  -- The value of one descriptor, if its type is one that is read.
  unfoldable pub read_item : MetricType → Cursor → Result (Option (TipValue F) × Cursor)
  read_item (MetricType.counter n) stream =
      if n == 8
      then with_value (read_bytes stream) (λ bytes. TipValue.counter (number bytes))
      else ok (none, seek n stream)
  read_item (MetricType.level n LevelType.signed) stream =
      if n == 8
      then with_value (read_bytes stream) (λ bytes. TipValue.integer (number bytes))
      else ok (none, seek n stream)
  read_item (MetricType.level n LevelType.float) stream =
      if n == 8
      then with_value (read_bytes stream) (λ bytes. TipValue.float (float_of bytes))
      else ok (none, seek n stream)
  read_item (MetricType.level n LevelType.unsigned) stream = ok (none, seek n stream)
  read_item (MetricType.state n) stream =
      if ltb 8 n then state_text n (read_bytes stream) else ok (none, seek n stream)
  read_item (MetricType.pad n) stream = ok (none, seek n stream)
  read_item (MetricType.unknown n) stream = ok (none, seek n stream)

  abbrev pub add_value :
      {Json : Type 0}
      → Descriptor Json
      → Option (TipValue F)
      → Result (List (Descriptor Json × TipValue F))
      → Result (List (Descriptor Json × TipValue F))
  add_value desc none res = res
  add_value desc (some value) (ok res) = ok ((desc, value) ∷ res)
  add_value desc (some value) (err e) = err e

  unfoldable pub read_values :
      {Json : Type 0}
      → List (Descriptor Json)
      → Cursor
      → Result (List (Descriptor Json × TipValue F))
  read_values [] stream = ok []
  read_values (desc ∷ items) stream = elim (read_item desc.kind stream) [
    | err e ↦ err e
    | ok (value, stream') ↦ add_value desc value (read_values items stream')
  ]

  abbrev read_file :
      {Json : Type 0}
      → Metadata Json
      → Option (List ℕ)
      → Result (List (Descriptor Json × TipValue F))
  read_file m none = err io
  read_file m (some buf) = read_values m.items (record { buf = buf; position = 0 })

  -- The opened file is its identity with its bytes, if they can be read.
  unfoldable pub read_data :
      {Json : Type 0}
      → Metadata Json
      → Option (FileId × Option (List ℕ))
      → List FileId
      → List FileId × Result (List (Descriptor Json × TipValue F))
  read_data m none visited = (visited, err io)
  read_data m (some (file_id, content)) visited =
      if is_visited file_id visited
      then (visited, err duplicate)
      else (file_id ∷ visited, read_file m content)
