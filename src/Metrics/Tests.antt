-- ===== src/Metrics/Tests.antt =====
-- Small files of descriptors and values.
use cantal.Common.{ℕ, ◌≡◌, refl, arith, some, List, [], ◌∷◌}
use cantal.History.Key.{bytes_eq}
use cantal.Metrics.{Text, MetricType, FileId, Stat, ok, err, Descriptor, Metadata, bad_length}
use cantal.Metrics.Parse.{
  lines, trim_start, trim_end, is_space, split_first, split, parse_digits, parse_usize,
}
use cantal.Metrics.Descriptors.{read_type, describe, read_line, read_lines, read}
use cantal.Metrics.Reading.{read_data}
use cantal.Metrics.Offsets.{values_at, read_data-values_at}

abbrev stat : Stat
stat = record { dev = 1; inode = 2; size = 3; mtime = (4, 5) }

-- "counter 8: 7", a new line, "pad 3", a new line, and the JSON library reads any text as itself.
abbrev content : Text
content =
    b'c' ∷ b'o' ∷ b'u' ∷ b'n' ∷ b't' ∷ b'e' ∷ b'r' ∷ b' ' ∷ b'8' ∷ b':' ∷ b' ' ∷ b'7' ∷ 10 ∷ b'p'
    ∷ b'a' ∷ b'd' ∷ b' ' ∷ b'3' ∷ 10 ∷ []

abbrev items : List (Descriptor Text)
items =
    record { kind = MetricType.counter 8; textname = b'7' ∷ []; json = b' ' ∷ b'7' ∷ [] }
    ∷ record { kind = MetricType.pad 3; textname = []; json = [] }
    ∷ []

read-content :
    read [] (λ t. some t) (some (content, stat)) ≡ ok (record { items = items; stat = stat })
unfolding read read_lines read_line read_type describe lines trim_start trim_end is_space
    split_first split parse_digits parse_usize bytes_eq
read-content = refl

-- "counter 256: 7"
abbrev long_counter : Text
long_counter =
    b'c' ∷ b'o' ∷ b'u' ∷ b'n' ∷ b't' ∷ b'e' ∷ b'r' ∷ b' ' ∷ b'2' ∷ b'5' ∷ b'6' ∷ b':' ∷ b' ' ∷ b'7'
    ∷ []

read-long_counter : read [] (λ t. some t) (some (long_counter, stat)) ≡ err (bad_length 256)
unfolding read read_lines read_line read_type describe lines trim_start trim_end is_space
    split_first split parse_digits parse_usize bytes_eq
read-long_counter = refl

abbrev mixed : Metadata Text
mixed = record {
  items =
      record { kind = MetricType.pad 3; textname = []; json = [] }
      ∷ record { kind = MetricType.state 10; textname = b's' ∷ []; json = [] }
      ∷ [];
  stat = stat;
}

abbrev file : List ℕ
file = 0 ∷ 0 ∷ 0 ∷ 9 ∷ 1 ∷ 0 ∷ 0 ∷ 0 ∷ 0 ∷ 0 ∷ 0 ∷ b'o' ∷ b'k' ∷ []

abbrev file_id : FileId
file_id = record { dev = 1; ino = 2 }

read_data-values_at_example :
    read_data {F = ℕ} (λ b. 0) (λ b. b) mixed (some (file_id, some file)) []
    ≡ (file_id ∷ [], ok (values_at (λ b. 0) (λ b. b) mixed.items file 0))
read_data-values_at_example =
    read_data-values_at (λ b. 0) (λ b. b) mixed file_id file [] refl (omega arith)
