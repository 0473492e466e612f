-- ===== src/Metrics.antt =====
-- cantal_values/src/lib.rs: what an application publishes, and how it is read. A text is the list
-- of its code points, and a file the list of its bytes.
pub mod Parse
pub mod Descriptors
pub mod Reading
pub mod Offsets
mod Tests
use cantal.Common.{ℕ, ◌==◌, ◌&&◌, Bool, true, false, Option, none, some, List, length}

abbrev pub Text : Type 0
Text = List ℕ

pub data LevelType : Type 0 where
  signed unsigned float : LevelType

-- `Type`, with the length that a metric has in the file.
pub data MetricType : Type 0 where
  counter : ℕ → MetricType
  level : ℕ → LevelType → MetricType
  state : ℕ → MetricType
  pad : ℕ → MetricType
  unknown : ℕ → MetricType

-- `Type::len`.
abbrev pub len : MetricType → ℕ
len (counter n) = n
len (level n _) = n
len (state n) = n
len (pad n) = n
len (unknown n) = n

pub record FileId : Type 0 where
  pub dev : ℕ
  pub ino : ℕ

abbrev pub file_id_eq : FileId → FileId → Bool
file_id_eq a b = a.dev == b.dev && a.ino == b.ino

-- `MetadataError`. The descriptions of parse errors are constructors.
pub data ParseError : Type 0 where
  bad_type_name bad_length_text bad_level_kind no_description : ParseError

pub data MetadataError : Type 0 where
  io json unexpected_eof duplicate : MetadataError
  parse_error : ParseError → MetadataError
  bad_length : ℕ → MetadataError

pub data Result {ℓ} (A : Type ℓ) : Type ℓ where
  ok : A → Result A
  err : MetadataError → Result A

-- A descriptor with the JSON value of its name, as the JSON library reads it.
pub record Descriptor (Json : Type 0) : Type 0 where
  pub kind : MetricType
  pub textname : Text
  pub json : Json

-- `util::Stat`.
pub record Stat : Type 0 where
  pub dev : ℕ
  pub inode : ℕ
  pub size : ℕ
  pub mtime : ℕ × ℕ

abbrev pub stat_eq : Stat → Stat → Bool
stat_eq a b =
    a.dev == b.dev
    && a.inode == b.inode
    && a.size == b.size
    && a.mtime.0 == b.mtime.0
    && a.mtime.1 == b.mtime.1

pub record Metadata (Json : Type 0) : Type 0 where
  pub items : List (Descriptor Json)
  pub stat : Stat

-- `still_fresh`, with what `path_stat` gives.
unfoldable pub still_fresh : {Json : Type 0} → Metadata Json → Option Stat → Bool
still_fresh m none = false
still_fresh m (some stat) = stat_eq m.stat stat
