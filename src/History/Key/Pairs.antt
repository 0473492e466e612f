-- ===== src/History/Key/Pairs.antt =====
-- cantal_history/src/key.rs: the pairs of names and values that a key is made of. A panic of the
-- program is `none`. Names and values are lists of bytes.
use cantal.Common.{
  ℕ, zero, suc, ◌≡◌, if◌then◌else◌, Option, none, some, List, [], ◌∷◌, ◌++◌, length, All, ◌≤◌, Bool,
  true, false,
}
use cantal.Common.Utf8.{is_utf8}
use cantal.History.Key.{Key, bytes_eq}

-- The CBOR library: what its encoder writes, and what its decoder reads from the bytes that are
-- left, or no result where it fails.
pub record Cbor : Type 0 where
  pub write_object : ℕ → List ℕ
  pub write_text : List ℕ → List ℕ
  pub read_object : List ℕ → Option (ℕ × List ℕ)
  pub read_text : List ℕ → Option (List ℕ × List ℕ)
  pub read_skip : List ℕ → Option (List ℕ)

-- The limits of `Config::default()`, which all decoders of keys are made with: how many pairs an
-- object may have, and how many bytes a text.
abbrev pub max_obj_size : ℕ
max_obj_size = 1000

abbrev pub max_text_len : ℕ
max_text_len = 5242880

-- The decoder reads what the encoder wrote for objects and texts within its limits, and fails where
-- nothing is left.
pub record IsCodec (cbor : Cbor) : Type 0 where
  pub empty_law : cbor.read_object [] ≡ none
  pub object_law :
      (n : ℕ) (rest : List ℕ)
      → n ≤ max_obj_size
      → cbor.read_object (cbor.write_object n ++ rest) ≡ some (n, rest)
  pub text_law :
      (s rest : List ℕ)
      → is_utf8 s ≡ true
      → length s ≤ max_text_len
      → cbor.read_text (cbor.write_text s ++ rest) ≡ some (s, rest)
  pub skip_law :
      (s rest : List ℕ)
      → is_utf8 s ≡ true
      → length s ≤ max_text_len
      → cbor.read_skip (cbor.write_text s ++ rest) ≡ some rest

-- `as_bytes`, which `Encodable for Key` writes.
unfoldable pub as_bytes : Key → List ℕ
as_bytes none = []
as_bytes (some b) = b

abbrev pub Pair : Type 0
Pair = List ℕ × List ℕ

-- A `str` that the decoder does not refuse.
abbrev pub IsText : List ℕ → Type 0
IsText s = (is_utf8 s ≡ true) × (length s ≤ max_text_len)

-- Pairs of texts, within the limits of the decoder.
pub record IsSized (pairs : List Pair) : Type 0 where
  pub count : length pairs ≤ max_obj_size
  pub texts : All (λ p. IsText p.0 × IsText p.1) pairs

module _ (cbor : Cbor) where
  open cbor use {write_object, write_text, read_object, read_text, read_skip}

  -- The loop of `from_iter`.
  unfoldable pub write_pairs : List Pair → List ℕ
  write_pairs [] = []
  write_pairs ((k, v) ∷ pairs) = write_text k ++ (write_text v ++ write_pairs pairs)

  unfoldable pub from_iter : List Pair → Key
  from_iter [] = none
  from_iter (pair ∷ pairs) =
      let all = pair ∷ pairs in some (write_object (length all) ++ write_pairs all)

  pub from_pair : List ℕ → List ℕ → Key
  from_pair key val = from_iter ((key, val) ∷ [])

  -- The value after a name that was found.
  abbrev pub value_at : Option (List ℕ × List ℕ) → Option (Option (List ℕ))
  value_at none = none
  value_at (some (v, _)) = some (some v)

  -- The loop of `get_with`, over the bytes that are left.
  unfoldable pub find_field : ℕ → List ℕ → List ℕ → Option (Option (List ℕ))
  find_field zero d name = some none
  find_field (suc num) d name = elim (read_text d) [
    | none ↦ none
    | some (field, d') ↦
        if bytes_eq field name
        then value_at (read_text d')
        else (elim (read_skip d') [ none ↦ none | some d'' ↦ find_field num d'' name ])
  ]

  -- `get_with`, without its closure: the value of a name.
  unfoldable pub get_with : Key → List ℕ → Option (Option (List ℕ))
  get_with none name = some none
  get_with (some b) name = elim (read_object b) [
    | none ↦ none
    | some (num, d) ↦ find_field num d name
  ]

  -- The loop of `validate_key`: the bytes that are left after the pairs.
  unfoldable pub skip_pairs : ℕ → List ℕ → Option (List ℕ)
  skip_pairs zero d = some d
  skip_pairs (suc num) d = elim (read_text d) [
    | none ↦ none
    | some (_, d') ↦ elim (read_text d') [ none ↦ none | some (_, d'') ↦ skip_pairs num d'' ]
  ]

  abbrev pub at_end : Option (List ℕ) → Bool
  at_end (some []) = true
  at_end _ = false

  -- `validate_key`: whether bytes from outside are those of a key.
  unfoldable pub validate_key : List ℕ → Bool
  validate_key val = elim (read_object val) [
    | none ↦ false
    | some (num, d) ↦ at_end (skip_pairs num d)
  ]

  -- `Decodable for Key`, over the bytes that were read: no result is an error.
  unfoldable pub decode_key : List ℕ → Option Key
  decode_key [] = some none
  decode_key (b ∷ val) = if validate_key (b ∷ val) then some (some (b ∷ val)) else none
