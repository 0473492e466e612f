-- ===== src/Metrics/Offsets.antt =====
-- Where in the file each value lies: behind the lengths of all descriptors before its own.
use cantal.Common.{
  ℕ, ◌+◌, ◌-◌, ◌≤◌, ◌<◌, ltb, leb, ◌==◌, ==_iff, ltb→lt, le→leb, ge→ltb, ◌≡◌, refl, ◌∙◌, sym, ap,
  arith, true, false, if◌then◌else◌, Bool-cases, inl, inr, Option, none, some, List, [], ◌∷◌, take,
  drop, length, drop-drop, take-take, drop-take,
}
use cantal.History.Values.{TipValue}
use cantal.Metrics.{MetricType, LevelType, len, FileId, ok, Descriptor, Metadata}
use cantal.Metrics.Reading.{
  Cursor, number, read_bytes, seek, until_zero, is_visited, with_value, read_item, add_value,
  read_values, read_data,
}

-- The lengths of all descriptors.
abbrev pub total : {Json : Type 0} → List (Descriptor Json) → ℕ
total [] = 0
total (desc ∷ items) = len desc.kind + total items

module _ {F : Type 0} (float_of : List ℕ → F) (lossy : List ℕ → List ℕ) where
  -- What the bytes of a metric stand for, if its type is one that is read.
  abbrev pub value_of : MetricType → List ℕ → Option (TipValue F)
  value_of (MetricType.counter n) bytes =
      if n == 8 then some (TipValue.counter (number bytes)) else none
  value_of (MetricType.level n LevelType.signed) bytes =
      if n == 8 then some (TipValue.integer (number bytes)) else none
  value_of (MetricType.level n LevelType.float) bytes =
      if n == 8 then some (TipValue.float (float_of bytes)) else none
  value_of (MetricType.level n LevelType.unsigned) bytes = none
  value_of (MetricType.state n) bytes =
      if ltb 8 n
      then some (TipValue.state (number (take 8 bytes)) (lossy (until_zero (drop 8 bytes))))
      else none
  value_of (MetricType.pad n) bytes = none
  value_of (MetricType.unknown n) bytes = none

  abbrev pub paired :
      {Json : Type 0}
      → Descriptor Json
      → Option (TipValue F)
      → List (Descriptor Json × TipValue F)
      → List (Descriptor Json × TipValue F)
  paired desc none rest = rest
  paired desc (some value) rest = (desc, value) ∷ rest

  -- The values of a file from an offset on, each cut out of the file by itself.
  abbrev pub values_at :
      {Json : Type 0} → List (Descriptor Json) → List ℕ → ℕ → List (Descriptor Json × TipValue F)
  values_at [] buf offset = []
  values_at (desc ∷ items) buf offset =
      paired desc (value_of desc.kind (take (len desc.kind) (drop offset buf)))
        (values_at items buf (offset + len desc.kind))

  abbrev at : List ℕ → ℕ → Cursor
  at buf position = record { buf = buf; position = position }

  -- A type of eight bytes, of which a value is made, or that is skipped.
  eight_bytes :
      (make : List ℕ → TipValue F) (n : ℕ) (buf : List ℕ) (p : ℕ)
      → p + n ≤ length buf
      → (if n == 8
          then with_value float_of lossy (read_bytes (at buf p)) make
          else ok (none, seek n (at buf p)))
        ≡ ok (if n == 8 then some (make (take n (drop p buf))) else none, at buf (p + n))
  eight_bytes make n buf p h = elim (Bool-cases (n == 8)) [
    | inl e ↦
        let same : n ≡ 8 = (==_iff n 8).0 e in
        let inside : leb (p + 8) (length buf) ≡ true = le→leb _ _ (omega arith) in
        rw (e, inside) (ap (λ k. ok (some (make (take k (drop p buf))), at buf (p + k))) (sym same))
    | inr e ↦ rw e refl
  ]

  read_item-value_of :
      (kind : MetricType) (buf : List ℕ) (p : ℕ)
      → p + len kind ≤ length buf
      → read_item float_of lossy kind (at buf p)
        ≡ ok (value_of kind (take (len kind) (drop p buf)), at buf (p + len kind))
  unfolding read_item
  read_item-value_of (MetricType.counter n) buf p h =
      eight_bytes (λ b. TipValue.counter (number b)) n buf p h
  read_item-value_of (MetricType.level n LevelType.signed) buf p h =
      eight_bytes (λ b. TipValue.integer (number b)) n buf p h
  read_item-value_of (MetricType.level n LevelType.float) buf p h =
      eight_bytes (λ b. TipValue.float (float_of b)) n buf p h
  read_item-value_of (MetricType.level n LevelType.unsigned) buf p h = refl
  read_item-value_of (MetricType.pad n) buf p h = refl
  read_item-value_of (MetricType.unknown n) buf p h = refl
  read_item-value_of (MetricType.state n) buf p h = elim (Bool-cases (ltb 8 n)) [
    | inr e ↦ rw e refl
    | inl e ↦
        let long : 8 < n = ltb→lt 8 n e in
        let inside : leb (p + 8) (length buf) ≡ true = le→leb _ _ (omega arith) in
        let fits : ltb (length buf) (p + 8 + n - 8) ≡ false = ge→ltb _ _ (omega arith) in
        let whole : 8 + (n - 8) ≡ n = omega arith in
        let time : take 8 (take n (drop p buf)) ≡ take 8 (drop p buf) =
          take-take 8 n (drop p buf) (omega arith) in
        let rest : drop 8 (take n (drop p buf)) ≡ take (n - 8) (drop (p + 8) buf) =
          ap (λ k. drop 8 (take k (drop p buf))) (sym whole)
          ∙ drop-take 8 (n - 8) (drop p buf)
          ∙ ap (take (n - 8)) (drop-drop 8 p buf) in
        let end : p + 8 + (n - 8) ≡ p + n = omega arith in
        rw (e, inside, fits, time, rest, end) refl
  ]

  read_values-values_at :
      {Json : Type 0} (items : List (Descriptor Json)) (buf : List ℕ) (p : ℕ)
      → p + total items ≤ length buf
      → read_values float_of lossy items (at buf p) ≡ ok (values_at items buf p)
  unfolding read_values
  read_values-values_at [] buf p h = refl
  read_values-values_at (desc ∷ items) buf p h =
      let now = read_item-value_of desc.kind buf p (omega arith) in
      let later = read_values-values_at items buf (p + len desc.kind) (omega arith) in
      rw (read_values, now)
        (rw later (add desc (value_of desc.kind (take (len desc.kind) (drop p buf))) _))
    where
      add :
          {Json : Type 0} (d : Descriptor Json) (v : Option (TipValue F))
          (rest : List (Descriptor Json × TipValue F))
          → add_value float_of lossy d v (ok rest) ≡ ok (paired d v rest)
      add d none rest = refl
      add d (some v) rest = refl

  -- A file that was not read before and is as long as its descriptors say is read without an
  -- error, and gives for each descriptor of a type that is read the value of the bytes that lie
  -- behind the lengths of the descriptors before it; those of other types are passed over.
  pub read_data-values_at :
      {Json : Type 0} (m : Metadata Json) (file_id : FileId) (buf : List ℕ) (visited : List FileId)
      → is_visited file_id visited ≡ false
      → total m.items ≤ length buf
      → read_data float_of lossy m (some (file_id, some buf)) visited
        ≡ (file_id ∷ visited, ok (values_at m.items buf 0))
  unfolding read_data
  read_data-values_at m file_id buf visited fresh long =
      rw fresh
        (ap (λ r. (file_id ∷ visited, r)) (read_values-values_at m.items buf 0 (omega arith)))
