-- ===== src/History/Merge/Kinds.antt =====
-- `merge` gathers chunks of one kind in their order, and reports a conflict otherwise.
use cantal.Common.{ℕ, ◌≡◌, refl, List, [], ◌∷◌, ◌++◌, Option, none, some, sym, ap, ◌∙◌}
use cantal.Common.{Option-cases, inl, inr, append-nil, append_assoc}
use cantal.History.Chunk.{HistoryChunk}
use cantal.History.Merge.{StateItem, ChunkSet, join, merge_onto, merge}

-- A list in which every element is of a kind, given by what it holds.
abbrev pub all_of {ℓ κ} : {C : Type ℓ} {A : Type κ} → (C → Option A) → List C → Option (List A)
all_of pick [] = some []
all_of pick (c ∷ cs) = elim (pick c) [
  | none ↦ none
  | some item ↦ elim (all_of pick cs) [ none ↦ none | some items ↦ some (item ∷ items) ]
]

module _ {F : Type 0} where
  abbrev pub of_kind : {A : Type 0} → (List A → ChunkSet F) → Option (List A) → ChunkSet F
  of_kind set none = ChunkSet.conflict
  of_kind set (some items) = set items

  abbrev pub pick_state : HistoryChunk F → Option StateItem
  pick_state (HistoryChunk.state item) = some item
  pick_state _ = none

  abbrev pub pick_counter : HistoryChunk F → Option (List (Option ℕ))
  pick_counter (HistoryChunk.counter item) = some item
  pick_counter _ = none

  abbrev pub pick_integer : HistoryChunk F → Option (List (Option ℕ))
  pick_integer (HistoryChunk.integer item) = some item
  pick_integer _ = none

  abbrev pub pick_float : HistoryChunk F → Option (List (Option F))
  pick_float (HistoryChunk.float item) = some item
  pick_float _ = none

  -- All chunks as a set of the kind of the first.
  abbrev pub gathered : List (HistoryChunk F) → ChunkSet F
  gathered [] = ChunkSet.empty
  gathered (HistoryChunk.state item ∷ chunks) =
      of_kind ChunkSet.states (all_of pick_state (HistoryChunk.state item ∷ chunks))
  gathered (HistoryChunk.counter item ∷ chunks) =
      of_kind ChunkSet.counters (all_of pick_counter (HistoryChunk.counter item ∷ chunks))
  gathered (HistoryChunk.integer item ∷ chunks) =
      of_kind ChunkSet.integers (all_of pick_integer (HistoryChunk.integer item ∷ chunks))
  gathered (HistoryChunk.float item ∷ chunks) =
      of_kind ChunkSet.floats (all_of pick_float (HistoryChunk.float item ∷ chunks))

  merge_conflict :
      (chunks : List (HistoryChunk F)) → merge_onto ChunkSet.conflict chunks ≡ ChunkSet.conflict
  unfolding merge_onto join
  merge_conflict [] = refl
  merge_conflict (chunk ∷ chunks) = merge_conflict chunks

  -- What `join` does with a set of one kind.
  abbrev joined : {A : Type 0} → (List A → ChunkSet F) → List A → Option A → ChunkSet F
  joined set items none = ChunkSet.conflict
  joined set items (some item) = set (items ++ (item ∷ []))

  module _ {A : Type 0} (set : List A → ChunkSet F) (pick : HistoryChunk F → Option A)
      (law : (items : List A) (c : HistoryChunk F)
        → join (set items) c ≡ joined set items (pick c)) where
    merge_onto-of_kind :
        (items : List A) (chunks : List (HistoryChunk F))
        → merge_onto (set items) chunks
          ≡ elim (all_of pick chunks) [ none ↦ ChunkSet.conflict | some more ↦ set (items ++ more) ]
    unfolding merge_onto
    merge_onto-of_kind items [] = ap set (sym (append-nil items))
    merge_onto-of_kind items (c ∷ chunks) = elim (Option-cases (pick c)) [
      | inl e ↦ rw (law items c, e) (merge_conflict chunks)
      | inr (item, e) ↦
          let rest = merge_onto-of_kind (items ++ (item ∷ [])) chunks in
          rw (law items c, e)
            (rest ∙ elim (Option-cases (all_of pick chunks)) [
              | inl n ↦ rw n refl
              | inr (more, n) ↦ rw n (ap set (append_assoc items (item ∷ []) more))
            ])
    ]

  state-law :
      (items : List StateItem) (c : HistoryChunk F)
      → join (ChunkSet.states items) c ≡ joined ChunkSet.states items (pick_state c)
  unfolding join
  state-law items (HistoryChunk.state _) = refl
  state-law items (HistoryChunk.counter _) = refl
  state-law items (HistoryChunk.integer _) = refl
  state-law items (HistoryChunk.float _) = refl

  counter-law :
      (items : List (List (Option ℕ))) (c : HistoryChunk F)
      → join (ChunkSet.counters items) c ≡ joined ChunkSet.counters items (pick_counter c)
  unfolding join
  counter-law items (HistoryChunk.state _) = refl
  counter-law items (HistoryChunk.counter _) = refl
  counter-law items (HistoryChunk.integer _) = refl
  counter-law items (HistoryChunk.float _) = refl

  integer-law :
      (items : List (List (Option ℕ))) (c : HistoryChunk F)
      → join (ChunkSet.integers items) c ≡ joined ChunkSet.integers items (pick_integer c)
  unfolding join
  integer-law items (HistoryChunk.state _) = refl
  integer-law items (HistoryChunk.counter _) = refl
  integer-law items (HistoryChunk.integer _) = refl
  integer-law items (HistoryChunk.float _) = refl

  float-law :
      (items : List (List (Option F))) (c : HistoryChunk F)
      → join (ChunkSet.floats items) c ≡ joined ChunkSet.floats items (pick_float c)
  unfolding join
  float-law items (HistoryChunk.state _) = refl
  float-law items (HistoryChunk.counter _) = refl
  float-law items (HistoryChunk.integer _) = refl
  float-law items (HistoryChunk.float _) = refl

  front :
      {A : Type 0} (set : List A → ChunkSet F) (item : A) (o : Option (List A))
      → elim o [ none ↦ ChunkSet.conflict | some more ↦ set ((item ∷ []) ++ more) ]
        ≡ of_kind set (elim o [ none ↦ none | some items ↦ some (item ∷ items) ])
  front set item none = refl
  front set item (some more) = refl

  -- Merging chunks that are all of one kind gives a set of that kind with what they hold, in their
  -- order; of no chunks it gives the empty set, and of chunks of several kinds a conflict.
  pub merge-gathered : (chunks : List (HistoryChunk F)) → merge chunks ≡ gathered chunks
  unfolding merge merge_onto join
  merge-gathered [] = refl
  merge-gathered (HistoryChunk.state item ∷ chunks) =
      merge_onto-of_kind ChunkSet.states pick_state state-law (item ∷ []) chunks
      ∙ front ChunkSet.states item (all_of pick_state chunks)
  merge-gathered (HistoryChunk.counter item ∷ chunks) =
      merge_onto-of_kind ChunkSet.counters pick_counter counter-law (item ∷ []) chunks
      ∙ front ChunkSet.counters item (all_of pick_counter chunks)
  merge-gathered (HistoryChunk.integer item ∷ chunks) =
      merge_onto-of_kind ChunkSet.integers pick_integer integer-law (item ∷ []) chunks
      ∙ front ChunkSet.integers item (all_of pick_integer chunks)
  merge-gathered (HistoryChunk.float item ∷ chunks) =
      merge_onto-of_kind ChunkSet.floats pick_float float-law (item ∷ []) chunks
      ∙ front ChunkSet.floats item (all_of pick_float chunks)
