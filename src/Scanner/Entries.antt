-- ===== src/Scanner/Entries.antt =====
-- Which entries of a scan go to which history.
use cantal.Common.{◌≡◌, refl, ap, arith, false, not, Bool-cases, inl, inr, none, some, [], ◌∷◌, All}
use cantal.Common.Maps.{Map, lookup, Unique, filter_entries}
use cantal.History.Word.{IsWord}
use cantal.History.Key.{Key, key_eq, key_eq_iff, key_has_eq}
use cantal.History.Values.{TipValue}
use cantal.History.Backlog.Push.{IsScan}
use cantal.Scanner.{is_state, tip_entries, fine_entries}

-- The numbers that were read are of 64 bits.
abbrev pub HasWord : {F : Type 0} → TipValue F → Type 0
HasWord (TipValue.counter v) = IsWord v
HasWord (TipValue.integer v) = IsWord v
HasWord (TipValue.float v) = Unit {0}
HasWord (TipValue.state ts text) = Unit {0}

fine_entries-absent :
    {F : Type 0} (k : Key) (tip : Map Key (TipValue F))
    → lookup k tip ≡ none
    → All (λ e. key_eq k e.0 ≡ false) (fine_entries tip)
unfolding fine_entries lookup
fine_entries-absent k [] h = tt
fine_entries-absent k ((j, v) ∷ tip) h = elim (Bool-cases (key_eq j k)) [
  | inl e ↦ let impossible : some v ≡ none = rw e at h in cc
  | inr e ↦
      let later = fine_entries-absent k tip (rw e at h) in
      let other : key_eq k j ≡ false = ground (arith, key_eq_iff k j, key_eq_iff j k) in
      elim (Bool-cases (is_state v)) [ inl s ↦ rw s later | inr s ↦ rw s (other, later) ]
]

pub fine_entries-IsScan :
    {F : Type 0} (tip : Map Key (TipValue F))
    → Unique tip
    → All (λ e. HasWord e.1) tip
    → IsScan (fine_entries tip)
unfolding fine_entries
fine_entries-IsScan [] u w = tt
fine_entries-IsScan ((k, TipValue.counter v) ∷ tip) u w =
    (w.0, fine_entries-absent k tip u.0, fine_entries-IsScan tip u.1 w.1)
fine_entries-IsScan ((k, TipValue.integer v) ∷ tip) u w =
    (w.0, fine_entries-absent k tip u.0, fine_entries-IsScan tip u.1 w.1)
fine_entries-IsScan ((k, TipValue.float v) ∷ tip) u w =
    (tt, fine_entries-absent k tip u.0, fine_entries-IsScan tip u.1 w.1)
fine_entries-IsScan ((k, TipValue.state ts text) ∷ tip) u w = fine_entries-IsScan tip u.1 w.1

pub fine_entries-filter :
    {F : Type 0} (tip : Map Key (TipValue F))
    → fine_entries tip ≡ filter_entries (λ k v. not (is_state v)) tip
unfolding fine_entries filter_entries
fine_entries-filter [] = refl
fine_entries-filter ((k, v) ∷ tip) = elim (Bool-cases (is_state v)) [
  | inl e ↦ rw e (fine_entries-filter tip)
  | inr e ↦ rw e (ap (◌∷◌ (k, v)) (fine_entries-filter tip))
]

pub tip_entries-filter :
    {F : Type 0} (tip : Map Key (TipValue F))
    → tip_entries tip ≡ filter_entries (λ k v. is_state v) tip
unfolding tip_entries filter_entries
tip_entries-filter [] = refl
tip_entries-filter ((k, v) ∷ tip) = elim (Bool-cases (is_state v)) [
  | inl e ↦ rw e (ap (◌∷◌ (k, v)) (tip_entries-filter tip))
  | inr e ↦ rw e (tip_entries-filter tip)
]
