-- ===== src/Query/Functions/Columns.antt =====
-- What `vec_sum` gives: the sum of each column, if no series is too short.
use cantal.Common.{
  ℕ, zero, suc, ◌+◌, ◌≤◌, ◌<◌, ◌≡◌, refl, ap, ◌∙◌, arith, All, ltb, ltb→lt, Bool-cases, inl, inr,
}
use cantal.Common.{Option, none, some, List, [], ◌∷◌, ◌++◌, length, get_elem?}
use cantal.Query.Functions.{add_known, vec_sum, vec_sum_all}

-- An entry of a series, nothing past its end.
abbrev pub entry {ℓ} : {A : Type ℓ} → List (Option A) → ℕ → Option A
entry xs i = elim (get_elem? xs i) [ none ↦ none | some x ↦ x ]

module _ {A : Type 0} (add : A → A → A) where
  -- The sum of the known values of one column, onto a first.
  abbrev pub column_sum : Option A → ℕ → List (List (Option A)) → Option A
  column_sum x i [] = x
  column_sum x i (source ∷ lst) = column_sum (add_known add x (entry source i)) i lst

  -- The sums of `n` columns from one on.
  abbrev pub column_sums : ℕ → ℕ → List (List (Option A)) → List (Option A)
  column_sums zero i lst = []
  column_sums (suc n) i lst = column_sum none i lst ∷ column_sums n (suc i) lst

  pub column_sums_unique :
      (xs : List (Option A)) (n i : ℕ) (lst : List (List (Option A)))
      → length xs ≡ n
      → ((j : ℕ) → j < n → get_elem? xs j ≡ some (column_sum none (i + j) lst))
      → xs ≡ column_sums n i lst
  column_sums_unique [] zero i lst h p = refl
  column_sums_unique [] (suc n) i lst h p = absurd (omega arith)
  column_sums_unique (x ∷ xs) zero i lst h p = absurd (omega arith)
  column_sums_unique (x ∷ xs) (suc n) i lst h p =
      let first : ◌≡◌ {A = Option (Option A)} (some x) (some (column_sum none i lst)) =
        p 0 (omega arith) ∙ ap (λ j. some (column_sum none j lst)) (omega arith) in
      let head : x ≡ column_sum none i lst = cc in
      let rest = column_sums_unique xs n (suc i) lst (omega (arith, h)) (λ j l.
        p (suc j) (omega (arith, l)) ∙ ap (λ k. some (column_sum none k lst)) (omega arith)) in
      rw (head, rest) refl

  pub record Summed (target : List (Option A)) (lst : List (List (Option A)))
      (o : Option (List (Option A))) : Type 0 where
    pub total : List (Option A)
    pub done : o ≡ some total
    pub size : length total ≡ length target
    pub points :
        (i : ℕ) → i < length target → get_elem? total i ≡ some (column_sum (entry target i) i lst)

  vec_sum-Summed :
      (target source : List (Option A))
      → length target ≤ length source
      → Summed target (source ∷ []) (vec_sum add target source)
  unfolding vec_sum
  vec_sum-Summed [] source h = record {
    total = [];
    done = refl;
    size = refl;
    points = λ i l. absurd (omega arith);
  }
  vec_sum-Summed (x ∷ target) [] h = absurd (omega arith)
  vec_sum-Summed (x ∷ target) (y ∷ source) h =
      let rest = vec_sum-Summed target source (omega arith) in
      record {
        total = add_known add x y ∷ rest.total;
        done = rw (vec_sum, rest.done) refl;
        size = ap suc rest.size;
        points = column rest;
      }
    where
      column :
          (rest : Summed target (source ∷ []) (vec_sum add target source)) (i : ℕ)
          → i < suc (length target)
          → get_elem? (add_known add x y ∷ rest.total) i
            ≡ some (column_sum (entry (x ∷ target) i) i ((y ∷ source) ∷ []))
      column rest zero l = refl
      column rest (suc i) l = rest.points i (omega arith)

  entry-get_elem? :
      (xs : List (Option A)) (i : ℕ) (x : Option A) → get_elem? xs i ≡ some x → entry xs i ≡ x
  entry-get_elem? xs i x e = rw (entry, e) refl

  pub vec_sum_all-Summed :
      (target : List (Option A)) (lst : List (List (Option A)))
      → All (λ source. length target ≤ length source) lst
      → Summed target lst (vec_sum_all add target lst)
  unfolding vec_sum_all
  vec_sum_all-Summed target [] a = record {
    total = target;
    done = refl;
    size = refl;
    points = λ i l. inside target i l;
  }
    where
      inside : (xs : List (Option A)) (i : ℕ) → i < length xs → get_elem? xs i ≡ some (entry xs i)
      inside [] i l = absurd (omega arith)
      inside (x ∷ xs) zero l = refl
      inside (x ∷ xs) (suc i) l = inside xs i (omega arith)
  vec_sum_all-Summed target (source ∷ lst) a =
      let one = vec_sum-Summed target source a.0 in
      let rest = vec_sum_all-Summed one.total lst (rw one.size a.1) in
      record {
        total = rest.total;
        done = rw (vec_sum_all, one.done) rest.done;
        size = rest.size ∙ one.size;
        points = λ i l.
            rest.points i (omega (arith, one.size, l))
            ∙ ap (λ x. some (column_sum x i lst)) (entry-get_elem? one.total i _ (one.points i l));
      }

  vec_sum-short :
      (target source : List (Option A))
      → length source < length target
      → vec_sum add target source ≡ none
  unfolding vec_sum
  vec_sum-short [] source h = absurd (omega arith)
  vec_sum-short (x ∷ target) [] h = refl
  vec_sum-short (x ∷ target) (y ∷ source) h =
      rw (vec_sum, vec_sum-short target source (omega arith)) refl

  -- A source with fewer entries than the target, wherever it stands.
  pub vec_sum_all-short :
      (target source : List (Option A)) (before after : List (List (Option A)))
      → length source < length target
      → vec_sum_all add target (before ++ (source ∷ after)) ≡ none
  unfolding vec_sum_all
  vec_sum_all-short target source [] after h = rw (vec_sum_all, vec_sum-short target source h) refl
  vec_sum_all-short target source (s ∷ before) after h =
      elim (Bool-cases (ltb (length s) (length target))) [
        | inl less ↦ rw (vec_sum_all, vec_sum-short target s (ltb→lt _ _ less)) refl
        | inr enough ↦
            let one = vec_sum-Summed target s (ground arith) in
            rw (vec_sum_all, one.done)
              (vec_sum_all-short one.total source before after (rw one.size h))
      ]
