-- ===== src/Instance/Total.antt =====
-- The search for a number ends, with no index out of range, and its result is bounded.
use matrisea.Common.{
  ℕ, suc, ◌+◌, ◌≤◌, ◌<◌, ◌≡◌, ◌⊎◌, inl, inr, refl, ap, ◌∙◌, List, [], ◌∷◌, Result, ok, err, panic,
  length, Bool-cases, arith, Option-cases,
}
use matrisea.Common.Int.{ℤ, pos, eqb_ℤ, eqb_ℤ_iff}
use matrisea.Docker.{Container}
use matrisea.Go.Strconv.{atoi}
use matrisea.Instance.{
  insert, sort_ints, Indexed, collect_indexes, add_index, cf_label, last, first_gap, pick,
  next_number,
}

-- Either the loop stops inside the list, or the list counts up from `i` to its last element.
first_gap_cases :
    (i : ℕ) (x : ℤ) (l : List ℤ)
    → ((r : ℕ) × (first_gap i (x ∷ l) ≡ ok r) × (i ≤ r) × (r < i + length (x ∷ l)))
      ⊎ (last x l ≡ pos (i + length l))
unfolding first_gap
first_gap_cases i x [] = elim (Bool-cases (eqb_ℤ x (pos i))) [
  | inl same ↦ inr (ground (arith, eqb_ℤ_iff x (pos i)))
  | inr other ↦ inl (i, ground arith, ground arith, ground arith)
]
first_gap_cases i x (y ∷ l) = elim (Bool-cases (eqb_ℤ x (pos i))) [
  | inr other ↦ inl (i, ground arith, ground arith, ground arith)
  | inl same ↦ elim (first_gap_cases (suc i) y l) [
    | inl (r, e, lo, hi) ↦ inl (r, ground arith, ground arith, ground arith)
    | inr e ↦ inr (ground arith)
  ]
]

pub pick_total : (l : List ℤ) → (n : ℕ) × (pick l (length l) ≡ ok n) × (1 ≤ n) × (n ≤ length l + 1)
unfolding pick
pick_total [] = (1, refl, omega arith, omega arith)
pick_total (x ∷ l) = elim (Bool-cases (eqb_ℤ (last x l) (pos (length (x ∷ l))))) [
  | inl full ↦ (length (x ∷ l) + 1, ground arith, ground arith, ground arith)
  | inr other ↦ elim (first_gap_cases 1 x l) [
    | inl (r, e, lo, hi) ↦ (r, ground arith, ground arith, ground arith)
    | inr e ↦ absurd (ground (arith, eqb_ℤ_iff (last x l) (pos (suc (length l)))))
  ]
]

length-insert : (a : ℤ) (l : List ℤ) → length (insert a l) ≡ suc (length l)
unfolding insert
length-insert a [] = refl
length-insert a (b ∷ l) = ground (arith, length-insert a l)

pub length-sort_ints : (l : List ℤ) → length (sort_ints l) ≡ length l
unfolding sort_ints
length-sort_ints [] = refl
length-sort_ints (a ∷ l) = length-insert a (sort_ints l) ∙ ap suc (length-sort_ints l)

-- What the loop returns from one labelled container on.
add_index-lengths :
    (c : Container) (r : Result ℤ) (more : Result Indexed) (f : Indexed)
    → ((g : Indexed) → more ≡ ok g → length g.indexes ≡ length g.cf_list)
    → add_index c r more ≡ ok f
    → length f.indexes ≡ length f.cf_list
add_index-lengths c (ok i) (ok g) f ih h = ground (arith, ih g)
add_index-lengths c (ok i) (err e) f ih h = absurd (cc)
add_index-lengths c (ok i) panic f ih h = absurd (cc)
add_index-lengths c (err e) more f ih h = absurd (cc)
add_index-lengths c panic more f ih h = absurd (cc)

-- Each container in `cfList` gave one index.
pub length-collect_indexes :
    (cs : List Container) (f : Indexed)
    → collect_indexes cs ≡ ok f
    → length f.indexes ≡ length f.cf_list
unfolding collect_indexes
length-collect_indexes [] f h = ground arith
length-collect_indexes (c ∷ cs) f h = elim (Option-cases (cf_label c)) [
  | inl without ↦ length-collect_indexes cs f (rw (without, collect_indexes) at h)
  | inr (v, labelled) ↦
      add_index-lengths c (atoi v) (collect_indexes cs) f (length-collect_indexes cs)
        (rw (labelled, collect_indexes) at h)
]

-- Unless a cf_instance label is no number, getNextCFInstanceNumber returns a number, from 1 to one
-- past the number of cuttlefish containers: its endless loop stops and no index is out of range.
pub next_number_total :
    (cs : List Container) (f : Indexed)
    → collect_indexes cs ≡ ok f
    → (n : ℕ) × (next_number cs ≡ ok n) × (1 ≤ n) × (n ≤ length f.cf_list + 1)
unfolding next_number
next_number_total cs f h =
    let (n, e, lo, hi) = pick_total (sort_ints f.indexes) in
    let same : length (sort_ints f.indexes) ≡ length f.cf_list =
      length-sort_ints f.indexes ∙ length-collect_indexes cs f h in
    (n, rw (h, ← same) e, lo, omega arith)
