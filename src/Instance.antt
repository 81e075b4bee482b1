-- ===== src/Instance.antt =====
-- vmm/vmm.go, `getNextCFInstanceNumber`: the numbers by which cuttlefish tells its instances apart.
pub mod Total
pub mod Least
pub mod Creation
pub mod Ports
pub mod Tests
use matrisea.Common.{
  ℕ, suc, ◌+◌, Str, text, List, [], ◌∷◌, Option, none, some, Result, ok, err, panic, length,
  if◌then◌else◌,
}
use matrisea.Common.Int.{ℤ, pos, leb_ℤ, eqb_ℤ}
use matrisea.Go.Strconv.{atoi}
use matrisea.Docker.{Container, lookup}

-- `sort.Ints`.
unfoldable pub insert : ℤ → List ℤ → List ℤ
insert a [] = a ∷ []
insert a (b ∷ l) = if leb_ℤ a b then a ∷ b ∷ l else b ∷ insert a l

unfoldable pub sort_ints : List ℤ → List ℤ
unfolding insert
sort_ints [] = []
sort_ints (a ∷ l) = insert a (sort_ints l)

-- `c.Labels["cf_instance"]`, with its `ok`.
abbrev pub cf_label : Container → Option Str
cf_label c = lookup (text "cf_instance") c.labels

-- The variables `cfList` and `indexes`, filled together.
pub record Indexed : Type 0 where
  pub cf_list : List Container
  pub indexes : List ℤ

abbrev pub add_index : Container → Result ℤ → Result Indexed → Result Indexed
add_index c (ok i) (ok f) = ok (record { cf_list = c ∷ f.cf_list; indexes = i ∷ f.indexes })
add_index c (ok i) (err e) = err e
add_index c (ok i) panic = panic
add_index c (err e) r = err e
add_index c panic r = panic

-- The loop over `containerList`. The first label that is no number ends it.
unfoldable pub collect_indexes : List Container → Result Indexed
collect_indexes [] = ok (record { cf_list = []; indexes = [] })
collect_indexes (c ∷ rest) =
    let more = collect_indexes rest in
    elim (cf_label c) [ none ↦ more | some value ↦ add_index c (atoi value) more ]

-- `indexes[len(indexes)-1]` of the list `x ∷ l`.
abbrev pub last : ℤ → List ℤ → ℤ
last x [] = x
last x (y ∷ l) = last y l

-- The endless loop `if indexes[i-1] != i { return i }; i = i + 1`, from the element at `i-1` on.
-- Past the end Go panics.
unfoldable pub first_gap : ℕ → List ℤ → Result ℕ
first_gap i [] = panic
first_gap i (x ∷ l) = let rest = first_gap (suc i) l in if eqb_ℤ x (pos i) then rest else ok i

-- The three cases on the sorted indexes, with `len(cfList)`.
unfoldable pub pick : List ℤ → ℕ → Result ℕ
unfolding first_gap
pick [] n = ok 1
pick (x ∷ l) n = if eqb_ℤ (last x l) (pos n) then ok (n + 1) else first_gap 1 (x ∷ l)

abbrev pub pick_from : Result Indexed → Result ℕ
pick_from (ok f) = pick (sort_ints f.indexes) (length f.cf_list)
pick_from (err e) = err e
pick_from panic = panic

-- `getNextCFInstanceNumber`, on the containers that `ContainerList` has returned.
unfoldable pub next_number : List Container → Result ℕ
unfolding collect_indexes pick sort_ints
next_number containers = pick_from (collect_indexes containers)
