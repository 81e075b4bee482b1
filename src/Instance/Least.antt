-- ===== src/Instance/Least.antt =====
-- Where the assigned numbers are distinct and positive, the search finds the least free one.
use matrisea.Common.{
  ℕ, suc, ◌+◌, ◌≤◌, ◌<◌, ◌≡◌, inl, inr, refl, sym, ap, ◌∙◌, List, [], ◌∷◌, ok, length, Bool-cases,
  arith, if◌then◌else◌,
}
use mathlib.Core.Path.{subst}
use matrisea.Common.Int.{ℤ, pos, negsuc, eqb_ℤ}
use matrisea.Docker.{Container}
use matrisea.Instance.{
  insert, sort_ints, last, first_gap, pick, Indexed, collect_indexes, next_number,
}
use matrisea.Instance.Total.{pick_total, length-sort_ints, length-collect_indexes}

-- How often an index occurs.
abbrev pub count : ℤ → List ℤ → ℕ
count a [] = 0
count a (b ∷ l) = if eqb_ℤ a b then suc (count a l) else count a l

-- No number is assigned twice, and all are positive.
abbrev pub AreDistinct : List ℤ → Type 0
AreDistinct [] = Unit
AreDistinct (pos a ∷ l) = (1 ≤ a) × (count (pos a) l ≡ 0) × AreDistinct l
AreDistinct (negsuc a ∷ l) = ⊥

-- Positive and strictly ascending, from `lo` on.
abbrev Ascends : ℕ → List ℤ → Type 0
Ascends lo [] = Unit
Ascends lo (pos a ∷ l) = (lo ≤ a) × Ascends (suc a) l
Ascends lo (negsuc a ∷ l) = ⊥

count-insert : (a b : ℤ) (l : List ℤ) → count a (insert b l) ≡ count a (b ∷ l)
unfolding insert
count-insert a b [] = refl
count-insert a b (c ∷ l) = ground (arith, count-insert a b l)

pub count-sort_ints : (a : ℤ) (l : List ℤ) → count a (sort_ints l) ≡ count a l
unfolding sort_ints
count-sort_ints a [] = refl
count-sort_ints a (b ∷ l) = ground (arith, count-insert a b (sort_ints l), count-sort_ints a l)

insert-Ascends :
    (a lo : ℕ) (l : List ℤ)
    → lo ≤ a
    → count (pos a) l ≡ 0
    → Ascends lo l
    → Ascends lo (insert (pos a) l)
unfolding insert
insert-Ascends a lo [] le new h = (le, tt)
insert-Ascends a lo (negsuc b ∷ l) le new h = absurd h
insert-Ascends a lo (pos b ∷ l) le new h = ground (arith, insert-Ascends a (suc b) l)

sort_ints-Ascends : (l : List ℤ) → AreDistinct l → Ascends 1 (sort_ints l)
unfolding sort_ints
sort_ints-Ascends [] d = tt
sort_ints-Ascends (negsuc a ∷ l) d = absurd d
sort_ints-Ascends (pos a ∷ l) d =
    insert-Ascends a 1 (sort_ints l) d.0 (count-sort_ints (pos a) l ∙ d.1) (sort_ints-Ascends l d.2)

count-below : (k lo : ℕ) (l : List ℤ) → k < lo → Ascends lo l → count (pos k) l ≡ 0
count-below k lo [] lt h = refl
count-below k lo (negsuc a ∷ l) lt h = absurd h
count-below k lo (pos a ∷ l) lt h = ground (arith, count-below k (suc a) l)

-- `n` is free, and every number from `lo` up to `n` is assigned.
pub record IsLeastFree (lo n : ℕ) (l : List ℤ) : Type 0 where
  pub free : count (pos n) l ≡ 0
  pub taken : (k : ℕ) → lo ≤ k → k < n → 1 ≤ count (pos k) l

first_gap-le : (i : ℕ) (l : List ℤ) (r : ℕ) → first_gap i l ≡ ok r → i ≤ r
unfolding first_gap
first_gap-le i [] r e = absurd (cc)
first_gap-le i (x ∷ l) r e = ground (arith, first_gap-le (suc i) l r)

-- One more assigned number in front.
IsLeastFree-cons :
    (i r : ℕ) (l : List ℤ) → i < r → IsLeastFree (suc i) r l → IsLeastFree i r (pos i ∷ l)
IsLeastFree-cons i r l lt h = record {
  free = ground (arith, h.free);
  taken = λ k lo hi. ground (arith, h.taken k);
}

IsLeastFree-here : (i a : ℕ) (l : List ℤ) → i < a → Ascends (suc a) l → IsLeastFree i i (pos a ∷ l)
IsLeastFree-here i a l lt h = record {
  free = ground (arith, count-below i (suc a) l);
  taken = λ k lo hi. absurd (omega arith);
}

first_gap-IsLeastFree :
    (i : ℕ) (l : List ℤ) (r : ℕ) → Ascends i l → first_gap i l ≡ ok r → IsLeastFree i r l
unfolding first_gap
first_gap-IsLeastFree i [] r h e = absurd (cc)
first_gap-IsLeastFree i (negsuc a ∷ l) r h e = absurd h
first_gap-IsLeastFree i (pos a ∷ l) r h e = elim (Bool-cases (eqb_ℤ (pos a) (pos i))) [
  | inr gap ↦
      let found : i ≡ r = ground arith in
      subst (λ n. IsLeastFree i n (pos a ∷ l)) found (IsLeastFree-here i a l (ground arith) h.1)
  | inl same ↦
      let at : a ≡ i = ground arith in
      let later : first_gap (suc i) l ≡ ok r = ground arith in
      subst (λ n. IsLeastFree i r (pos n ∷ l)) (sym at)
        (IsLeastFree-cons i r l (first_gap-le (suc i) l r later)
          (first_gap-IsLeastFree (suc i) l r (rw at at h.1) later))
]

last-ge :
    (a : ℕ) (l : List ℤ) (m : ℕ) → Ascends (suc a) l → last (pos a) l ≡ pos m → a + length l ≤ m
last-ge a [] m h e = ground arith
last-ge a (negsuc b ∷ l) m h e = absurd h
last-ge a (pos b ∷ l) m h e = ground (arith, last-ge b l m)

-- The numbers are continuous so far.
full-IsLeastFree :
    (i a : ℕ) (l : List ℤ)
    → Ascends i (pos a ∷ l)
    → last (pos a) l ≡ pos (i + length l)
    → IsLeastFree i (i + length l + 1) (pos a ∷ l)
full-IsLeastFree i a [] h e =
    let at : a ≡ i = ground arith in
    rw (at) (
      IsLeastFree-cons i _ [] (omega arith)
        (record { free = refl; taken = λ k lo hi. absurd (omega arith) }))
full-IsLeastFree i a (negsuc b ∷ l) h e = absurd h.1
full-IsLeastFree i a (pos b ∷ l) h e =
    let at : a ≡ i = omega (arith, last-ge b l (i + length (pos b ∷ l)) h.1.1 e) in
    let r = i + length (pos b ∷ l) + 1 in
    subst (λ k. IsLeastFree i r (pos k ∷ pos b ∷ l)) (sym at)
      (IsLeastFree-cons i r (pos b ∷ l) (omega arith) (
        subst (λ m. IsLeastFree (suc i) m (pos b ∷ l)) (omega arith)
          (full-IsLeastFree (suc i) b l (rw at at h.1) (e ∙ ap pos (omega arith)))))

pub pick-IsLeastFree :
    (l : List ℤ) (n : ℕ) → Ascends 1 l → pick l (length l) ≡ ok n → IsLeastFree 1 n l
unfolding pick
pick-IsLeastFree [] n h e =
    let one : 1 ≡ n = ground arith in
    subst (λ m. IsLeastFree 1 m []) one
      (record { free = refl; taken = λ k lo hi. absurd (omega arith) })
pick-IsLeastFree (negsuc a ∷ l) n h e = absurd h
pick-IsLeastFree (pos a ∷ l) n h e =
    elim (Bool-cases (eqb_ℤ (last (pos a) l) (pos (suc (length l))))) [
      | inl full ↦
          subst (λ m. IsLeastFree 1 m (pos a ∷ l)) (ground arith)
            (full-IsLeastFree 1 a l h (ground arith))
      | inr gap ↦ first_gap-IsLeastFree 1 (pos a ∷ l) n h (rw gap at e)
    ]

-- A number found for distinct positive indexes, in any order.
pub pick-sort_ints-IsLeastFree :
    (l : List ℤ) (n : ℕ) → AreDistinct l → pick (sort_ints l) (length l) ≡ ok n → IsLeastFree 1 n l
pick-sort_ints-IsLeastFree l n d e =
    let h = pick-IsLeastFree (sort_ints l) n (sort_ints-Ascends l d) (rw length-sort_ints e) in
    record {
      free = rw (count-sort_ints) at h.free;
      taken = λ k lo hi. rw (count-sort_ints) at (h.taken k lo hi);
    }

-- getNextCFInstanceNumber, on containers whose cf_instance labels parse to distinct positive
-- numbers, returns the least positive number that no container has, and with that number added the
-- numbers are distinct again.
pub next_number-IsLeastFree :
    (cs : List Container) (f : Indexed)
    → collect_indexes cs ≡ ok f
    → AreDistinct f.indexes
    → (n : ℕ) × (next_number cs ≡ ok n)
      × IsLeastFree 1 n f.indexes
      × AreDistinct (pos n ∷ f.indexes)
unfolding next_number
next_number-IsLeastFree cs f h d =
    let same = length-collect_indexes cs f h in
    let (n, e, lo, hi) = pick_total (sort_ints f.indexes) in
    let found : pick (sort_ints f.indexes) (length f.indexes) ≡ ok n =
      rw (← length-sort_ints f.indexes) e in
    let least = pick-sort_ints-IsLeastFree f.indexes n d found in
    (n, rw (h, ← same) found, least, (lo, least.free, d))
