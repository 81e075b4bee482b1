-- ===== src/Kvstore/Memory.antt =====
-- A database in memory that keeps the promises of `Kvstore.Bolt`: they can be met.
use matrisea.Common.{
  Str, str_eq, str_eq_iff, text, Bool, true, false, ◌&&◌, ◌||◌, Option, none, some, [], ◌∷◌, ◌≡◌,
  ◌↔◌, refl, ap, ◌∙◌, ◌≤◌, Result, ok, err, panic, Error, message, Action, if◌then◌else◌, length,
  arith,
}
use matrisea.Kvstore.Others.{RollsBack}
use matrisea.Kvstore.Bolt.{Database, IsLawful, BucketPath, path_eq}

pub record Memory : Type 0 where
  pub flags : BucketPath → Str → Bool
  pub values : BucketPath → Str → Option Str

-- A bucket is there if it and every bucket around it is marked.
abbrev exists : Memory → BucketPath → Bool
exists s [] = true
exists s (n ∷ p) = exists s p && s.flags p n

abbrev created : BucketPath → Str → Memory → Memory
created p n s = record {
  flags = λ q m.
      if path_eq (n ∷ p) (m ∷ q)
      then true
      else if exists s (n ∷ p)
      then s.flags q m
      else if path_eq (n ∷ p) q
      then false
      else s.flags q m;
  values = λ q k.
      if path_eq (n ∷ p) q then (if exists s (n ∷ p) then s.values q k else none) else s.values q k;
}

abbrev deleted : BucketPath → Str → Memory → Memory
deleted p n s = record s { flags = λ q m. if path_eq (n ∷ p) (m ∷ q) then false else s.flags q m }

abbrev written : BucketPath → Str → Str → Memory → Memory
written p k v s = record s {
  values = λ q j. if path_eq (k ∷ p) (j ∷ q) then some v else s.values q j;
}

abbrev settle : Result (Unit {0}) → Memory → Memory → Result (Unit {0}) × Memory
settle (ok a) s' s = (ok tt, s')
settle (err e) s' s = (err e, s)
settle panic s' s = (panic, s)

unfoldable pub create_in : BucketPath → Str → Action Memory (Unit {0})
create_in p n s =
    if exists s p then (ok tt, created p n s) else (err (message (text "bucket not found")), s)

unfoldable pub delete_in : BucketPath → Str → Action Memory (Unit {0})
delete_in p n s =
    if exists s (n ∷ p)
    then (ok tt, deleted p n s)
    else (err (message (text "bucket not found")), s)

abbrev pub memory : Database
memory = record {
  Db = Memory;
  Tx = Memory;
  begin = λ s. s;
  update = λ f s. settle (f s).0 (f s).1 s;
  has_bucket = λ p n s. exists s (n ∷ p);
  create_bucket = create_in;
  delete_bucket = delete_in;
  get = λ p k s. s.values p k;
  put = λ p k v s. (ok tt, written p k v s);
}

path_eq_iff : (p q : BucketPath) → (path_eq p q ≡ true) ↔ (p ≡ q)
unfolding path_eq
path_eq_iff [] [] = (λ h. refl, λ h. refl)
path_eq_iff [] (m ∷ q) = ground arith
path_eq_iff (n ∷ p) [] = ground arith
path_eq_iff (n ∷ p) (m ∷ q) = ground (arith, path_eq_iff p q, str_eq_iff n m)

exists-created :
    (p : BucketPath) (n : Str) (s : Memory)
    → exists s p ≡ true
    → (q : BucketPath) → exists (created p n s) q ≡ (path_eq (n ∷ p) q || exists s q)
exists-created p n s h [] = unfold path_eq in refl
exists-created p n s h (m ∷ q) =
    rw (exists-created p n s h q)
      (ground (arith, path_eq_iff (n ∷ p) (m ∷ q), path_eq_iff (n ∷ p) q))

-- Deleting a bucket keeps those that are not deeper.
exists-deleted :
    (p : BucketPath) (n : Str) (s : Memory) (q : BucketPath)
    → length q ≤ length p
    → exists (deleted p n s) q ≡ exists s q
exists-deleted p n s [] h = refl
exists-deleted p n s (m ∷ q) h =
    rw (exists-deleted p n s q (omega arith)) (ground (arith, path_eq_iff (n ∷ p) (m ∷ q)))

settle_committed :
    (r : Result (Unit {0})) (s' s : Memory)
    → (settle r s' s).0 ≡ ok tt
    → (r ≡ ok tt) × ((settle r s' s).1 ≡ s')
settle_committed (ok a) s' s h = (refl, refl)
settle_committed (err e) s' s h = absurd (cc)
settle_committed panic s' s h = absurd (cc)

settle_unchanged :
    (r : Result (Unit {0})) (s' s : Memory) (e : Error)
    → (settle r s' s).0 ≡ err e
    → (settle r s' s).1 ≡ s
settle_unchanged (ok a) s' s e h = absurd (cc)
settle_unchanged (err e') s' s e h = refl
settle_unchanged panic s' s e h = refl

create_in-ok :
    (p : BucketPath) (n : Str) (s : Memory)
    → (create_in p n s).0 ≡ ok tt
    → (exists s p ≡ true) × ((create_in p n s).1 ≡ created p n s)
unfolding create_in
create_in-ok p n s h = ground arith

delete_in-ok :
    (p : BucketPath) (n : Str) (s : Memory)
    → (delete_in p n s).0 ≡ ok tt
    → (exists s (n ∷ p) ≡ true) × ((delete_in p n s).1 ≡ deleted p n s)
unfolding delete_in
delete_in-ok p n s h = ground arith

exists-written :
    (p : BucketPath) (k v : Str) (s : Memory) (q : BucketPath)
    → exists (written p k v s) q ≡ exists s q
exists-written p k v s [] = refl
exists-written p k v s (m ∷ q) = ap (λ (b : Bool). b && s.flags q m) (exists-written p k v s q)

has-create_in :
    (p q : BucketPath) (n m : Str) (s : Memory)
    → (create_in p n s).0 ≡ ok tt
    → exists (create_in p n s).1 (m ∷ q)
      ≡ (if path_eq (n ∷ p) (m ∷ q) then true else exists s (m ∷ q))
has-create_in p q n m s h =
    let (there, e) = create_in-ok p n s h in
    ap (λ (t : Memory). exists t (m ∷ q)) e ∙ exists-created p n s there (m ∷ q) ∙ ground arith

get-create_in :
    (p q : BucketPath) (n k : Str) (s : Memory)
    → (create_in p n s).0 ≡ ok tt
    → (create_in p n s).1.values q k ≡ (
        if path_eq (n ∷ p) q
        then (if exists s (n ∷ p) then s.values q k else none)
        else s.values q k)
get-create_in p q n k s h = ap (λ (t : Memory). t.values q k) (create_in-ok p n s h).1

has-delete_in :
    (p : BucketPath) (n m : Str) (s : Memory)
    → (delete_in p n s).0 ≡ ok tt
    → exists (delete_in p n s).1 (m ∷ p) ≡ (if str_eq n m then false else exists s (m ∷ p))
has-delete_in p n m s h =
    ap (λ (t : Memory). exists t (m ∷ p)) (delete_in-ok p n s h).1
    ∙ rw (exists-deleted p n s p (omega arith)) (unfold path_eq in ground (arith, path_eq_iff p p))

has-delete_in_parent :
    (p : BucketPath) (n r m : Str) (s : Memory)
    → (delete_in (r ∷ p) n s).0 ≡ ok tt
    → exists (delete_in (r ∷ p) n s).1 (m ∷ p) ≡ exists s (m ∷ p)
has-delete_in_parent p n r m s h =
    ap (λ (t : Memory). exists t (m ∷ p)) (delete_in-ok (r ∷ p) n s h).1
    ∙ exists-deleted (r ∷ p) n s (m ∷ p) (omega arith)

delete_in_missing :
    (p : BucketPath) (n : Str) (s : Memory)
    → exists s (n ∷ p) ≡ false
    → (delete_in p n s).0 ≡ err (message (text "bucket not found"))
unfolding delete_in
delete_in_missing p n s h = ground arith

pub memory-IsLawful : IsLawful memory
memory-IsLawful = record {
  committed = λ f s h.
      let (a, b) = settle_committed (f s).0 (f s).1 s h in
      (
        a,
        λ p n. ap (λ (t : Memory). exists t (n ∷ p)) b,
        λ p k. ap (λ (t : Memory). t.values p k) b,
      );
  rolled_back = λ f s e h. rw h;
  unchanged = λ f s e h. settle_unchanged (f s).0 (f s).1 s e h;
  has-create = has-create_in;
  get-create = get-create_in;
  has-put = λ p q k v m t h. exists-written p k v t (m ∷ q);
  get-put = λ p q k v j t h. refl;
  no_orphans = λ p n m t h. ground arith;
  has-delete = has-delete_in;
  has-delete_parent = has-delete_in_parent;
  get-delete = λ p n m k t h d. ap (λ (s : Memory). s.values (m ∷ p) k) (delete_in-ok p n t h).1;
  delete_missing = λ p n t h. (message (text "bucket not found"), delete_in_missing p n t h);
}

settle_panicked :
    (r : Result (Unit {0})) (s' s : Memory) → (settle r s' s).0 ≡ panic → (settle r s' s).1 ≡ s
settle_panicked (ok a) s' s h = absurd (cc)
settle_panicked (err e) s' s h = refl
settle_panicked panic s' s h = refl

pub memory-RollsBack : RollsBack memory
memory-RollsBack = record { panicked = λ f s h. settle_panicked (f s).0 (f s).1 s h }

-- A database with no buckets.
abbrev pub empty : Memory
empty = record { flags = λ p n. false; values = λ p k. none }
