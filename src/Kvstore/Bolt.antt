-- ===== src/Kvstore/Bolt.antt =====
-- The embedded database `go.etcd.io/bbolt`, as `KVStore` uses it: an interface, and what its
-- documentation promises. A bucket is named by the path of names that leads to it.
use matrisea.Common.{
  Str, str_eq, Bool, true, false, ◌&&◌, Option, none, some, List, [], ◌∷◌, ◌≡◌, ok, err, Error,
  Action, if◌then◌else◌,
}

abbrev pub BucketPath : Type 0
BucketPath = List Str

unfoldable pub path_eq : BucketPath → BucketPath → Bool
path_eq [] [] = true
path_eq (n ∷ p) (m ∷ q) = str_eq n m && path_eq p q
path_eq _ _ = false

-- The bucket `n` in the bucket `p`.
abbrev pub child : BucketPath → Str → BucketPath
child p n = n ∷ p

pub record Database : Type 1 where
  pub Db : Type 0
  pub Tx : Type 0
  -- what a transaction that begins now sees: `db.View(fn)` runs `fn` on it
  pub begin : Db → Tx
  -- `db.Update(fn)`
  pub update : Action Tx (Unit {0}) → Action Db (Unit {0})
  -- `b.Bucket(name) != nil`
  pub has_bucket : BucketPath → Str → Tx → Bool
  -- `b.CreateBucketIfNotExists(name)`
  pub create_bucket : BucketPath → Str → Action Tx (Unit {0})
  -- `b.DeleteBucket(name)`
  pub delete_bucket : BucketPath → Str → Action Tx (Unit {0})
  -- `b.Get(key)`, nil for a missing key, and `b.Put(key, value)`
  pub get : BucketPath → Str → Tx → Option Str
  pub put : BucketPath → Str → Str → Action Tx (Unit {0})

pub record IsLawful (B : Database) : Type 0 where
  -- a successful update shows to later transactions
  pub committed :
      (f : Action B.Tx (Unit {0})) (db : B.Db)
      → (B.update f db).0 ≡ ok tt
      → ((f (B.begin db)).0 ≡ ok tt)
        × ((p : BucketPath) (n : Str)
            → B.has_bucket p n (B.begin (B.update f db).1) ≡ B.has_bucket p n (f (B.begin db)).1)
        × ((p : BucketPath) (k : Str)
            → B.get p k (B.begin (B.update f db).1) ≡ B.get p k (f (B.begin db)).1)
  -- an error of the function is returned, and rolls the transaction back
  pub rolled_back :
      (f : Action B.Tx (Unit {0})) (db : B.Db) (e : Error)
      → (f (B.begin db)).0 ≡ err e
      → B.update f db ≡ (err e, db)
  -- any error leaves the database as it was
  pub unchanged :
      (f : Action B.Tx (Unit {0})) (db : B.Db) (e : Error)
      → (B.update f db).0 ≡ err e
      → (B.update f db).1 ≡ db
  pub has-create :
      (p q : BucketPath) (n m : Str) (t : B.Tx)
      → (B.create_bucket p n t).0 ≡ ok tt
      → B.has_bucket q m (B.create_bucket p n t).1
        ≡ (if path_eq (child p n) (child q m) then true else B.has_bucket q m t)
  -- a bucket that was not there begins empty
  pub get-create :
      (p q : BucketPath) (n k : Str) (t : B.Tx)
      → (B.create_bucket p n t).0 ≡ ok tt
      → B.get q k (B.create_bucket p n t).1 ≡ (
          if path_eq (child p n) q
          then (if B.has_bucket p n t then B.get q k t else none)
          else B.get q k t)
  pub has-put :
      (p q : BucketPath) (k v m : Str) (t : B.Tx)
      → (B.put p k v t).0 ≡ ok tt
      → B.has_bucket q m (B.put p k v t).1 ≡ B.has_bucket q m t
  pub get-put :
      (p q : BucketPath) (k v j : Str) (t : B.Tx)
      → (B.put p k v t).0 ≡ ok tt
      → B.get q j (B.put p k v t).1
        ≡ (if path_eq (child p k) (child q j) then some v else B.get q j t)
  -- a missing bucket holds none
  pub no_orphans :
      (p : BucketPath) (n m : Str) (t : B.Tx)
      → B.has_bucket p n t ≡ false
      → B.has_bucket (child p n) m t ≡ false
  -- deletion takes the bucket away, and nothing beside it
  pub has-delete :
      (p : BucketPath) (n m : Str) (t : B.Tx)
      → (B.delete_bucket p n t).0 ≡ ok tt
      → B.has_bucket p m (B.delete_bucket p n t).1
        ≡ (if str_eq n m then false else B.has_bucket p m t)
  -- the buckets that hold the bucket stay
  pub has-delete_parent :
      (p : BucketPath) (n r m : Str) (t : B.Tx)
      → (B.delete_bucket (child p r) n t).0 ≡ ok tt
      → B.has_bucket p m (B.delete_bucket (child p r) n t).1 ≡ B.has_bucket p m t
  pub get-delete :
      (p : BucketPath) (n m k : Str) (t : B.Tx)
      → (B.delete_bucket p n t).0 ≡ ok tt
      → str_eq n m ≡ false
      → B.get (child p m) k (B.delete_bucket p n t).1 ≡ B.get (child p m) k t
  -- `ErrBucketNotFound`
  pub delete_missing :
      (p : BucketPath) (n : Str) (t : B.Tx)
      → B.has_bucket p n t ≡ false
      → (e : Error) × ((B.delete_bucket p n t).0 ≡ err e)
