-- ===== src/Kvstore/Values.antt =====
-- What the configuration store keeps: the last value written for each container and key.
use matrisea.Common.{
  Str, str_eq, str_eq_refl, str_eq_iff, text, true, Option, none, some, List, [], ◌∷◌, ◌≡◌, ◌↔◌,
  refl, ◌∙◌, Result, ok, err, panic, Action, Error, wrap_result, ◌>>=◌, if◌then◌else◌, arith,
}
use matrisea.Kvstore.{
  KeyValue, container_bucket, parent, nested, put_all, put_values, put_container_value,
  get_container_value,
}
use matrisea.Kvstore.Bolt.{Database, IsLawful, BucketPath, path_eq}

-- The value of a key after a list of writes, from its value before them.
abbrev pub override : List KeyValue → Str → Option Str → Option Str
override [] k old = old
override (kv ∷ kvs) k old = override kvs k (if str_eq kv.key k then some kv.value else old)

path_eq_refl : (p : BucketPath) → path_eq p p ≡ true
unfolding path_eq
path_eq_refl [] = refl
path_eq_refl (n ∷ p) = rw (str_eq_refl n) (path_eq_refl p)

module _ (B : Database) where
  -- The value of a container's key in the sight of a transaction.
  abbrev pub visible : Str → Str → B.Tx → Option Str
  visible c k t =
      if B.has_bucket [] container_bucket t
      then if B.has_bucket (parent B) c t then B.get (nested B c) k t else none
      else none

  -- The value of a container's key in a database.
  abbrev pub stored : Str → Str → B.Db → Option Str
  stored c k db = visible c k (B.begin db)

  -- `GetContainerValue` succeeds exactly with the stored value.
  pub get_container_value_iff :
      (c k v : Str) (db : B.Db)
      → (get_container_value B c k db ≡ (ok v, db)) ↔ (stored c k db ≡ some v)
  unfolding get_container_value
  get_container_value_iff c k v db = ground arith

  module _ (L : IsLawful B) where
    put_all-step :
        (bkt : BucketPath) (kv : KeyValue) (kvs : List KeyValue) (t : B.Tx)
        → (put_all B bkt (kv ∷ kvs) t).0 ≡ ok tt
        → ((B.put bkt kv.key kv.value t).0 ≡ ok tt)
          × (put_all B bkt (kv ∷ kvs) t ≡ put_all B bkt kvs (B.put bkt kv.key kv.value t).1)
    unfolding put_all ◌>>=◌
    put_all-step bkt kv kvs t h = ground arith

    has-put_all :
        (bkt : BucketPath) (kvs : List KeyValue) (t : B.Tx)
        → (put_all B bkt kvs t).0 ≡ ok tt
        → (q : BucketPath) (m : Str) → B.has_bucket q m (put_all B bkt kvs t).1 ≡ B.has_bucket q m t
    has-put_all bkt [] t h q m = unfold put_all in refl
    has-put_all bkt (kv ∷ kvs) t h q m =
        let (done, e) = put_all-step bkt kv kvs t h in
        rw e (
          has-put_all bkt kvs (B.put bkt kv.key kv.value t).1 (rw e at h) q m
          ∙ L.has-put bkt q kv.key kv.value m t done)

    get-put_all :
        (bkt : BucketPath) (kvs : List KeyValue) (t : B.Tx)
        → (put_all B bkt kvs t).0 ≡ ok tt
        → (q : BucketPath) (j : Str)
        → B.get q j (put_all B bkt kvs t).1
          ≡ (if path_eq bkt q then override kvs j (B.get q j t) else B.get q j t)
    get-put_all bkt [] t h q j = unfold put_all in ground arith
    get-put_all bkt (kv ∷ kvs) t h q j =
        let (done, e) = put_all-step bkt kv kvs t h in
        rw e (
          get-put_all bkt kvs (B.put bkt kv.key kv.value t).1 (rw e at h) q j
          ∙ unfold path_eq in rw (L.get-put bkt q kv.key kv.value j t done) (ground arith))

    module _ (c : Str) (kvs : List KeyValue) (t : B.Tx) where
      abbrev with_root : B.Tx
      with_root = (B.create_bucket [] container_bucket t).1

      abbrev with_bucket : B.Tx
      with_bucket = (B.create_bucket (parent B) c with_root).1

      abbrev after : B.Tx
      after = (put_values B c kvs t).1

      put_values-steps :
          (put_values B c kvs t).0 ≡ ok tt
          → ((B.create_bucket [] container_bucket t).0 ≡ ok tt)
            × ((B.create_bucket (parent B) c with_root).0 ≡ ok tt)
            × ((put_all B (nested B c) kvs with_bucket).0 ≡ ok tt)
            × (after ≡ (put_all B (nested B c) kvs with_bucket).1)
      unfolding put_values ◌>>=◌
      put_values-steps h = ground arith

      has_root-put_values :
          (put_values B c kvs t).0 ≡ ok tt → B.has_bucket [] container_bucket after ≡ true
      has_root-put_values h =
          let (r, b, p, e) = put_values-steps h in
          rw e (
            has-put_all (nested B c) kvs with_bucket p [] container_bucket
            ∙ L.has-create (parent B) [] c container_bucket with_root b
            ∙ unfold path_eq in
              ground (
                arith,
                L.has-create [] [] container_bucket container_bucket t r,
                str_eq_refl container_bucket,
              ))

      has_parent-put_values :
          (put_values B c kvs t).0 ≡ ok tt
          → (d : Str)
          → B.has_bucket (parent B) d after
            ≡ (if str_eq c d then true else B.has_bucket (parent B) d t)
      has_parent-put_values h d =
          let (r, b, p, e) = put_values-steps h in
          rw e (
            has-put_all (nested B c) kvs with_bucket p (parent B) d
            ∙ L.has-create (parent B) (parent B) c d with_root b
            ∙ unfold path_eq in
              ground (
                arith,
                L.has-create [] (parent B) container_bucket d t r,
                str_eq_refl container_bucket,
              ))

      get-put_values :
          (put_values B c kvs t).0 ≡ ok tt
          → (d k : Str)
          → B.get (nested B d) k after ≡ (
              if str_eq c d
              then override kvs k
                  (if B.has_bucket (parent B) c t then B.get (nested B d) k t else none)
              else B.get (nested B d) k t)
      get-put_values h d k =
          let (r, b, p, e) = put_values-steps h in
          rw e (
            get-put_all (nested B c) kvs with_bucket p (nested B d) k
            ∙ unfold path_eq in
              ground (
                arith,
                L.get-create (parent B) (nested B d) c k with_root b,
                L.get-create [] (nested B d) container_bucket k t r,
                L.has-create [] (parent B) container_bucket c t r,
                str_eq_refl container_bucket,
              ))

    visible-put_values :
        (c : Str) (kvs : List KeyValue) (t : B.Tx)
        → (put_values B c kvs t).0 ≡ ok tt
        → (d k : Str)
        → visible d k (put_values B c kvs t).1
          ≡ (if str_eq c d then override kvs k (visible d k t) else visible d k t)
    visible-put_values c kvs t h d k = rw (has_root-put_values c kvs t h) (
        rw (has_parent-put_values c kvs t h d) (
          rw (get-put_values c kvs t h d k) (
            ground (
              arith,
              L.no_orphans [] container_bucket c t,
              L.no_orphans [] container_bucket d t,
              str_eq_iff c d,
            ))))

    pub visible_committed :
        (f : Action B.Tx (Unit {0})) (db : B.Db)
        → (B.update f db).0 ≡ ok tt
        → (d k : Str) → stored d k (B.update f db).1 ≡ visible d k (f (B.begin db)).1
    visible_committed f db h d k =
        let (done, buckets, values) = L.committed f db h in
        ground (arith, buckets [] container_bucket, buckets (parent B) d, values (nested B d) k)

    -- After a successful PutContainterValue over a lawful database a key of the container has the
    -- last value that the call wrote to it, or else the value that it had, and every key of any
    -- other container has the value that it had.
    pub stored-put :
        (c : Str) (kvs : List KeyValue) (db : B.Db)
        → (put_container_value B c kvs db).0 ≡ ok tt
        → (d k : Str)
        → stored d k (put_container_value B c kvs db).1
          ≡ (if str_eq c d then override kvs k (stored d k db) else stored d k db)
    stored-put c kvs db h d k =
        let done : (B.update (put_values B c kvs) db).0 ≡ ok tt =
          unfold put_container_value in ground arith in
        unfold put_container_value in
        visible_committed (put_values B c kvs) db done d k
        ∙ visible-put_values c kvs (B.begin db) (L.committed (put_values B c kvs) db done).0 d k

    -- A PutContainterValue over a lawful database that returns an error has changed nothing.
    pub put_failed :
        (c : Str) (kvs : List KeyValue) (db : B.Db) (e : Error)
        → (put_container_value B c kvs db).0 ≡ err e
        → (put_container_value B c kvs db).1 ≡ db
    put_failed c kvs db e h =
        go ((B.update (put_values B c kvs) db).0) refl (unfold put_container_value in h)
      where
        go :
            (r : Result (Unit {0}))
            → (B.update (put_values B c kvs) db).0 ≡ r
            → wrap_result (text "fail to update db") r ≡ err e
            → (put_container_value B c kvs db).1 ≡ db
        go (ok x) q k = absurd (cc)
        go (err e') q k = unfold put_container_value in L.unchanged (put_values B c kvs) db e' q
        go panic q k = absurd (cc)
