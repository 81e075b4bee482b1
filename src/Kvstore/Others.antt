-- ===== src/Kvstore/Others.antt =====
-- A write of one container's configuration leaves the others alone, whatever comes of it.
use matrisea.Common.{
  Str, str_eq, false, List, ◌≡◌, refl, ap, ◌∙◌, Result, ok, err, panic, Action, wrap_result,
}
use matrisea.Kvstore.{
  KeyValue, put_values, put_container_value, remove_configs, remove_container_configs,
}
use matrisea.Kvstore.Bolt.{Database, IsLawful}
use matrisea.Kvstore.Values.{stored, stored-put, put_failed}
use matrisea.Kvstore.Removal.{stored-remove}

-- `db.Update` rolls the transaction back if the function panics, too.
pub record RollsBack (B : Database) : Type 0 where
  pub panicked :
      (f : Action B.Tx (Unit {0})) (db : B.Db) → (B.update f db).0 ≡ panic → (B.update f db).1 ≡ db

wrap_result-panic : (msg : Str) (r : Result (Unit {0})) → wrap_result msg r ≡ panic → r ≡ panic
wrap_result-panic msg (ok a) h = absurd (cc)
wrap_result-panic msg (err e) h = absurd (cc)
wrap_result-panic msg panic h = refl

module _ (B : Database) (L : IsLawful B) (P : RollsBack B) (c : Str) (db : B.Db) where
  module _ (d k : Str) (other : str_eq c d ≡ false) where
    stored-put_as :
        (kvs : List KeyValue) (r : Result (Unit {0}))
        → (put_container_value B c kvs db).0 ≡ r
        → stored B d k (put_container_value B c kvs db).1 ≡ stored B d k db
    stored-put_as kvs (ok tt) h = stored-put B L c kvs db h d k ∙ rw other
    stored-put_as kvs (err e) h = ap (stored B d k) (put_failed B L c kvs db e h)
    stored-put_as kvs panic h =
        unfold put_container_value in
        ap (stored B d k) (P.panicked (put_values B c kvs) db (wrap_result-panic _ _ h))

    pub stored-put_other :
        (kvs : List KeyValue) → stored B d k (put_container_value B c kvs db).1 ≡ stored B d k db
    stored-put_other kvs = stored-put_as kvs _ refl

    stored-remove_as :
        (r : Result (Unit {0}))
        → (remove_container_configs B c db).0 ≡ r
        → stored B d k (remove_container_configs B c db).1 ≡ stored B d k db
    stored-remove_as (ok tt) h = stored-remove B L c db h d k ∙ rw other
    stored-remove_as (err e) h =
        unfold remove_container_configs in
        ap (stored B d k) (L.unchanged (remove_configs B c) db e h)
    stored-remove_as panic h =
        unfold remove_container_configs in ap (stored B d k) (P.panicked (remove_configs B c) db h)

    pub stored-remove_other : stored B d k (remove_container_configs B c db).1 ≡ stored B d k db
    stored-remove_other = stored-remove_as _ refl
