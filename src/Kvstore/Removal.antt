-- ===== src/Kvstore/Removal.antt =====
-- Removing the configuration of a container.
use matrisea.Common.{
  Str, str_eq, true, false, none, ◌≡◌, ◌∙◌, [], ok, err, Error, if◌then◌else◌, arith,
}
use matrisea.Kvstore.{container_bucket, parent, remove_configs, remove_container_configs}
use matrisea.Kvstore.Bolt.{Database, IsLawful}
use matrisea.Kvstore.Values.{visible, stored, visible_committed}

module _ (B : Database) (L : IsLawful B) where
  visible-remove_configs :
      (c : Str) (t : B.Tx)
      → (remove_configs B c t).0 ≡ ok tt
      → (d k : Str)
      → visible B d k (remove_configs B c t).1 ≡ (if str_eq c d then none else visible B d k t)
  unfolding remove_configs
  visible-remove_configs c t h d k = ground (
    arith,
    L.has-delete_parent [] c container_bucket container_bucket t,
    L.has-delete (parent B) c d t,
    L.get-delete (parent B) c d k t,
  )

  -- After a successful RemoveContainerConfigs over a lawful database the container has no value for
  -- any key, and every other container has the values that it had.
  pub stored-remove :
      (c : Str) (db : B.Db)
      → (remove_container_configs B c db).0 ≡ ok tt
      → (d k : Str)
      → stored B d k (remove_container_configs B c db).1
        ≡ (if str_eq c d then none else stored B d k db)
  unfolding remove_container_configs
  stored-remove c db h d k =
      visible_committed B L (remove_configs B c) db h d k
      ∙ visible-remove_configs c (B.begin db) (L.committed (remove_configs B c) db h).0 d k

  -- Where the container bucket exists and the container has no configuration,
  -- RemoveContainerConfigs over a lawful database returns an error and changes nothing.
  pub remove_missing :
      (c : Str) (db : B.Db)
      → B.has_bucket [] container_bucket (B.begin db) ≡ true
      → B.has_bucket (parent B) c (B.begin db) ≡ false
      → (e : Error) × (remove_container_configs B c db ≡ (err e, db))
  unfolding remove_container_configs
  remove_missing c db root missing =
      let (e, h) = L.delete_missing (parent B) c (B.begin db) missing in
      (e, L.rolled_back (remove_configs B c) db e (ground (arith, h)))
