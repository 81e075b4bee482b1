-- ===== src/Kvstore.antt =====
-- vmm/kvstore.go: the configuration values of each container, in nested buckets of a database.
pub mod Bolt
pub mod Values
pub mod Removal
pub mod Others
pub mod Memory
pub mod Tests
use matrisea.Common.{
  Str, text, Bool, true, false, Option, none, some, List, [], ◌∷◌, ◌++◌, Result, ok, err, panic,
  Action, Error, message, wrapped, wrap, wrap_result, pure, ◌>>=◌, ◌>>◌, if◌then◌else◌,
}
use matrisea.Go.Path.{join}
use matrisea.Kvstore.Bolt.{Database, BucketPath, child}

pub record KeyValue : Type 0 where
  pub key : Str
  pub value : Str

-- `ContainerBucket`
abbrev pub container_bucket : Str
container_bucket = text "container"

-- `DBFile`
abbrev pub db_file : Str
db_file = text "bolt.db"

-- `NewKVStore`, over `bolt.Open`: the database is a file of the folder.
unfoldable pub new_kv_store : {S : Type 0} → (Str → Action S (Unit {0})) → Str → Action S (Unit {0})
new_kv_store open_db base_path = open_db (join (base_path ∷ db_file ∷ []))

module _ (B : Database) where
  -- The path of the bucket of a container, under `ContainerBucket`.
  abbrev pub parent : BucketPath
  parent = child [] container_bucket

  abbrev pub nested : Str → BucketPath
  nested container_name = child parent container_name

  -- The loop `for _, kv := range kvs`.
  unfoldable pub put_all : BucketPath → List KeyValue → Action B.Tx (Unit {0})
  put_all bkt [] = pure tt
  put_all bkt (kv ∷ kvs) =
      wrap (text "fail to put value") (B.put bkt kv.key kv.value) >> put_all bkt kvs

  -- The function that `PutContainterValue` runs in its transaction.
  unfoldable pub put_values : Str → List KeyValue → Action B.Tx (Unit {0})
  unfolding put_all
  put_values container_name kvs = do
    wrap (text "fail to get container bucket") (B.create_bucket [] container_bucket)
    wrap (text "fail to get bucket " ++ container_name) (B.create_bucket parent container_name)
    put_all (nested container_name) kvs

  unfoldable pub put_container_value : Str → List KeyValue → Action B.Db (Unit {0})
  unfolding put_values
  put_container_value container_name kvs =
      wrap (text "fail to update db") (B.update (put_values container_name kvs))

  -- The function that `GetContainerValue` runs: it reads the buckets from the outer to the inner.
  abbrev found_or : Str → Str → Option Str → Result Str
  found_or container_name key none =
      err (message (text "key " ++ (key ++ (text " not found in " ++ container_name))))
  found_or container_name key (some value) = ok value

  unfoldable pub get_value : Str → Str → B.Tx → Result Str
  get_value container_name key t =
      if B.has_bucket [] container_bucket t
      then if B.has_bucket parent container_name t
        then found_or container_name key (B.get (nested container_name) key t)
        else err (message (text "bucket " ++ (container_name ++ text " not found")))
      else err (message (text "container bucket not found"))

  unfoldable pub get_container_value : Str → Str → Action B.Db Str
  unfolding get_value
  get_container_value container_name key db = (get_value container_name key (B.begin db), db)

  abbrev or_empty : Option Str → Str
  or_empty none = []
  or_empty (some value) = value

  unfoldable pub get_container_value_or_empty : Str → Str → B.Db → Str
  get_container_value_or_empty container_name key db =
      let t = B.begin db in
      if B.has_bucket [] container_bucket t
      then if B.has_bucket parent container_name t
        then or_empty (B.get (nested container_name) key t)
        else []
      else []

  -- The function that `RemoveContainerConfigs` runs.
  unfoldable pub remove_configs : Str → Action B.Tx (Unit {0})
  remove_configs container_name t =
      if B.has_bucket [] container_bucket t
      then B.delete_bucket parent container_name t
      else (ok tt, t)

  unfoldable pub remove_container_configs : Str → Action B.Db (Unit {0})
  unfolding remove_configs
  remove_container_configs container_name = B.update (remove_configs container_name)
