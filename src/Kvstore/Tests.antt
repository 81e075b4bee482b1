-- ===== src/Kvstore/Tests.antt =====
-- Runs of the configuration store over the database in memory, and the theorems at concrete data.
use matrisea.Common.{
  Str, text, str_eq, ◌≡◌, refl, List, [], ◌∷◌, Result, ok, err, message, Error, if◌then◌else◌,
  wrapped, ◌>>=◌,
}
use matrisea.Kvstore.{KeyValue, put_container_value, get_container_value, remove_container_configs}
use matrisea.Kvstore.Bolt.{Database, IsLawful, path_eq}
use matrisea.Kvstore.Memory.{Memory, memory, memory-IsLawful, empty, create_in, delete_in}
use matrisea.Kvstore.Values.{override, stored, stored-put}

abbrev cpu_4 : List KeyValue
cpu_4 = record { key = text "cpu"; value = text "4" } ∷ []

abbrev box : Str
box = text "matrisea-cvd-a"

filled : Memory
unfolding put_container_value create_in ◌>>=◌ path_eq str_eq text
filled = (put_container_value memory box cpu_4 empty).1

put-empty : (put_container_value memory box cpu_4 empty).0 ≡ ok tt
unfolding filled
put-empty = refl

get-filled : get_container_value memory box (text "cpu") filled ≡ (ok (text "4"), filled)
unfolding filled get_container_value
get-filled = refl

get-missing_key :
    (get_container_value memory box (text "ram") filled).0
    ≡ err (message (text "key ram not found in matrisea-cvd-a"))
unfolding filled get_container_value
get-missing_key = refl

get-missing_bucket :
    (get_container_value memory (text "aaa") (text "cpu") filled).0
    ≡ err (message (text "bucket aaa not found"))
unfolding filled get_container_value
get-missing_bucket = refl

stored-put_example :
    stored memory box (text "cpu") (put_container_value memory box cpu_4 empty).1 ≡ (
      if str_eq box box
      then override cpu_4 (text "cpu") (stored memory box (text "cpu") empty)
      else stored memory box (text "cpu") empty)
stored-put_example = stored-put memory memory-IsLawful box cpu_4 empty put-empty box (text "cpu")

-- A database whose disk is full: what does not fail by itself fails when it is committed.
abbrev no_space : Error
no_space = message (text "no space left on device")

abbrev failure : Result (Unit {0}) → Error
failure (err e) = e
failure _ = no_space

abbrev full : Database
full = record memory { update = λ f s. (err (failure (f s).0), s) }

full-IsLawful : IsLawful full
full-IsLawful = record {
  committed = λ f s h. absurd (cc);
  rolled_back = λ f s e h. rw h;
  unchanged = λ f s e h. refl;
  has-create = memory-IsLawful.has-create;
  get-create = memory-IsLawful.get-create;
  has-put = memory-IsLawful.has-put;
  get-put = memory-IsLawful.get-put;
  no_orphans = memory-IsLawful.no_orphans;
  has-delete = memory-IsLawful.has-delete;
  has-delete_parent = memory-IsLawful.has-delete_parent;
  get-delete = memory-IsLawful.get-delete;
  delete_missing = memory-IsLawful.delete_missing;
}

put-full :
    (put_container_value full box cpu_4 filled).0
    ≡ err (wrapped (text "fail to update db") no_space)
unfolding filled
put-full = refl

remove-filled : (remove_container_configs memory box filled).0 ≡ ok tt
unfolding filled remove_container_configs delete_in
remove-filled = refl
