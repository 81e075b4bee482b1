-- ===== src/Vmm/Setup.antt =====
-- vmm/vmm.go, `NewVMM`, `NewVMMImpl` and `Close`: a manager's folders and its database.
use matrisea.Common.{Str, text, List, [], ◌∷◌, Action, ◌>>=◌, ◌>>◌, pure, catch, if◌then◌else◌}
use matrisea.Go.Path.{join}
use matrisea.Kvstore.{new_kv_store}
use matrisea.Vmm.Host.{Vmm, Host, World, on_files, stat}

-- The fields of a new manager.
unfoldable pub manager_of : Str → Str → Vmm
manager_of data_dir cf_prefix = record {
  data_dir = data_dir;
  devices_dir = join (data_dir ∷ text "devices" ∷ []);
  db_dir = join (data_dir ∷ text "db" ∷ []);
  upload_dir = join (data_dir ∷ text "upload" ∷ []);
  cf_prefix = cf_prefix;
}

-- The prefix of `NewVMM`.
abbrev pub default_prefix : Str
default_prefix = text "matrisea-cvd-"

module _ (H : Host) where
  -- The loop over the folders. An error is one of `log.Fatalf`, which ends the program.
  unfoldable pub make_folders : List Str → Action (World H) (Unit {0})
  make_folders [] = pure tt
  make_folders (f ∷ folders) = do
    there ← stat H f
    if there then pure tt else on_files H (H.files.mkdir_all f)
    make_folders folders

  -- Over `bolt.Open`.
  module _ (open_db : Str → Action (World H) (Unit {0})) where
    -- The database is opened in the data folder, not in the folder that is made for it.
    unfoldable pub new_vmm_impl : Str → Str → Action (World H) Vmm
    new_vmm_impl data_dir cf_prefix = do
      let v = manager_of data_dir cf_prefix
      make_folders (v.data_dir ∷ v.devices_dir ∷ v.db_dir ∷ v.upload_dir ∷ [])
      new_kv_store open_db data_dir
      pure v

    -- `diskSheriff` only starts a goroutine, which is in `Vmm.Sheriff`.
    unfoldable pub new_vmm : Str → Action (World H) Vmm
    new_vmm data_dir = new_vmm_impl data_dir default_prefix

  -- `Close`, over that of the database: an error is logged only.
  unfoldable pub close : Action (World H) (Unit {0}) → Action (World H) (Unit {0})
  close close_db = catch close_db (λ e. pure tt)
