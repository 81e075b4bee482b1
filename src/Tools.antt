-- ===== src/Tools.antt =====
-- tools/cli.go: the developer's command `prunevm`.
use matrisea.Common.{
  Str, text, str_eq, length, ◌==◌, [], ◌∷◌, Action, ◌>>=◌, ◌>>◌, pure, if◌then◌else◌,
}
use matrisea.Go.Path.{join}
use matrisea.Vmm.Host.{Host, World, on_files}
use matrisea.Vmm.Remove.{vm_prune}
use matrisea.Vmm.Setup.{new_vmm_impl}

-- `getenv` of this package, on the value of the variable.
unfoldable pub getenv : Str → Str → Str
getenv value fallback = if length value == 0 then fallback else value

module _ (H : Host) (open_db : Str → Action (World H) (Unit {0})) where
  -- The action of `--cmd prunevm`, on the values of the two variables. An error is one of
  -- `log.Fatalln`, which ends the program.
  unfoldable pub prune_all : Str → Str → Action (World H) (Unit {0})
  prune_all data_dir_value cf_prefix_value = do
    let data_dir = getenv data_dir_value (text "/tmp/matrisea")
    let devices_dir = join (data_dir ∷ text "devices" ∷ [])
    v ← new_vmm_impl H open_db data_dir (getenv cf_prefix_value (text "matrisea-test-"))
    vm_prune H v
    on_files H (H.files.remove_all devices_dir)
    on_files H (H.files.mkdir devices_dir)

  -- Any other command prints the usage only.
  unfoldable pub run_command : Str → Str → Str → Action (World H) (Unit {0})
  run_command cmd data_dir_value cf_prefix_value =
      if str_eq cmd (text "prunevm") then prune_all data_dir_value cf_prefix_value else pure tt
