-- ===== src/Vmm/Remove.antt =====
-- vmm/vmm.go, `VMRemove` and `VMPrune`.
pub mod Lists
pub mod Prune
pub mod Effects
pub mod Targets
use matrisea.Common.{
  Str, text, true, List, [], ◌∷◌, ◌++◌, Result, ok, err, panic, Error, Action, ◌>>=◌, ◌>>◌, pure,
  crash, lift, wrap, catch, length, ltb, if◌then◌else◌,
}
use matrisea.Go.Path.{join}
use matrisea.Docker.{Container}
use matrisea.Kvstore.{remove_container_configs}
use matrisea.Vmm.Host.{Vmm, Host, World, on_engine, on_files, on_db}
use matrisea.Vmm.Find.{list_cuttlefish_containers, get_container_id_by_name, is_managed_container}

-- `c.Names[0][1:]`
abbrev pub first_name : List Str → Result Str
first_name [] = panic
first_name ([] ∷ names) = panic
first_name ((slash ∷ name) ∷ names) = ok name

module _ (H : Host) (v : Vmm) where
  unfoldable pub vm_remove : Str → Action (World H) (Unit {0})
  vm_remove container_name = do
    is_managed_container H v container_name
    container_id ← wrap (text "no containerID") (get_container_id_by_name H v container_name)
    wrap (text "docker: ContainerRemove") (
        on_engine H
          (H.engine.container_remove container_id (record { force = true; remove_volumes = true })))
    wrap (text "kvstore: ContainerRemove")
        (on_db H (remove_container_configs H.database container_name))
    on_files H (H.files.remove_all (join (v.devices_dir ∷ container_name ∷ [])))

  -- `c.ID[:10]` in the texts that are logged: a shorter identifier panics.
  abbrev pub logged : Str → Action (World H) (Unit {0})
  logged id = lift (if ltb (length id) 10 then panic else ok tt)

  unfoldable pub remove_each : List Container → Action (World H) (Unit {0})
  remove_each [] = pure tt
  remove_each (c ∷ cs) = do
    name ← lift (first_name c.names)
    catch (vm_remove name) (λ e. logged c.id)
    logged c.id
    remove_each cs

  -- An error of the listing is dropped, and leaves the list nil.
  unfoldable pub vm_prune : Action (World H) (Unit {0})
  vm_prune = do cf_list ← catch (list_cuttlefish_containers H v) (λ e. pure []); remove_each cf_list
