-- ===== src/Vmm/Remove/Targets.antt =====
-- Which container a removal takes, in a host that holds more than one.
use matrisea.Common.{Str, true, ◌≡◌, none, some, List, [], ◌∷◌, ◌++◌, ok}
use matrisea.Go.Strings.{has_prefix}
use matrisea.Docker.{Container, ContainerJson}
use matrisea.Vmm.Host.{Vmm, Host, World}
use matrisea.Vmm.Find.{name_prefix, managed, find_id}
use matrisea.Vmm.Find.Managed.{docker_name, find_id_exact, find_id-longer_name}
use matrisea.Vmm.Find.Guards.{get_container_id_by_name-eq, is_managed_container-eq}
use matrisea.Vmm.Remove.{vm_remove}
use matrisea.Vmm.Remove.Effects.{forced, engine-vm_remove}

module _ (H : Host) (v : Vmm) (device : Str) (w : World H) where
  -- The removal of the container that `find_id` finds among those that are listed.
  removes_found :
      (cs ms : List Container) (id : Str) (json : ContainerJson)
      → H.engine.container_list w.engine ≡ (ok cs, w.engine)
      → managed v cs ≡ ok ms
      → find_id v (v.cf_prefix ++ device) ms ≡ some id
      → H.engine.container_inspect id w.engine ≡ (ok json, w.engine)
      → has_prefix json.name (name_prefix v) ≡ true
      → (vm_remove H v (v.cf_prefix ++ device) w).1.engine
        ≡ (H.engine.container_remove id forced w.engine).1
  removes_found cs ms id json listed kept found inspected prefixed =
      let name = v.cf_prefix ++ device in
      engine-vm_remove H v name w json id
        (is_managed_container-eq H v w cs ms name id json listed kept found inspected prefixed)
        (get_container_id_by_name-eq H v w cs ms name id listed kept found)

  -- If no managed container listed before it has a name that holds the name, the engine's state
  -- after VMRemove of a managed device is the one after the forced removal of the container of
  -- exactly that name, and nothing else.
  pub vm_remove_exact :
      (cs before after : List Container) (c : Container) (json : ContainerJson)
      → H.engine.container_list w.engine ≡ (ok cs, w.engine)
      → managed v cs ≡ ok (before ++ (c ∷ after))
      → c.names ≡ docker_name (v.cf_prefix ++ device) ∷ []
      → find_id v (v.cf_prefix ++ device) before ≡ none
      → H.engine.container_inspect c.id w.engine ≡ (ok json, w.engine)
      → has_prefix json.name (name_prefix v) ≡ true
      → (vm_remove H v (v.cf_prefix ++ device) w).1.engine
        ≡ (H.engine.container_remove c.id forced w.engine).1
  vm_remove_exact cs before after c json listed kept named before_none inspected prefixed =
      removes_found cs (before ++ (c ∷ after)) c.id json listed kept
        (find_id_exact v device before c after before_none named) inspected prefixed

  -- If the first managed container listed has a longer name that begins with the name, VMRemove of
  -- the name removes that container from the engine instead.
  pub vm_remove_takes_longer :
      (more : Str) (cs after : List Container) (c : Container) (json : ContainerJson)
      → H.engine.container_list w.engine ≡ (ok cs, w.engine)
      → managed v cs ≡ ok (c ∷ after)
      → c.names ≡ docker_name (v.cf_prefix ++ (device ++ more)) ∷ []
      → H.engine.container_inspect c.id w.engine ≡ (ok json, w.engine)
      → has_prefix json.name (name_prefix v) ≡ true
      → (vm_remove H v (v.cf_prefix ++ device) w).1.engine
        ≡ (H.engine.container_remove c.id forced w.engine).1
  vm_remove_takes_longer more cs after c json listed kept named inspected prefixed =
      removes_found cs (c ∷ after) c.id json listed kept
        (find_id-longer_name v device more c after named) inspected prefixed
