-- ===== src/Vmm/List/Created.antt =====
-- A device is listed with what it was created with.
use matrisea.Common.{Str, ◌≡◌, ◌∙◌, ap, inl, inr, Option, none, some, List, [], ◌∷◌, ok}
use matrisea.Common.Among.{Among}
use matrisea.Common.Int.{ℤ}
use matrisea.Go.Strconv.{itoa, atoi_value}
use matrisea.Go.Strconv.RoundTrip.{IsInt64, atoi-itoa}
use matrisea.Docker.{Container}
use matrisea.Kvstore.Bolt.{IsLawful}
use matrisea.Kvstore.Values.{stored, override, get_container_value_iff}
use matrisea.Vmm.Host.{
  Vmm, Host, World, config_key_device_name, config_key_cpu, config_key_ram, config_key_aosp_version,
  config_key_cmdline,
}
use matrisea.Vmm.Find.{managed}
use matrisea.Vmm.Remove.{first_name}
use matrisea.Vmm.Create.{initial_configs, vm_create}
use matrisea.Vmm.Create.Configured.{vm_create-put, get_created, override-configs}
use matrisea.Vmm.List.{VmItem, vm_list}
use matrisea.Vmm.List.Items.{value_or_empty, Shows, ShowsAll, vm_list-ShowsAll}

-- Each container has an item in the list.
ShowsAll-Among :
    (H : Host) (db : H.database.Db) (c : Container) (cs : List Container) (items : List VmItem)
    → ShowsAll H db cs items
    → Among c cs
    → (item : VmItem) × Among item items × Shows H db c item
ShowsAll-Among H db c [] items h m = absurd m
ShowsAll-Among H db c (d ∷ cs) [] h m = absurd h
ShowsAll-Among H db c (d ∷ cs) (item ∷ items) (first, rest) (inl e) =
    (item, inl (λ i. item), rw e first)
ShowsAll-Among H db c (d ∷ cs) (item ∷ items) (first, rest) (inr m) =
    let (found, among, shown) = ShowsAll-Among H db c cs items rest m in (found, inr among, shown)

atoi_value-itoa : (i : ℤ) → IsInt64 i → atoi_value (itoa i) ≡ i
unfolding atoi_value
atoi_value-itoa i fits = rw (atoi-itoa i fits) (λ j. i)

module _ (H : Host) (v : Vmm) (L : IsLawful H.database) where
  -- For a device that VMCreate has created over a lawful database with numbers that fit an int,
  -- while the store is as the creation left it: if the engine lists a managed container of the
  -- device's name, then a successful VMList has an item with that container's identifier and with
  -- the device name, CPUs, RAM, version and options that VMCreate was given.
  pub vm_list-created :
      (device : Str) (cpu ram : ℤ) (version cmdline name : Str) (w u : World H)
      (cs ms : List Container) (c : Container) (items : List VmItem)
      → IsInt64 cpu
      → IsInt64 ram
      → (vm_create H v device cpu ram version cmdline w).0 ≡ ok name
      → u.db ≡ (vm_create H v device cpu ram version cmdline w).1.db
      → (H.engine.container_list u.engine).0 ≡ ok cs
      → managed v cs ≡ ok ms
      → Among c ms
      → first_name c.names ≡ ok name
      → (vm_list H v u).0 ≡ ok items
      → (item : VmItem) × Among item items
        × (item.id ≡ c.id)
        × (item.name ≡ device)
        × (item.cpu ≡ cpu)
        × (item.ram ≡ ram)
        × (item.os_version ≡ version)
        × (item.cmdline ≡ cmdline)
  vm_list-created device cpu ram version cmdline name w u cs ms c items fits_cpu fits_ram created
        same listed kept among called shown =
      let (called_so, _, _) = vm_create-put H v device cpu ram version cmdline w name created in
      let (cs', ms', listed', kept', all) = vm_list-ShowsAll H v u items shown in
      let same_cs : cs' ≡ cs = cc in
      let same_ms : ms' ≡ ms = cc in
      let (item, there, s) = ShowsAll-Among H u.db c ms items (rw same_ms at all) among in
      let its_name : s.name ≡ name = cc in
      let configs = override-configs H v device cpu ram version cmdline w in
      let value =
        λ (key value : Str)
            (written : (old : Option Str)
              → override (initial_configs device cpu ram version cmdline) key old ≡ some value).
          let e : stored H.database name key u.db ≡ some value = rw same (
            rw called_so (
              (get_container_value_iff H.database _ key value _).0 (
                get_created H v device cpu ram version cmdline w L name created key value
                  written))) in
          ap (λ (n : Str). value_or_empty H n key u.db) its_name
          ∙ ap (λ (o : Option Str). elim o [ none ↦ [] | some s ↦ s ]) e in
      (
        item,
        there,
        s.same_id,
        s.device ∙ value config_key_device_name device (λ o. (configs o).0),
        s.cpu
            ∙ (ap atoi_value (value config_key_cpu (itoa cpu) (λ o. (configs o).1))
                ∙ atoi_value-itoa cpu fits_cpu),
        s.ram
            ∙ (ap atoi_value (value config_key_ram (itoa ram) (λ o. (configs o).2))
                ∙ atoi_value-itoa ram fits_ram),
        s.version ∙ value config_key_aosp_version version (λ o. (configs o).3),
        s.cmdline ∙ value config_key_cmdline cmdline (λ o. (configs o).5),
      )
