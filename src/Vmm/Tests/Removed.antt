-- ===== src/Vmm/Tests/Removed.antt =====
-- Removals on the small host.
use matrisea.Common.{
  text, str_eq, true, false, ◌≡◌, refl, none, [], ◌∷◌, ◌++◌, ok, err, Error, ◌>>=◌, if◌then◌else◌,
}
use matrisea.Go.Strings.{has_prefix, contains}
use matrisea.Go.Strconv.{itoa}
use matrisea.Kvstore.{
  put_container_value, remove_configs, remove_container_configs, parent, container_bucket,
}
use matrisea.Instance.{next_number}
use matrisea.Kvstore.Bolt.{path_eq}
use matrisea.Kvstore.Memory.{memory, memory-IsLawful, create_in, delete_in}
use matrisea.Kvstore.Values.{stored}
use matrisea.Vmm.Host.{World, config_key_cpu}
use matrisea.Vmm.Find.{
  name_prefix, managed, is_target, has_target, find_id, list_cuttlefish_containers,
  get_container_id_by_name, is_managed_container,
}
use matrisea.Vmm.Create.{
  vm_create, make_device_dir, create_container, get_next_cf_instance_number, initial_configs,
}
use matrisea.Vmm.Remove.{vm_remove}
use matrisea.Vmm.Remove.Effects.{forced, vm_remove-stored, vm_remove_unconfigured}
use matrisea.Vmm.Remove.Targets.{vm_remove_exact, vm_remove_takes_longer}
use matrisea.Vmm.Tests.Sample.{
  manager, host, host-AreQueries, boxed, json_of, box_a, box_ab, both, only,
}
use matrisea.Vmm.Tests.Created.{create_a, name_a}

managed-both : managed manager both ≡ ok both
unfolding managed has_prefix text
managed-both = refl

managed-only : managed manager (box_a ∷ []) ≡ ok (box_a ∷ [])
unfolding managed has_prefix text
managed-only = refl

prefixed-ab : has_prefix (json_of box_ab).name (name_prefix manager) ≡ true
unfolding has_prefix text
prefixed-ab = refl

prefixed-a : has_prefix (json_of box_a).name (name_prefix manager) ≡ true
unfolding has_prefix text
prefixed-a = refl

inspect-ab : host.engine.container_inspect (text "id-000000ab") both ≡ (ok (json_of box_ab), both)
unfolding text str_eq
inspect-ab = refl

inspect-a :
    host.engine.container_inspect (text "id-0000000a") (box_a ∷ [])
    ≡ (ok (json_of box_a), box_a ∷ [])
unfolding text str_eq
inspect-a = refl

vm_remove_exact_example :
    (vm_remove host manager (text "matrisea-cvd-" ++ text "a") only).1.engine
    ≡ (host.engine.container_remove (text "id-0000000a") forced (box_a ∷ [])).1
vm_remove_exact_example =
    vm_remove_exact host manager (text "a") only (box_a ∷ []) [] [] box_a (json_of box_a) refl
      managed-only (unfold text in refl) (unfold find_id in refl) inspect-a prefixed-a

vm_remove_takes_longer_example :
    (vm_remove host manager (text "matrisea-cvd-" ++ text "a") (boxed both)).1.engine
    ≡ (host.engine.container_remove (text "id-000000ab") forced both).1
vm_remove_takes_longer_example =
    vm_remove_takes_longer host manager (text "a") (boxed both) (text "b") both (box_a ∷ []) box_ab
      (json_of box_ab) refl managed-both (unfold text in refl) inspect-ab prefixed-ab

remove_a-ok : (vm_remove host manager name_a create_a.1).0 ≡ ok tt
unfolding vm_create make_device_dir create_container get_next_cf_instance_number next_number
    initial_configs itoa put_container_value create_in ◌>>=◌ path_eq str_eq text vm_remove
    is_managed_container get_container_id_by_name list_cuttlefish_containers managed find_id
    has_target is_target has_prefix contains remove_container_configs remove_configs delete_in
remove_a-ok = refl

vm_remove-stored_example :
    stored host.database name_a config_key_cpu (vm_remove host manager name_a create_a.1).1.db ≡ (
      if str_eq name_a name_a
      then none
      else stored host.database name_a config_key_cpu create_a.1.db)
vm_remove-stored_example =
    vm_remove-stored host manager name_a create_a.1 host-AreQueries memory-IsLawful remove_a-ok
      name_a config_key_cpu

-- The configuration of `a` is there, and `ab` has none.
abbrev partly : World host
partly = record create_a.1 { engine = box_ab ∷ [] }

guard-partly :
    is_managed_container host manager (text "matrisea-cvd-ab") partly
    ≡ (ok (json_of box_ab), partly)
unfolding is_managed_container get_container_id_by_name list_cuttlefish_containers managed find_id
    has_target is_target has_prefix contains text str_eq ◌>>=◌
guard-partly = refl

find-partly :
    get_container_id_by_name host manager (text "matrisea-cvd-ab") partly
    ≡ (ok (text "id-000000ab"), partly)
unfolding get_container_id_by_name list_cuttlefish_containers managed find_id has_target is_target
    has_prefix contains text ◌>>=◌
find-partly = refl

root-partly : memory.has_bucket [] container_bucket partly.db ≡ true
unfolding vm_create make_device_dir create_container get_next_cf_instance_number next_number
    initial_configs itoa put_container_value create_in ◌>>=◌ path_eq str_eq text
root-partly = refl

none-partly : memory.has_bucket (parent memory) (text "matrisea-cvd-ab") partly.db ≡ false
unfolding vm_create make_device_dir create_container get_next_cf_instance_number next_number
    initial_configs itoa put_container_value create_in ◌>>=◌ path_eq str_eq text
none-partly = refl

vm_remove_unconfigured_example :
    (e : Error) × (vm_remove host manager (text "matrisea-cvd-ab") partly
      ≡ (err e, record partly { engine = [] }))
vm_remove_unconfigured_example =
    vm_remove_unconfigured host manager (text "matrisea-cvd-ab") partly memory-IsLawful
      (json_of box_ab) (text "id-000000ab") [] guard-partly find-partly (unfold text str_eq in refl)
      root-partly none-partly
