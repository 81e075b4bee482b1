-- ===== src/Vmm/Tests/Listed.antt =====
-- The list on the host where the device of `Vmm.Tests.Created` is the only one.
use matrisea.Common.{text, str_eq, ◌≡◌, refl, inl, [], ◌∷◌, ok, ◌>>=◌, arith}
use matrisea.Common.Among.{Among}
use matrisea.Common.Int.{pos}
use matrisea.Go.Strings.{has_prefix, contains, split}
use matrisea.Go.Strconv.{itoa, atoi, atoi_value}
use matrisea.Docker.{Container, lookup}
use matrisea.Kvstore.{get_container_value_or_empty, put_container_value}
use matrisea.Kvstore.Bolt.{path_eq}
use matrisea.Kvstore.Memory.{memory-IsLawful, create_in}
use matrisea.Vmm.Find.{managed, list_cuttlefish_containers}
use matrisea.Vmm.Exec.{container_exec}
use matrisea.Instance.{next_number}
use matrisea.Vmm.Create.{
  create_config, vm_create, make_device_dir, create_container, get_next_cf_instance_number,
  initial_configs,
}
use matrisea.Vmm.List.{VmItem, ready, get_vm_status, vm_item, list_items, vm_list}
use matrisea.Vmm.List.Created.{vm_list-created}
use matrisea.Vmm.Tests.Created.{name_a, create_a-ok}
use matrisea.Vmm.Tests.Launched.{running_a}
use matrisea.Vmm.Tests.Sample.{host, manager, boxed, new_container}

abbrev box_new : Container
box_new = new_container (create_config name_a [] 1 [] []) name_a

abbrev item_a : VmItem
item_a = record {
  id = box_new.id;
  name = text "a";
  created = text "2";
  device = [];
  ip = text "172.17.0.2";
  status = ready;
  tags = text "Android 12" ∷ [];
  cf_instance = text "1";
  cpu = pos 4;
  ram = pos 8;
  os_version = text "Android 12";
  cmdline = text "-gpu";
}

list_a : (vm_list host manager running_a).0 ≡ ok (item_a ∷ [])
unfolding vm_list list_cuttlefish_containers list_items vm_item get_vm_status container_exec managed
    has_prefix contains split str_eq text ◌>>=◌ create_config lookup atoi itoa atoi_value
    get_container_value_or_empty vm_create make_device_dir create_container
    get_next_cf_instance_number next_number put_container_value create_in path_eq initial_configs
list_a = refl

managed_new : managed manager (box_new ∷ []) ≡ ok (box_new ∷ [])
unfolding managed has_prefix text
managed_new = refl

vm_list-created_example :
    (item : VmItem) × Among item (item_a ∷ [])
    × (item.id ≡ box_new.id)
    × (item.name ≡ text "a")
    × (item.cpu ≡ pos 4)
    × (item.ram ≡ pos 8)
    × (item.os_version ≡ text "Android 12")
    × (item.cmdline ≡ text "-gpu")
vm_list-created_example =
    vm_list-created host manager memory-IsLawful (text "a") (pos 4) (pos 8) (text "Android 12")
      (text "-gpu") name_a (boxed []) running_a (box_new ∷ []) (box_new ∷ []) box_new (item_a ∷ [])
      (omega arith, omega arith) (omega arith, omega arith) create_a-ok refl refl managed_new
      (inl refl) (unfold text in refl) list_a
