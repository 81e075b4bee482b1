-- ===== src/Vmm/Tests/Created.antt =====
-- A device that is created on an empty host, and the numbers of devices.
use matrisea.Common.{
  Str, text, str_eq, true, ◌≡◌, refl, [], ◌∷◌, ◌++◌, Result, ok, ◌>>=◌, arith, ◌⊎◌,
}
use matrisea.Common.Int.{pos}
use matrisea.Go.Strconv.{atoi, itoa}
use matrisea.Docker.{Container, lookup}
use matrisea.Kvstore.{put_container_value, get_container_value}
use matrisea.Instance.{Indexed, collect_indexes, next_number}
use matrisea.Instance.Least.{AreDistinct}
use matrisea.Vmm.Create.Numbered.{create_config-AreDistinct}
use matrisea.Kvstore.Bolt.{path_eq}
use matrisea.Kvstore.Memory.{memory-IsLawful, empty, create_in}
use matrisea.Kvstore.Values.{stored}
use matrisea.Vmm.Host.{
  World, config_key_device_name, config_key_cpu, config_key_ram, config_key_aosp_version,
  config_key_tags, config_key_cmdline,
}
use matrisea.Vmm.Create.{
  create_config, vm_create, make_device_dir, create_container, get_next_cf_instance_number,
  initial_configs,
}
use matrisea.Vmm.Create.Configured.{vm_create-configs}
use matrisea.Vmm.Tests.Sample.{manager, host, boxed, box_a, both}

-- A device, created on an empty host.
abbrev pub create_a : Result Str × World host
create_a =
    vm_create host manager (text "a") (pos 4) (pos 8) (text "Android 12") (text "-gpu") (boxed [])

abbrev pub name_a : Str
name_a = text "matrisea-cvd-" ++ text "a"

pub create_a-ok : create_a.0 ≡ ok name_a
unfolding vm_create make_device_dir create_container get_next_cf_instance_number next_number
    initial_configs itoa put_container_value create_in ◌>>=◌ path_eq str_eq text
create_a-ok = refl

vm_create-configs_example :
    let db = create_a.1.db in
    let read = λ (key : Str). (get_container_value host.database name_a key db).0 in
    (name_a ≡ name_a)
    × (read config_key_device_name ≡ ok (text "a"))
    × (read config_key_aosp_version ≡ ok (text "Android 12"))
    × (read config_key_tags ≡ ok (text "Android 12"))
    × (read config_key_cmdline ≡ ok (text "-gpu"))
    × ((s : Str) × (read config_key_cpu ≡ ok s) × (atoi s ≡ ok (pos 4)))
    × ((s : Str) × (read config_key_ram ≡ ok s) × (atoi s ≡ ok (pos 8)))
    × ((d k : Str)
        → (str_eq name_a d ≡ true) ⊎ (stored host.database d k db ≡ stored host.database d k empty))
vm_create-configs_example =
    vm_create-configs host manager (text "a") (pos 4) (pos 8) (text "Android 12") (text "-gpu")
      (boxed []) memory-IsLawful (omega arith, omega arith) (omega arith, omega arith) name_a
      create_a-ok

abbrev both_indexed : Indexed
both_indexed = record { cf_list = both; indexes = pos 2 ∷ pos 1 ∷ [] }

collect_indexes-both : collect_indexes both ≡ ok both_indexed
unfolding collect_indexes atoi lookup text str_eq
collect_indexes-both = refl

next_number-both : next_number both ≡ ok 3
unfolding next_number atoi lookup text str_eq
next_number-both = refl

abbrev third : Container
third = record box_a {
  labels = (create_config (text "c") (text "/c") 3 (text "6082/tcp") (text "6522/tcp")).labels;
}

create_config-AreDistinct_example :
    (g : Indexed) × (collect_indexes (third ∷ both) ≡ ok g)
    × (g.indexes ≡ pos 3 ∷ both_indexed.indexes)
    × AreDistinct g.indexes
create_config-AreDistinct_example =
    create_config-AreDistinct both both_indexed collect_indexes-both (omega arith) (omega arith)
      third (text "c") (text "/c") (text "6082/tcp") (text "6522/tcp") 3 next_number-both refl
