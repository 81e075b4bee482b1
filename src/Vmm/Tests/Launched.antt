-- ===== src/Vmm/Tests/Launched.antt =====
-- The launcher of the device that `Vmm.Tests.Created` creates.
use matrisea.Common.{◌*◌, text, str_eq, ◌≡◌, refl, [], ◌∷◌, ◌++◌, ok, ◌>>=◌, arith}
use matrisea.Common.Among.{Among}
use matrisea.Common.Int.{pos, add_int}
use matrisea.Go.Strings.{has_prefix, contains}
use matrisea.Go.Strconv.{itoa, atoi}
use matrisea.Docker.{lookup}
use matrisea.Kvstore.Memory.{memory-IsLawful}
use matrisea.Vmm.Host.{World}
use matrisea.Vmm.Find.{
  managed, is_target, has_target, find_id, list_cuttlefish_containers, get_container_id_by_name,
  get_container_json, get_container_cf_instance_number, is_managed_container,
  is_managed_running_container,
}
use matrisea.Vmm.Create.{create_config}
use matrisea.Vmm.Start.{launch_cmd, vm_launch}
use matrisea.Vmm.Start.Configured.{run_launcher, vm_launch-configured}
use matrisea.Vmm.Tests.Created.{create_a, name_a, create_a-ok}
use matrisea.Vmm.Tests.Sample.{host, manager, boxed, new_container}

abbrev pub running_a : World host
running_a = record create_a.1 {
  engine = new_container (create_config name_a [] 1 [] []) name_a ∷ [];
}

guard_a : is_managed_running_container host manager name_a running_a ≡ (ok tt, running_a)
unfolding is_managed_running_container is_managed_container get_container_id_by_name
    list_cuttlefish_containers managed find_id has_target is_target has_prefix contains str_eq text
    ◌>>=◌
guard_a = refl

number_a : get_container_cf_instance_number host manager name_a running_a ≡ (ok (pos 1), running_a)
unfolding get_container_cf_instance_number get_container_json get_container_id_by_name
    list_cuttlefish_containers managed find_id has_target is_target has_prefix contains str_eq text
    ◌>>=◌ create_config lookup atoi itoa
number_a = refl

vm_launch-configured_example :
    let cmd = launch_cmd (pos 1) (itoa (pos 4)) (pos 8) (text "-gpu") (text "Android 12") in
    (vm_launch host manager name_a running_a ≡ run_launcher host name_a (pos 1) cmd running_a)
    × Among (text "--memory_mb=" ++ itoa (pos (8 * 1024))) cmd
    × Among (text "--cpus=" ++ itoa (pos 4)) cmd
    × Among (text "--vsock_guest_cid=" ++ itoa (add_int (pos 1) (pos 2))) cmd
    × Among (text "-gpu") cmd
vm_launch-configured_example =
    vm_launch-configured host manager memory-IsLawful (text "a") (pos 4) 8 (text "Android 12")
      (text "-gpu") name_a (pos 1) (boxed []) running_a create_a-ok refl guard_a number_a
      (omega arith)
