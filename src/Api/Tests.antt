-- ===== src/Api/Tests.antt =====
-- A creation on the small host of `Vmm.Tests.Sample`, and the theorems at that run.
pub mod Streams
pub mod Served
pub mod Requests
use matrisea.Common.{
  catch, ℕ, Str, text, str_eq, Bool, true, false, ◌≡◌, ◌≤◌, refl, List, [], ◌∷◌, ◌++◌, Result, ok,
  err, ◌>>=◌, length, arith,
}
use matrisea.Common.Int.{ℤ, pos, add_int, mul_int, wrap64}
use matrisea.Go.Strings.{has_prefix, has_suffix, contains, split}
use matrisea.Go.Strconv.{atoi, itoa, decimal, digits_onto}
use matrisea.Go.Regexp.{is_device_name, is_zip_name}
use matrisea.Go.Regexp.Language.{IsNamed}
use matrisea.Go.Path.{join, split_folder, split_file}
use matrisea.Docker.{lookup}
use matrisea.Instance.{next_number}
use matrisea.Kvstore.{put_container_value, get_container_value}
use matrisea.Kvstore.Bolt.{path_eq}
use matrisea.Kvstore.Memory.{create_in}
use matrisea.Vmm.Host.{Vmm, Host, World}
use matrisea.Vmm.List.{VmItem, vm_list, list_items}
use matrisea.Vmm.Find.{
  managed, is_target, has_target, find_id, list_cuttlefish_containers, get_container_id_by_name,
  get_container_json, get_container_cf_instance_number, get_container_ip, is_managed_container,
  is_managed_running_container,
}
use matrisea.Vmm.Exec.{
  container_exec, install_tools, start_vnc_proxy, start_adb_daemon, vm_pre_boot_setup,
}
use matrisea.Vmm.Create.{
  create_config, vm_create, make_device_dir, create_container, get_next_cf_instance_number,
  initial_configs,
}
use matrisea.Vmm.Transfer.{
  is_archive, vm_load_file, vm_unzip_image, container_copy_file, container_copy_tar_file,
}
use matrisea.Vmm.Start.{
  BootLog, line, deadline, await_boot, scan_on, up_to_boot, vm_start, vm_launch,
}
use matrisea.Vmm.Tests.Sample.{host, manager, boxed}
use matrisea.Api.Session.{
  CreateVmRequest, Session, send, stop, on_world, ws_create_vm_complete_step,
  ws_create_vm_fail_step, ws_create_vm_log,
}
use matrisea.Api.CreateVm.{
  is_taken, fail_at, refuse_if, check_images, log_lines, preflight, create_device, load_images,
  start_device, ws_create_vm,
}
use matrisea.Api.CreateVm.Protocol.{begun, finished, phase_after, Reaches}
use matrisea.Api.CreateVm.Follows.{Follows}
use matrisea.Api.CreateVm.Checked.{IsNew, ws_create_vm-checked}

abbrev request : CreateVmRequest
request = record {
  device_name = text "a";
  device_type = text "cuttlefish";
  cpu = pos 4;
  ram = pos 8;
  system_image = text "aosp.zip";
  cvd_image = text "cvd.tar";
  kernel_image = [];
  aosp_version = text "Android 12";
  cmdline = [];
}

abbrev fresh : Session host
fresh = record { world = boxed []; sent = [] }

abbrev boot_log : BootLog
boot_log = record {
  events = line (text "starting") ∷ line (text "VIRTUAL_DEVICE_BOOT_COMPLETED") ∷ [];
  late = text "boot pending" ∷ [];
}

create-ok : (ws_create_vm host manager request boot_log fresh).0 ≡ ok tt
unfolding ws_create_vm preflight create_device load_images start_device check_images refuse_if
    fail_at log_lines is_taken on_world send stop ws_create_vm_complete_step ws_create_vm_fail_step
    ws_create_vm_log vm_list list_items is_device_name vm_create make_device_dir create_container
    get_next_cf_instance_number next_number initial_configs itoa atoi put_container_value
    get_container_value create_in path_eq str_eq text ◌>>=◌ managed is_target has_target find_id
    list_cuttlefish_containers get_container_id_by_name get_container_json
    get_container_cf_instance_number get_container_ip is_managed_container
    is_managed_running_container container_exec install_tools start_vnc_proxy start_adb_daemon
    vm_pre_boot_setup has_prefix contains lookup vm_load_file vm_unzip_image container_copy_file
    container_copy_tar_file is_zip_name await_boot scan_on up_to_boot vm_start vm_launch
    create_config is_archive has_suffix catch
create-ok = refl

ws_create_vm-checked_example :
    IsNamed [] (text "a") × (length (text "a") ≤ 20) × IsNew host manager request (boxed [])
ws_create_vm-checked_example = ws_create_vm-checked host manager request boot_log fresh create-ok
