-- ===== src/Vmm/Create.antt =====
-- vmm/vmm.go, `VMCreate`: a new container with its folder, its number and ports, and its
-- configuration. The mutex around it is in `Instance.Creation`.
pub mod Configured
pub mod Numbered
pub mod Added
pub mod Refines
pub mod Failed
use matrisea.Common.{
  ℕ, Str, text, true, false, List, [], ◌∷◌, ◌++◌, Action, ◌>>=◌, ◌>>◌, pure, lift, wrap,
  if◌then◌else◌,
}
use matrisea.Common.Int.{ℤ, pos}
use matrisea.Go.Path.{join}
use matrisea.Go.Strconv.{itoa}
use matrisea.Docker.{CreateConfig}
use matrisea.Instance.{next_number}
use matrisea.Instance.Ports.{websockify_port, adb_port}
use matrisea.Kvstore.{KeyValue, put_container_value}
use matrisea.Vmm.Host.{
  Vmm, Host, World, on_engine, on_files, on_db, stat, default_network, cf_image, home_dir,
  config_key_device_name, config_key_cpu, config_key_ram, config_key_aosp_version, config_key_tags,
  config_key_cmdline,
}

-- `containerConfig`, `hostConfig` and `networkingConfig`, from the two ports as `nat.NewPort` gives
-- them.
unfoldable pub create_config : Str → Str → ℕ → Str → Str → CreateConfig
create_config container_name device_dir cf_instance websockify adb = record {
  image = cf_image;
  hostname = container_name;
  labels =
      (text "cf_instance", itoa (pos cf_instance))
      ∷ (text "n_cf_instances", text "1")
      ∷ (text "vsock_guest_cid", text "true")
      ∷ [];
  env = (text "HOME=" ++ home_dir) ∷ [];
  exposed_ports = websockify ∷ adb ∷ [];
  privileged = true;
  binds = (text "/sys/fs/cgroup", text "/sys/fs/cgroup") ∷ (device_dir, text "/data") ∷ [];
  port_bindings =
      (
        websockify,
        record { host_ip = text "0.0.0.0"; host_port = itoa (pos (websockify_port cf_instance)) },
      )
      ∷ (adb, record { host_ip = text "127.0.0.1"; host_port = itoa (pos (adb_port cf_instance)) })
      ∷ [];
  network = default_network;
}

-- The configs that are saved to local storage. The tags begin as the version.
unfoldable pub initial_configs : Str → ℤ → ℤ → Str → Str → List KeyValue
initial_configs device_name cpu ram aosp_version cmdline =
    record { key = config_key_device_name; value = device_name }
    ∷ record { key = config_key_cpu; value = itoa cpu }
    ∷ record { key = config_key_ram; value = itoa ram }
    ∷ record { key = config_key_aosp_version; value = aosp_version }
    ∷ record { key = config_key_tags; value = aosp_version }
    ∷ record { key = config_key_cmdline; value = cmdline }
    ∷ []

module _ (H : Host) where
  unfoldable pub get_next_cf_instance_number : Action (World H) ℕ
  get_next_cf_instance_number = do
    container_list ← on_engine H H.engine.container_list
    lift (next_number container_list)

  -- `if _, err := os.Stat(deviceDir); os.IsNotExist(err) { os.Mkdir(deviceDir, 0755) }`
  unfoldable pub make_device_dir : Str → Action (World H) (Unit {0})
  make_device_dir device_dir = do
    there ← stat H device_dir
    if there then pure tt else on_files H (H.files.mkdir device_dir)

  -- The container is created and started; the result is its ID.
  unfoldable pub create_container : Str → Str → Action (World H) Str
  create_container container_name device_dir = do
    cf_instance ← wrap (text "failed to get next cf_instance") get_next_cf_instance_number
    websockify ← lift (H.engine.new_port (itoa (pos (websockify_port cf_instance))))
    adb ← lift (H.engine.new_port (itoa (pos (adb_port cf_instance))))
    id ← wrap (text "ContainerCreate") (
        on_engine H (
          H.engine.container_create
            (create_config container_name device_dir cf_instance websockify adb) container_name))
    wrap (text "ContainerStart") (on_engine H (H.engine.container_start id))
    pure id

module _ (H : Host) (v : Vmm) where
  unfoldable pub vm_create : Str → ℤ → ℤ → Str → Str → Action (World H) Str
  vm_create device_name cpu ram aosp_version cmdline = do
    let container_name = v.cf_prefix ++ device_name
    let device_dir = join (v.devices_dir ∷ container_name ∷ [])
    make_device_dir H device_dir
    create_container H container_name device_dir
    wrap (text "KVStore put") (
        on_db H (
          put_container_value H.database container_name
            (initial_configs device_name cpu ram aosp_version cmdline)))
    pure container_name
