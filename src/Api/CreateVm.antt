-- ===== src/Api/CreateVm.antt =====
-- api/api.go, `wsCreateVM`: a new VM in steps, with a message to the client for each.
pub mod Protocol
pub mod Checks
pub mod Follows
pub mod Checked
use matrisea.Common.{
  ℕ, Str, text, str_eq, Bool, true, false, ◌||◌, not, List, [], ◌∷◌, ◌++◌, Result, ok, err, panic,
  Error, Action, ◌>>=◌, ◌>>◌, pure, if◌then◌else◌, length, ltb,
}
use matrisea.Go.Regexp.{is_device_name}
use matrisea.Vmm.Host.{Vmm, Host, World}
use matrisea.Vmm.List.{VmItem, vm_list}
use matrisea.Vmm.Create.{vm_create}
use matrisea.Vmm.Exec.{vm_pre_boot_setup}
use matrisea.Vmm.Transfer.{vm_load_file, vm_unzip_image}
use matrisea.Vmm.Start.{BootLog, vm_start}
use matrisea.Api.Session.{
  CreateVmStep, step_start, step_preflight_checks, step_create_vm, step_load_images, step_start_vm,
  CreateVmRequest, ErrorMsg, plain, reason, Session, send, stop, on_world,
  ws_create_vm_complete_step, ws_create_vm_fail_step, ws_create_vm_log,
}

-- The loop over `vmList`.
unfoldable pub is_taken : Str → List VmItem → Bool
is_taken device_name [] = false
is_taken device_name (vm ∷ vms) = str_eq vm.name device_name || is_taken device_name vms

module _ (H : Host) where
  -- `wsCreateVMFailStep(…); return`
  unfoldable pub fail_at : {A : Type 0} → CreateVmStep → ErrorMsg → Action (Session H) A
  fail_at step msg = ws_create_vm_fail_step step msg >> stop

  -- `if cond { wsCreateVMFailStep(…); return }`
  unfoldable pub refuse_if : Bool → CreateVmStep → Str → Action (Session H) (Unit {0})
  refuse_if b step msg = if b then fail_at step (plain msg) else pure tt

  -- `os.Stat(img)`
  abbrev pub image_there : Str → Action (Session H) Bool
  image_there img s = (ok (H.files.stat img s.world.files), s)

  unfoldable pub check_images : List Str → Action (Session H) (Unit {0})
  check_images [] = pure tt
  check_images (img ∷ images) = do
    there ← image_there img
    refuse_if (not there) step_preflight_checks (text "Cannot find the selected image(s)")
    check_images images

  -- The callback of `VMStart`, on each line.
  unfoldable pub log_lines : List Str → Action (Session H) (Unit {0})
  log_lines [] = pure tt
  log_lines (l ∷ ls) = ws_create_vm_log l >> log_lines ls

module _ (H : Host) (v : Vmm) where
  -- 1 - STEP_START and 2 - STEP_PREFLIGHT_CHECKS, and the checks of 3 - STEP_CREATE_VM.
  unfoldable pub preflight : CreateVmRequest → Action (Session H) (Unit {0})
  preflight req = do
    ws_create_vm_complete_step step_start
    vms ←
        on_world (vm_list H v)
          (λ e. fail_at H step_preflight_checks (plain (text "Failed to retrieve VM info")))
    refuse_if H (is_taken req.device_name vms) step_preflight_checks
        (text "A VM of the same name already exists.")
    check_images H (
        (v.upload_dir ++ (text "/" ++ req.system_image))
        ∷ (v.upload_dir ++ (text "/" ++ req.cvd_image))
        ∷ [])
    refuse_if H (not (is_device_name req.device_name)) step_create_vm (
        text
          "Failed to create VM. Reason: device name contains characters other than alphanumerics and _-")
    refuse_if H (ltb 20 (length req.device_name)) step_create_vm
        (text "Failed to create VM. Reason: device name exceed 20 characters")

  -- The rest of 3 - STEP_CREATE_VM.
  unfoldable pub create_device : CreateVmRequest → Action (Session H) Str
  create_device req = do
    container_name ←
        on_world (vm_create H v req.device_name req.cpu req.ram req.aosp_version req.cmdline)
          (λ e. fail_at H step_create_vm (reason (text "Failed to create VM. Reason: ") e))
    ws_create_vm_log (text "Created device container " ++ container_name)
    ws_create_vm_log (text "Running pre-boot setup...")
    on_world (vm_pre_boot_setup H v container_name) (λ e.
        fail_at H step_create_vm (reason (text "Failed to complete pre-boot setup. Reason: ") e))
    ws_create_vm_complete_step step_create_vm
    pure container_name

  -- 4 - STEP_LOAD_IMAGES
  unfoldable pub load_images : CreateVmRequest → Str → Action (Session H) (Unit {0})
  load_images req container_name = do
    ws_create_vm_log (text "Loading system image " ++ (req.system_image ++ text "..."))
    on_world (vm_load_file H v container_name (v.upload_dir ++ (text "/" ++ req.system_image)))
        (λ e. fail_at H step_load_images (reason (text "Failed to load system iamge. Reason: ") e))
    ws_create_vm_log (text "Unzipping system image " ++ (req.system_image ++ text "..."))
    on_world (vm_unzip_image H v container_name req.system_image)
        (λ e. fail_at H step_load_images (reason (text "Failed to unzip system iamge. Reason: ") e))
    ws_create_vm_log (text "Loading CVD image " ++ (req.cvd_image ++ text "..."))
    on_world (vm_load_file H v container_name (v.upload_dir ++ (text "/" ++ req.cvd_image)))
        (λ e. fail_at H step_load_images (reason (text "Failed to load system iamge. Reason: ") e))
    ws_create_vm_complete_step step_load_images

  -- 5 - STEP_START_VM: the end of `VMStart`, with the lines that it has sent.
  abbrev finish_start : List Str → Action (World H) (Unit {0}) → Action (Session H) (Unit {0})
  finish_start lines returned = do
    log_lines H lines
    on_world returned
        (λ e. fail_at H step_start_vm (reason (text "VM failed to start. Reason: ") e))
    ws_create_vm_complete_step step_start_vm

  -- Lines that come after the handler's last message are sent all the same.
  abbrev finally_log : List Str → Action (Session H) (Unit {0}) → Action (Session H) (Unit {0})
  finally_log lines m s = let (r, t) = m s in (r, (log_lines H lines t).1)

  unfoldable pub start_device : Str → BootLog → Action (Session H) (Unit {0})
  start_device container_name log s =
      let started = vm_start H v container_name false log s.world in
      finally_log started.late (finish_start started.called_back (λ w. started.returned)) s

  unfoldable pub ws_create_vm : CreateVmRequest → BootLog → Action (Session H) (Unit {0})
  ws_create_vm req log = do
    preflight req
    container_name ← create_device req
    load_images req container_name
    start_device container_name log
