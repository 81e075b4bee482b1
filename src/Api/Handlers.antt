-- ===== src/Api/Handlers.antt =====
-- api/api.go: the handlers of the HTTP routes.
pub mod Lookup
pub mod Config
pub mod Upload
use matrisea.Common.{
  ℕ, Str, text, str_eq, Bool, true, false, Option, none, some, List, [], ◌∷◌, ◌++◌, Result, ok, err,
  panic, Error, Action, ◌>>=◌, ◌>>◌, pure, crash, lift, attempt, length, ◌==◌, if◌then◌else◌,
}
use matrisea.Go.Path.{join, ext, base}
use matrisea.Go.Strings.{has_suffix}
use matrisea.Vmm.Host.{Vmm, Host, World, on_files, config_key_cmdline}
use matrisea.Vmm.List.{VmItem, vm_list}
use matrisea.Vmm.Start.{vm_start, vm_stop}
use matrisea.Vmm.Remove.{vm_remove}
use matrisea.Vmm.Transfer.{container_update_config, container_list_files, container_read_file}
use matrisea.Api.Env.{cf_prefix}

-- What is written as JSON: a text under `error` or `message`, the text of an error, a VM, names of
-- files, or what two handlers have of their own.
pub data Body : Type 0 where
  error_body message_body : Str → Body
  reason_body : Error → Body
  -- the addresses of the local network and the one of Tailscale
  ips_body : List Str → Str → Body
  -- a file name and the bytes of an attachment
  data_body : Str → Str → Body
  vm_body : VmItem → Body
  files_body : List Str → Body

pub record Response : Type 0 where
  pub status : ℕ
  pub body : Body

abbrev pub message_ok : Response
message_ok = record { status = 200; body = message_body (text "ok") }

-- `if err := …; err != nil { c.JSON(500, …); return }` and then `c.JSON(200, …)`.
abbrev pub answer_ok : Result (Unit {0}) → Result Response
answer_ok (ok a) = ok message_ok
answer_ok (err e) = ok (record { status = 500; body = reason_body e })
answer_ok panic = panic

unfoldable pub find_vm : Str → List VmItem → Option VmItem
find_vm name [] = none
find_vm name (vm ∷ vms) =
    let rest = find_vm name vms in if str_eq vm.name name then some vm else rest

abbrev pub vm_response : Option VmItem → Response
vm_response none = record { status = 500; body = error_body (text "VM not found") }
vm_response (some vm) = record { status = 200; body = vm_body vm }

abbrev pub bad_request : Body → Response
bad_request body = record { status = 400; body = body }

-- `json["key"] == vmm.CONFIG_KEY_CMDLINE`: a key that is missing or no string is not that one.
abbrev pub is_cmdline : Option Str → Bool
is_cmdline none = false
is_cmdline (some key) = str_eq key config_key_cmdline

-- The paths of a walk whose end is the extension, without their folders.
unfoldable pub files_with : Str → List Str → List Str
files_with extension [] = []
files_with extension (p ∷ ps) =
    let rest = files_with extension ps in if has_suffix p extension then base p ∷ rest else rest

unfoldable pub is_allowed : Str → List Str → Bool
is_allowed extension [] = false
is_allowed extension (e ∷ es) = if str_eq extension e then true else is_allowed extension es

module _ (H : Host) (v : Vmm) where
  -- The outcome of a call of the manager, as a response.
  abbrev pub respond :
      {A : Type 0} → (Result A → Result Response) → Action (World H) A → Action (World H) Response
  respond f m w = let (r, u) = m w in (f r, u)

  abbrev get_vm_answer : Str → Result (List VmItem) → Result Response
  get_vm_answer name (ok vms) = ok (vm_response (find_vm name vms))
  get_vm_answer name (err e) = ok (record { status = 500; body = reason_body e })
  get_vm_answer name panic = panic

  unfoldable pub get_vm : Str → Action (World H) Response
  get_vm name = respond (get_vm_answer name) (vm_list H v)

  -- `VMStart` without waiting for the boot, and with a callback that does nothing.
  abbrev pub start_only : Str → Action (World H) (Unit {0})
  start_only container_name w =
      (vm_start H v container_name true (record { events = []; late = [] }) w).returned

  unfoldable pub start_vm : Str → Action (World H) Response
  start_vm name = respond answer_ok (start_only (cf_prefix ++ name))

  unfoldable pub stop_vm : Str → Action (World H) Response
  stop_vm name = respond answer_ok (vm_stop H v (cf_prefix ++ name))

  unfoldable pub remove_vm : Str → Action (World H) Response
  remove_vm name = respond answer_ok (vm_remove H v (cf_prefix ++ name))

  abbrev config_answer : Result (Unit {0}) → Result Response
  config_answer (ok a) = ok message_ok
  config_answer (err e) = ok (bad_request (reason_body e))
  config_answer panic = panic

  -- With the request's key, and its value as `%v` prints it.
  unfoldable pub update_vm_config : Str → Option Str → Str → Action (World H) Response
  update_vm_config name key value =
      if is_cmdline key
      then respond config_answer
          (container_update_config H v (cf_prefix ++ name) config_key_cmdline value)
      else pure (bad_request (message_body (text "invalid config key")))

  -- `filepath.Walk`: the paths that it visits. The callback returns nil for each, also for one that
  -- comes with an error, so that the walk returns nil.
  module _ (walk : Str → H.files.State → List Str) where
    unfoldable pub get_files_in_folder : Str → Str → Action (World H) Response
    get_files_in_folder extension folder w = (
      ok (record { status = 200; body = files_body (files_with extension (walk folder w.files)) }),
      w,
    )

    unfoldable pub get_system_image_list : Action (World H) Response
    get_system_image_list = get_files_in_folder (text ".zip") v.upload_dir

    unfoldable pub get_cvd_image_list : Action (World H) Response
    get_cvd_image_list = get_files_in_folder (text ".tar") v.upload_dir

    unfoldable pub get_apk_file_list : Str → Action (World H) Response
    get_apk_file_list name =
        get_files_in_folder (text ".apk") (join (v.devices_dir ∷ (cf_prefix ++ name) ∷ []))

  abbrev pub saved_answer : Result (Unit {0}) → Result Response
  saved_answer (ok a) = ok (record { status = 200; body = message_body (text "success") })
  saved_answer (err e) =
      ok (record { status = 500; body = message_body (text "Unable to save the file") })
  saved_answer panic = panic

  -- `c.SaveUploadedFile(file, dst)` of the file that was received.
  module _ (save_uploaded : Str → Action H.files.State (Unit {0})) where
    -- With the name of the file, if one was received.
    unfoldable pub upload_file : Option Str → List Str → Str → Action (World H) Response
    upload_file none allowed folder = pure (bad_request (message_body (text "No file is received")))
    upload_file (some filename) allowed folder =
        if is_allowed (ext filename) allowed
        then respond saved_answer (on_files H (save_uploaded (join (folder ∷ filename ∷ []))))
        else pure (bad_request (error_body (text "Unsupported file formats")))

    unfoldable pub upload_image_file : Option Str → Action (World H) Response
    upload_image_file file =
        upload_file file (text ".zip" ∷ text ".tar" ∷ text ".gz" ∷ []) v.upload_dir

    unfoldable pub upload_device_file : Str → Option Str → Action (World H) Response
    upload_device_file name file =
        upload_file file (text ".apk" ∷ []) (join (v.devices_dir ∷ (cf_prefix ++ name) ∷ []))

  abbrev listing_answer : Result (List Str) → Result Response
  listing_answer (ok files) = ok (record { status = 200; body = files_body files })
  listing_answer (err e) = ok (bad_request (error_body (text "Invalid query path")))
  listing_answer panic = panic

  unfoldable pub get_workspace_file_list : Str → Str → Action (World H) Response
  get_workspace_file_list name p =
      if str_eq p []
      then pure (bad_request (error_body (text "Invalid query path")))
      else respond listing_answer (container_list_files H v (cf_prefix ++ name) p)

  -- The first entry of the archive: `tr.Next()` and what is read from `tr` then.
  abbrev download_answer : (Str → Result Str) → Str → Result Str → Result Response
  download_answer first_entry p (ok archive) = elim (first_entry archive) [
    | ok content ↦ ok (record { status = 200; body = data_body (base p) content })
    | err e ↦ ok (bad_request (reason_body e))
    | panic ↦ panic
  ]
  download_answer first_entry p (err e) = ok (bad_request (reason_body e))
  download_answer first_entry p panic = panic

  unfoldable pub download_workspace_file :
      (Str → Result Str) → Str → Str → Action (World H) Response
  download_workspace_file first_entry name p =
      if str_eq p []
      then pure (bad_request (error_body (text "Invalid query path")))
      else respond (download_answer first_entry p) (container_read_file H v (cf_prefix ++ name) p)
