-- ===== src/Vmm/Start.antt =====
-- vmm/vmm.go, `VMStart` and `VMStop`: the launcher process in a container.
pub mod Boot
pub mod Configured
use matrisea.Common.{
  ℕ, Str, text, str_eq, Bool, true, false, not, List, [], ◌∷◌, ◌++◌, Result, ok, err, panic, Error,
  message, Action, ◌>>=◌, ◌>>◌, pure, lift, wrap, catch, if◌then◌else◌,
}
use matrisea.Common.Int.{ℤ, pos, add_int, mul_int}
use matrisea.Go.Path.{join}
use matrisea.Go.Strings.{contains}
use matrisea.Go.Strconv.{itoa, atoi}
use matrisea.Go.Scanner.{scan_lines}
use matrisea.Kvstore.{get_container_value}
use matrisea.Vmm.Host.{
  Vmm, Host, World, on_engine, on_db, home_dir, config_key_cpu, config_key_ram,
  config_key_aosp_version, config_key_cmdline,
}
use matrisea.Vmm.Find.{is_managed_running_container, get_container_cf_instance_number}
use matrisea.Vmm.Exec.{start_adb_daemon}

-- `launch_cmd`
unfoldable pub launch_cmd : ℤ → Str → ℤ → Str → Str → List Str
launch_cmd cf_instance cpu ram_gb cmdline aosp_version =
    (join (home_dir ∷ text "/bin/launch_cvd" ∷ [])
      ∷ text "--start_vnc_server"
      ∷ (text "--vsock_guest_cid=" ++ itoa (add_int cf_instance (pos 2)))
      ∷ (text "--cpus=" ++ cpu)
      ∷ (text "--memory_mb=" ++ itoa (mul_int ram_gb (pos 1024)))
      ∷ cmdline
      ∷ [])
    ++ ((if str_eq aosp_version (text "Android 9") then [] else text "--nostart_webrtc" ∷ [])
        ++ (if str_eq aosp_version (text "Android 12")
            then text "--report_anonymous_usage_stats=y" ∷ []
            else []))

-- What `VMStart` waits for: the lines of the launcher in their order, and the deadline of
-- `BootTimeout` somewhere among them. If neither a line nor the deadline ends the wait, the end of the
-- stream does. Lines that come behind the end of the wait are those of the time of the deferred calls.
pub data BootEvent : Type 0 where
  line : Str → BootEvent
  deadline : BootEvent

-- The events up to the return of `VMStart`, and the lines that its goroutine still reads after it.
pub record BootLog : Type 0 where
  pub events : List BootEvent
  pub late : List Str

abbrev pub boot_completed : Str
boot_completed = text "VIRTUAL_DEVICE_BOOT_COMPLETED"

-- The lines that are handed to the callback, and whether the goroutine reads on.
pub record Heard : Type 0 where
  pub handed : List Str
  pub scanning : Bool

-- The goroutine behind the end of the wait: it hands on every line, up to one that says that the boot
-- is complete, where it waits for ever to send on a channel that has no receiver any more.
unfoldable pub scan_on : List BootEvent → Heard
scan_on [] = record { handed = []; scanning = true }
scan_on (deadline ∷ events) = scan_on events
scan_on (line l ∷ events) =
    let rest = scan_on events in
    if contains l boot_completed
    then record { handed = l ∷ []; scanning = false }
    else record rest { handed = l ∷ rest.handed }

-- The lines for the callback up to the return, whether the goroutine reads on, and the result.
pub record BootOutcome : Type 0 where
  pub called_back : List Str
  pub scanning : Bool
  pub result : Result (Unit {0})

abbrev pub after_line : Str → BootOutcome → BootOutcome
after_line l o = record o { called_back = l ∷ o.called_back }

unfoldable pub await_boot : List BootEvent → BootOutcome
await_boot [] = record {
  called_back = [];
  scanning = false;
  result = err (message (text "VMStart failed as launch_cvd terminated abnormally"));
}
await_boot (deadline ∷ events) =
    let heard = scan_on events in
    record {
      called_back = heard.handed;
      scanning = heard.scanning;
      result = err (message (text "VMStart timeout"));
    }
await_boot (line l ∷ events) =
    let heard = scan_on events in
    let rest = after_line l (await_boot events) in
    if contains l boot_completed
    then record { called_back = l ∷ heard.handed; scanning = heard.scanning; result = ok tt }
    else rest

-- Lines up to one that says that the boot is complete.
unfoldable pub up_to_boot : List Str → List Str
up_to_boot [] = []
up_to_boot (l ∷ ls) =
    let rest = up_to_boot ls in if contains l boot_completed then l ∷ [] else l ∷ rest

-- The lines of `stop_cvd`, up to one that holds "Successful", onto the output so far.
unfoldable pub await_stop : Str → List Str → Result (Unit {0})
await_stop output [] = err (message (text "failed to stop the VM. log: " ++ output))
await_stop output (l ∷ ls) =
    let rest = await_stop (output ++ (10 ∷ l)) ls in
    if contains l (text "Successful") then ok tt else rest

-- What `VMStart` hands to its callback before it returns and after that, and what it returns.
pub record Started (R : Type 0) : Type 0 where
  pub called_back : List Str
  pub late : List Str
  pub returned : R

module _ (H : Host) (v : Vmm) where
  -- `VMStart` up to the attached launcher.
  unfoldable pub vm_launch : Str → Action (World H) (Unit {0})
  vm_launch container_name = do
    is_managed_running_container H v container_name
    cf_instance ←
        wrap (text "getContainerCFInstanceNumber")
          (get_container_cf_instance_number H v container_name)
    ram ←
        wrap (text "read config ram")
          (on_db H (get_container_value H.database container_name config_key_ram))
    ram_gb ← wrap (text "read config ram") (lift (atoi ram))
    cpu ←
        wrap (text "read config cpu")
          (on_db H (get_container_value H.database container_name config_key_cpu))
    aosp_version ←
        wrap (text "read aosp_version config")
          (on_db H (get_container_value H.database container_name config_key_aosp_version))
    cmdline ←
        wrap (text "read cmdline config")
          (on_db H (get_container_value H.database container_name config_key_cmdline))
    id ← wrap (text "docker: failed to create an exec config") (
        on_engine H (
          H.engine.exec_create container_name (record {
            user = text "vsoc-01";
            attach_stdin = false;
            cmd = launch_cmd cf_instance cpu ram_gb cmdline aosp_version;
            tty = true;
            env = (text "CUTTLEFISH_INSTANCE=" ++ itoa cf_instance) ∷ [];
          })))
    wrap (text "docker: failed to execute/attach to launch_cvd")
        (on_engine H (H.engine.exec_attach id true))
    pure tt

  -- The deferred `startADBDaemon`: its error is logged only.
  abbrev pub connect_adb : Str → Action (World H) (Unit {0})
  connect_adb container_name = catch (start_adb_daemon H v container_name) (λ e. pure tt)

  -- A deferred call runs behind the function's result, and only a panic of its own replaces it.
  abbrev pub deferred :
      Action (World H) (Unit {0}) → Result (Unit {0}) → Action (World H) (Unit {0})
  deferred m r w = let (d, u) = m w in (elim d [ panic ↦ panic | _ ↦ r ], u)

  -- With `isAsync` the function does not wait for the boot.
  abbrev pub outcome : Bool → List BootEvent → BootOutcome
  outcome is_async events =
      if is_async
      then record { called_back = []; scanning = false; result = ok tt }
      else await_boot events

  abbrev pub launched :
      Str
      → BootOutcome
      → List Str
      → Result (Unit {0})
      → World H
      → Started (Result (Unit {0}) × World H)
  launched container_name o late (ok a) w = record {
    called_back = o.called_back;
    late = if o.scanning then up_to_boot late else [];
    returned = deferred (connect_adb container_name) o.result w;
  }
  launched container_name o late (err e) w = record {
    called_back = [];
    late = [];
    returned = (err e, w);
  }
  launched container_name o late panic w = record {
    called_back = [];
    late = [];
    returned = (panic, w);
  }

  unfoldable pub vm_start : Str → Bool → BootLog → World H → Started (Result (Unit {0}) × World H)
  unfolding vm_launch await_boot up_to_boot
  vm_start container_name is_async log w =
      let (r, u) = vm_launch container_name w in
      launched container_name (outcome is_async log.events) log.late r u

  unfoldable pub vm_stop : Str → Action (World H) (Unit {0})
  vm_stop container_name = do
    is_managed_running_container H v container_name
    id ← wrap (text "failed to create an exec config in docker") (
        on_engine H (
          H.engine.exec_create container_name (record {
            user = text "vsoc-01";
            attach_stdin = true;
            cmd = (home_dir ++ text "/bin/stop_cvd") ∷ [];
            tty = true;
            env = [];
          })))
    stream ←
        wrap (text "failed to execute/attach to stop_cvd")
          (on_engine H (H.engine.exec_attach id true))
    lift (await_stop [] (scan_lines stream))
