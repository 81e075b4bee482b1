-- ===== src/Vmm/Exec.antt =====
-- vmm/vmm.go: commands in a container, and the daemons that the manager starts with them.
use matrisea.Common.{
  ℕ, Str, text, str_eq, true, false, List, [], ◌∷◌, ◌++◌, Result, ok, panic, message, Action, ◌>>=◌,
  ◌>>◌, pure, fail, lift, wrap, catch, if◌then◌else◌,
}
use matrisea.Common.Int.{ℤ, pos, negsuc, eqb_ℤ, add_int}
use matrisea.Go.Strings.{split}
use matrisea.Go.Strconv.{itoa}
use matrisea.Go.Path.{join}
use matrisea.Vmm.Host.{Vmm, Host, World, on_engine, stat}
use matrisea.Vmm.Find.{
  is_managed_running_container, get_container_cf_instance_number, get_container_ip,
}

pub record ExecResult : Type 0 where
  pub exit_code : ℤ
  pub out_buffer : Str
  pub err_buffer : Str

module _ (H : Host) where
  -- `containerExecWithContext` with a context that does not end. The goroutine that copies the
  -- stream has answered before the function goes on.
  unfoldable pub container_exec : Str → Str → Str → Action (World H) ExecResult
  container_exec container_name cmd user = do
    exec_id ← wrap (text "docker: failed to create an exec config") (
        on_engine H (
          H.engine.exec_create container_name (record {
            user = user;
            attach_stdin = false;
            cmd = text "/bin/sh" ∷ text "-c" ∷ cmd ∷ [];
            tty = false;
            env = [];
          })))
    stream ←
        wrap (text "docker: failed to execute/attach to " ++ cmd)
          (on_engine H (H.engine.exec_attach exec_id false))
    buffers ← lift (H.engine.std_copy stream)
    code ← wrap (text "docker: ContainerExecInspect") (on_engine H (H.engine.exec_inspect exec_id))
    pure (record { exit_code = code; out_buffer = buffers.0; err_buffer = buffers.1 })

  -- `if resp.ExitCode != 0 { return errors.New(msg + resp.errBuffer.String()) }`
  abbrev pub expect_zero : Str → ExecResult → Action (World H) (Unit {0})
  expect_zero msg resp =
      if eqb_ℤ resp.exit_code (pos 0) then pure tt else fail (message (msg ++ resp.err_buffer))

  unfoldable pub install_tools : Str → Action (World H) (Unit {0})
  install_tools container_name = do
    updated ←
        wrap (text "failed to apt update")
          (container_exec container_name (text "apt update") (text "root"))
    expect_zero (text "Failed to apt update. reason:") updated
    installed ← wrap (text "failed to execute apt install") (
        container_exec container_name
          (text "apt install -y -qq adb git htop python3-pip iputils-ping less websockify")
          (text "root"))
    expect_zero (text "Failed to apt install additional tools, reason:") installed
    python ← container_exec container_name (text "pip3 install frida-tools") (text "root")
    expect_zero (text "non-zero return when install python packages. reason:") python

module _ (H : Host) (v : Vmm) where
  -- `base + cfIndex - 1` in decimal
  abbrev port_text : ℕ → ℤ → Str
  port_text base cf_index = itoa (add_int (add_int (pos base) cf_index) (negsuc 0))

  unfoldable pub start_vnc_proxy : Str → Action (World H) (Unit {0})
  start_vnc_proxy container_name = do
    cf_index ←
        wrap (text "getContainerCFInstanceNumber")
          (get_container_cf_instance_number H v container_name)
    let vnc_port = port_text 6444 cf_index
    let ws_port = port_text 6080 cf_index
    resp ←
        container_exec H container_name
          (text "websockify -D "
            ++ (ws_port ++ (text " 127.0.0.1:" ++ (vnc_port ++ text " --log-file websockify.log"))))
          (text "vsoc-01")
    expect_zero H (text "non-zero exit code in websockify. output:") resp

  unfoldable pub start_adb_daemon : Str → Action (World H) (Unit {0})
  start_adb_daemon container_name = do
    cf_index ← get_container_cf_instance_number H v container_name
    ip ← get_container_ip H v container_name
    resp ←
        container_exec H container_name
          (text "adb connect " ++ (ip ++ (text ":" ++ port_text 6520 cf_index))) (text "root")
    expect_zero H (text "non-zero exit code in adb daemon. stderr:") resp

  -- `VMPreBootSetup`
  unfoldable pub vm_pre_boot_setup : Str → Action (World H) (Unit {0})
  vm_pre_boot_setup container_name = do
    is_managed_running_container H v container_name
    wrap (text "installTools") (install_tools H container_name)
    wrap (text "startVNCProxy") (start_vnc_proxy container_name)

  -- One round of the loop over the process IDs: an error is logged only.
  abbrev pub kill_pid : Str → Str → Action (World H) (Unit {0})
  kill_pid container_name pid =
      if str_eq pid []
      then pure tt
      else catch (container_exec H container_name (text "kill " ++ pid) (text "root") >> pure tt)
          (λ e. pure tt)

  unfoldable pub kill_pids : Str → List Str → Action (World H) (Unit {0})
  kill_pids container_name [] = pure tt
  kill_pids container_name (pid ∷ pids) =
      kill_pid container_name pid >> kill_pids container_name pids

  -- `strings.Split(cmd, " ")[0]`
  abbrev pub first_word : List Str → Result Str
  first_word [] = panic
  first_word (w ∷ ws) = ok w

  unfoldable pub container_kill_process : Str → Str → Action (World H) (Unit {0})
  container_kill_process container_name cmd = do
    is_managed_running_container H v container_name
    process ← lift (first_word (split b' ' cmd))
    resp ← wrap (text "containerExec list process") (
        container_exec H container_name
          (text "ps -ef | awk '$8==\"" ++ (process ++ text "\" {print $2}'")) (text "vsoc-01"))
    kill_pids container_name (split 10 resp.out_buffer)

  unfoldable pub container_kill_terminal : Str → Action (World H) (Unit {0})
  container_kill_terminal container_name = do
    is_managed_running_container H v container_name
    container_kill_process container_name (text "/bin/bash")

  -- The identifier of the process and its stream.
  unfoldable pub container_attach_to_process :
      Str → List Str → List Str → Action (World H) (Str × Str)
  container_attach_to_process container_name cmd env = do
    is_managed_running_container H v container_name
    ir ← wrap (text "docker: failed to create an exec config") (
        on_engine H (
          H.engine.exec_create container_name (record {
            user = text "vsoc-01";
            attach_stdin = true;
            cmd = cmd;
            tty = true;
            env = env;
          })))
    stream ←
        wrap (text "docker: failed to execute/attach to process")
          (on_engine H (H.engine.exec_attach ir true))
    pure (ir, stream)

  unfoldable pub container_attach_to_terminal : Str → Action (World H) (Str × Str)
  container_attach_to_terminal container_name = do
    is_managed_running_container H v container_name
    container_attach_to_process container_name (text "/bin/bash" ∷ [])
        (text "COLUMNS=`tput cols`" ∷ text "LINES=`tput lines`" ∷ [])

  unfoldable pub container_terminal_resize : Str → ℕ → ℕ → Action (World H) (Unit {0})
  container_terminal_resize exec_id lines cols =
      on_engine H (H.engine.exec_resize exec_id lines cols)

  -- `adb install`, after the daemon has been brought up.
  unfoldable pub vm_install_apk : Str → Str → Action (World H) (Unit {0})
  vm_install_apk container_name apk_file = do
    is_managed_running_container H v container_name
    there ← stat H (join (v.devices_dir ∷ container_name ∷ apk_file ∷ []))
    if there
        then (do
          wrap (text "startADBDaemon") (start_adb_daemon container_name)
          resp ← wrap (text "adb install failed") (
              container_exec H container_name
                (text "adb install \"/data/" ++ (apk_file ++ text "\"")) (text "vsoc-01"))
          expect_zero H (text "non-zero exit in installAPK: ") resp)
        else fail (message (text "apk file " ++ (apk_file ++ text " does not exist")))
