-- ===== src/Api/Logstream/Cleanup.antt =====
-- What the end of a log's connection stops.
use matrisea.Common.{Str, text, ◌≡◌, refl}
use matrisea.Go.Strings.{split}
use matrisea.Vmm.Host.{Vmm, Host}
use matrisea.Vmm.Exec.{container_kill_process}
use matrisea.Api.Logstream.{log_command}

-- To stop the command that follows one log is to stop that of any log of the device: processes are
-- found by the command's first word.
pub container_kill_process-log_command :
    (H : Host) (v : Vmm) (container_name file other : Str)
    → container_kill_process H v container_name (log_command file)
      ≡ container_kill_process H v container_name (log_command other)
unfolding container_kill_process log_command split text
container_kill_process-log_command H v container_name file other = refl
