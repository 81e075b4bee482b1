-- ===== src/Api/Logstream.antt =====
-- api/logstream.go: a device's log, sent to a client in batches.
pub mod Conserved
pub mod Bounds
pub mod Cleanup
use matrisea.Common.{
  ℕ, Str, text, str_eq, Bool, Option, none, some, List, [], ◌∷◌, ◌++◌, ◌*◌, Result, ok, err, panic,
  Error, message, Action, ◌>>=◌, ◌>>◌, pure, fail, crash, attempt, catch, length, ltb, ◌==◌,
  if◌then◌else◌,
}
use matrisea.Go.Strings.{remove_byte}
use matrisea.Go.Path.{join}
use matrisea.Vmm.Host.{home_dir, Vmm, Host}
use matrisea.Vmm.Exec.{container_kill_process, container_attach_to_process}
use matrisea.Vmm.Transfer.{container_file_exists}
use matrisea.Api.Socket.{
  Socket, MessageType, text_message, binary_message, Attached, call, write_input, close_input,
  with_deferred, tell,
}
use matrisea.Api.Env.{cf_prefix}

-- The file of each log source.
unfoldable pub log_file : Str → Option Str
log_file source =
    if str_eq source (text "launcher")
    then some (join (home_dir ∷ text "cuttlefish_runtime/launcher.log" ∷ []))
    else if str_eq source (text "kernel")
    then some (join (home_dir ∷ text "cuttlefish_runtime/kernel.log" ∷ []))
    else if str_eq source (text "logcat")
    then some (join (home_dir ∷ text "cuttlefish_runtime/logcat" ∷ []))
    else none

-- `strings.Join(cmd, " ")` of the command that follows the file.
unfoldable pub log_command : Str → Str
log_command file = text "tail -n 2000 -f " ++ file

-- `LOG_BUF_SIZE`
abbrev pub log_buf_size : ℕ
log_buf_size = 1024 * 128

-- What the loop of `wsLogWriterCopy` waits for, in the order in which it comes: what one read of the
-- process gave without an error, and two seconds without any. Behind the last one comes a read with an error, which
-- ends the stream.
pub data LogEvent : Type 0 where
  read : Str → LogEvent
  timer : LogEvent

-- The buffer, the connection, and the messages that were written without an error, in their order.
pub record LogWriter (S : Socket) : Type 0 where
  pub send_buf : Str
  pub conn : S.State
  pub sent : List Str

module _ (S : Socket) where
  abbrev written : Result (Unit {0}) → S.State → LogWriter S → Result (Unit {0}) × LogWriter S
  written (ok a) conn s =
      (ok tt, record { send_buf = []; conn = conn; sent = s.sent ++ (s.send_buf ∷ []) })
  written (err e) conn s = (err e, record s { conn = conn })
  written panic conn s = (panic, record s { conn = conn })

  -- `writer.WriteMessage(websocket.TextMessage, []byte(sendBuf))`, and an empty buffer behind it.
  unfoldable pub flush : Action (LogWriter S) (Unit {0})
  flush s = let (r, c) = S.write_message text_message s.send_buf s.conn in written r c s

  unfoldable pub append_log : Str → Action (LogWriter S) (Unit {0})
  append_log buf s =
      let t = record s { send_buf = s.send_buf ++ buf } in
      let full = flush t in if ltb log_buf_size (length t.send_buf) then full else (ok tt, t)

  -- An empty read is not passed on; the returns of other reads are taken out.
  unfoldable pub on_event : LogEvent → Action (LogWriter S) (Unit {0})
  on_event (read chunk) s =
      let passed = append_log (remove_byte 13 chunk) s in
      if length chunk == 0 then (ok tt, s) else passed
  on_event timer s =
      let sent_now = flush s in if length s.send_buf == 0 then (ok tt, s) else sent_now

  -- An error of a write ends the loop, and so does one of a read: the bytes that came with that one
  -- are not looked at, and what waits in the buffer is not written.
  unfoldable pub ws_log_writer_copy : List LogEvent → Str → Action (LogWriter S) (Unit {0})
  ws_log_writer_copy [] last = pure tt
  ws_log_writer_copy (e ∷ events) last = on_event e >> ws_log_writer_copy events last

-- A message from the client.
pub record ClientMessage : Type 0 where
  pub type : MessageType
  pub payload : Str

module _ (H : Host) (S : Socket) where
  abbrev pub to_process : MessageType → Str → Action (Attached H S) (Unit {0})
  to_process text_message p = write_input H S p
  to_process binary_message p = pure tt

  -- The client's messages, up to the error that ends the connection: the text ones go to the process.
  unfoldable pub ws_log_reader_copy : List ClientMessage → Action (Attached H S) (Unit {0})
  ws_log_reader_copy [] = pure tt
  ws_log_reader_copy (m ∷ ms) = do to_process m.type m.payload; ws_log_reader_copy ms

  -- The deferred calls of `LogStreamHandler`: the process's connection is closed before `exit` is written to it.
  unfoldable pub log_cleanup : Vmm → Str → Str → Action (Attached H S) (Unit {0})
  log_cleanup v container_name file = do
    close_input H S
    write_input H S (text "exit\r")
    catch (call H S (container_kill_process H v container_name (log_command file))) (λ e. pure tt)

  module _ (error_text : Error → Str) (v : Vmm) (client : List ClientMessage) where
    abbrev pub follow_log : Str → Str → Result (Str × Str) → Action (Attached H S) (Unit {0})
    follow_log container_name file (ok session) =
        with_deferred H S (ws_log_reader_copy client) (log_cleanup v container_name file)
    follow_log container_name file (err e) =
        tell H S (text "Failed to get log due to " ++ (error_text e ++ text "\n"))
    follow_log container_name file panic = crash

    abbrev pub attach_log : Str → Str → Action (Attached H S) (Unit {0})
    attach_log container_name file = do
      attached ← attempt (
          call H S (
            container_attach_to_process H v container_name
              (text "tail" ∷ text "-n" ∷ text "2000" ∷ text "-f" ∷ file ∷ []) []))
      follow_log container_name file attached

    abbrev pub found_log : Str → Str → Result (Unit {0}) → Action (Attached H S) (Unit {0})
    found_log container_name file (ok u) = attach_log container_name file
    found_log container_name file (err e) =
        tell H S (text "Log file " ++ (file ++ text " does not exist\n"))
    found_log container_name file panic = crash

    abbrev pub stream_log : Str → Option Str → Action (Attached H S) (Unit {0})
    stream_log container_name none = pure tt
    stream_log container_name (some file) = do
      exists ← attempt (call H S (container_file_exists H v container_name file))
      found_log container_name file exists

    -- `LogStreamHandler`, after the upgrade of the connection, for the parameters `name` and
    -- `source`, and the client's messages; `ws_log_writer_copy` runs beside it.
    unfoldable pub log_stream_handler : Str → Str → Action (Attached H S) (Unit {0})
    log_stream_handler name source = stream_log (cf_prefix ++ name) (log_file source)
