-- ===== src/Api/Terminal.antt =====
-- api/terminal.go: a shell in a device's container, with the client's messages as its input.
pub mod Resize
use matrisea.Common.{
  ℕ, Str, text, Bool, true, false, List, [], ◌∷◌, ◌++◌, Result, ok, err, panic, Error, Action,
  ◌>>=◌, ◌>>◌, pure, crash, attempt, catch, length, leb, ◌==◌, if◌then◌else◌,
}
use matrisea.Go.Strings.{has_prefix, split}
use matrisea.Go.Strconv.{parse_uint}
use matrisea.Vmm.Host.{Vmm, Host}
use matrisea.Vmm.Exec.{
  container_attach_to_terminal, container_kill_terminal, container_terminal_resize,
}
use matrisea.Api.Socket.{
  Socket, MessageType, text_message, binary_message, Attached, call, write_input, close_input,
  with_deferred, tell,
}
use matrisea.Api.Logstream.{ClientMessage}
use matrisea.Api.Env.{cf_prefix}

abbrev pub resize_prefix : Str
resize_prefix = text "$$MATRISEA_RESIZE"

-- What a text message asks for.
pub data Command : Type 0 where
  input : Str → Command
  resize : ℕ → ℕ → Command
  -- logged only
  malformed : Command

-- The second number, with the first one read.
abbrev with_lines : ℕ → List Str → Result Command
with_lines cols [] = panic
with_lines cols (s2 ∷ _) = elim (parse_uint s2) [
  | ok lines ↦ ok (resize lines cols)
  | err e ↦ ok malformed
  | panic ↦ panic
]

-- `s[1]` and then `s[2]`: an index out of range panics. The second one is not looked at if the first
-- is no number.
abbrev resize_command : List Str → Result Command
resize_command [] = panic
resize_command (s0 ∷ []) = panic
resize_command (s0 ∷ s1 ∷ rest) = elim (parse_uint s1) [
  | ok cols ↦ with_lines cols rest
  | err e ↦ ok malformed
  | panic ↦ panic
]

unfoldable pub command_of : Str → Result Command
command_of p =
    let asked = resize_command (split b' ' p) in
    if has_prefix p resize_prefix then asked else ok (input p)

module _ (H : Host) (S : Socket) (v : Vmm) where
  -- The error of the resize is dropped.
  unfoldable pub execute : Str → Result Command → Action (Attached H S) (Unit {0})
  execute exec_id (ok (input p)) = write_input H S p
  execute exec_id (ok (resize lines cols)) =
      catch (call H S (container_terminal_resize H v exec_id lines cols)) (λ e. pure tt)
  execute exec_id (ok malformed) = pure tt
  execute exec_id (err e) = pure tt
  execute exec_id panic = crash

  abbrev pub on_message : Str → MessageType → Str → Action (Attached H S) (Unit {0})
  on_message exec_id text_message p = execute exec_id (command_of p)
  on_message exec_id binary_message p = pure tt

  -- The client's messages, up to the error that ends the connection.
  unfoldable pub ws_reader_copy : Str → List ClientMessage → Action (Attached H S) (Unit {0})
  ws_reader_copy exec_id [] = pure tt
  ws_reader_copy exec_id (m ∷ ms) = on_message exec_id m.type m.payload >> ws_reader_copy exec_id ms

  -- The deferred calls of `TerminalHandler`: the process's connection is closed before `exit` is written to it.
  unfoldable pub terminal_cleanup : Str → Action (Attached H S) (Unit {0})
  terminal_cleanup container_name = do
    close_input H S
    write_input H S (text "exit\r")
    catch (call H S (container_kill_terminal H v container_name)) (λ e. pure tt)

  -- `TerminalHandler` behind the attachment.
  abbrev pub in_terminal :
      (Error → Str)
      → Str
      → List ClientMessage
      → Result (Str × Str)
      → Action (Attached H S) (Unit {0})
  in_terminal error_text container_name client (ok session) =
      with_deferred H S (ws_reader_copy session.0 client) (terminal_cleanup container_name)
  in_terminal error_text container_name client (err e) =
      tell H S (text "internal error:" ++ error_text e)
  in_terminal error_text container_name client panic = crash

  -- `TerminalHandler`, after the upgrade of the connection; `ws_writer_copy` runs beside it.
  unfoldable pub terminal_handler :
      (Error → Str) → Str → List ClientMessage → Action (Attached H S) (Unit {0})
  terminal_handler error_text name client = do
    let container_name = cf_prefix ++ name
    attached ← attempt (call H S (container_attach_to_terminal H v container_name))
    in_terminal error_text container_name client attached

-- One `Read` of the process: the bytes, and whether an error came with them.
pub record Read : Type 0 where
  pub bytes : Str
  pub failed : Bool

module _ (S : Socket) where
  abbrev write_output : Str → Action S.State (Unit {0})
  write_output p =
      let write = S.write_message binary_message p in if length p == 0 then pure tt else write

  -- Bytes are written also when an error came with them. The loop ends at an error of either side.
  unfoldable pub ws_writer_copy : List Read → Action S.State (Unit {0})
  ws_writer_copy [] = pure tt
  ws_writer_copy (r ∷ reads) = do
    write_output r.bytes
    (let rest = ws_writer_copy reads in if r.failed then pure tt else rest)
