-- ===== src/Api/Tests/Streams.antt =====
-- Runs of the log and terminal connections, and the theorems at them.
use matrisea.Common.{Str, none, true, false, text, ◌≡◌, refl, List, [], ◌∷◌, ◌++◌, ok, ◌>>=◌, arith}
use matrisea.Go.Strings.{remove_byte}
use matrisea.Vmm.Tests.Sample.{host, only}
use matrisea.Api.Session.{
  WebSocketResponse, type_create_vm, create_vm_response, step_start_vm, plain,
}
use matrisea.Api.Websocket.{set_message_handler, running, stopped, Pumps, here, next, read_failed}
use matrisea.Api.Websocket.Stuck.{PumpReach-stuck}
use matrisea.Api.Socket.{Socket, text_message, Attached}
use matrisea.Api.Logstream.{
  LogEvent, read, timer, LogWriter, flush, append_log, on_event, ws_log_writer_copy, ClientMessage,
}
use matrisea.Api.Logstream.Conserved.{
  concat, log_of, through, Conserves, ws_log_writer_copy-Conserves,
}
use matrisea.Api.Logstream.Bounds.{
  AreShort, IsBounded, ws_log_writer_copy-IsBounded, ws_log_writer_copy-delivers,
}
use matrisea.Api.Terminal.{resize, command_of}
use matrisea.Api.Terminal.Resize.{resize_message, command_of-resize_message}

-- A connection that takes every message.
abbrev open_socket : Socket
open_socket = record {
  State = Unit {0};
  write_message = λ t m s. (ok tt, s);
  Input = List Str;
  write_process = λ p i. (none, i ++ (p ∷ []));
  close_process = λ i. i;
}

abbrev at_start : LogWriter open_socket
at_start = record { send_buf = []; conn = tt; sent = [] }

-- Two lines with carriage returns, and an empty read; and the bytes of the read that fails.
abbrev two_lines : List LogEvent
two_lines = read (text "a\r\n") ∷ read [] ∷ read (text "b\r\n") ∷ []

abbrev lost : Str
lost = text "cut"

log-run :
    ws_log_writer_copy open_socket (two_lines ++ (timer ∷ [])) lost at_start
    ≡ (ok tt, record at_start { sent = text "a\nb\n" ∷ [] })
unfolding ws_log_writer_copy on_event append_log flush remove_byte text ◌>>=◌
log-run = refl

log-ok : (ws_log_writer_copy open_socket (two_lines ++ (timer ∷ [])) lost at_start).0 ≡ ok tt
unfolding ws_log_writer_copy on_event append_log flush remove_byte text ◌>>=◌
log-ok = refl

ws_log_writer_copy-Conserves_example :
    Conserves open_socket two_lines at_start
      (ws_log_writer_copy open_socket two_lines lost at_start)
ws_log_writer_copy-Conserves_example =
    ws_log_writer_copy-Conserves open_socket two_lines lost at_start

ws_log_writer_copy-delivers_example :
    concat (ws_log_writer_copy open_socket (two_lines ++ (timer ∷ [])) lost at_start).1.sent
    ≡ through open_socket at_start ++ remove_byte 13 (log_of two_lines)
ws_log_writer_copy-delivers_example =
    ws_log_writer_copy-delivers open_socket two_lines lost at_start log-ok

short-two_lines : AreShort (two_lines ++ (timer ∷ []))
unfolding text
short-two_lines = (omega arith, (omega arith, (omega arith, tt)))

ws_log_writer_copy-IsBounded_example :
    IsBounded open_socket
      (ws_log_writer_copy open_socket (two_lines ++ (timer ∷ [])) lost at_start).1
ws_log_writer_copy-IsBounded_example =
    ws_log_writer_copy-IsBounded open_socket (two_lines ++ (timer ∷ [])) lost at_start
      short-two_lines (record { waiting = omega arith; batches = tt }) log-ok

command_of-resize_message_example : command_of (resize_message 80 24) ≡ ok (resize 24 80)
command_of-resize_message_example = command_of-resize_message 80 24 (omega arith) (omega arith)

abbrev shell : Attached host open_socket
shell = record { world = only; conn = tt; input = [] }

abbrev typed : List ClientMessage
typed = record { type = text_message; payload = text "ls\r" } ∷ []

abbrev ready_message : WebSocketResponse
ready_message = record {
  type = type_create_vm;
  body = create_vm_response step_start_vm;
  has_error = false;
  error_msg = plain [];
}

-- The client has gone, and handler 0 has one message left.
abbrev gone : Pumps
gone = record {
  reader = running;
  writer = stopped;
  closed = true;
  to_send = λ t. ready_message ∷ [];
  written = [];
}

abbrev all_gone : Pumps
all_gone = record gone { reader = stopped }

PumpReach-stuck_example : (all_gone.to_send 0 ≡ gone.to_send 0) × (all_gone.written ≡ gone.written)
PumpReach-stuck_example =
    PumpReach-stuck (set_message_handler none) gone all_gone 0 refl (λ e. cc)
      (next here (read_failed refl refl))
