-- ===== src/Api/Websocket.antt =====
-- api/websocket.go: the two pumps of the main connection beside the goroutines of its handlers. The
-- channel `send` has no buffer and is never closed: a handler's send and the writer's receive are one
-- step.
pub mod Stuck
pub mod Ordered
use matrisea.Common.{
  ℕ, ◌≤◌, Str, Bool, true, false, ◌≡◌, Option, none, some, List, [], ◌∷◌, ◌++◌, ◌==◌, length,
  if◌then◌else◌,
}
use matrisea.Vmm.Host.{Vmm, Host}
use matrisea.Vmm.Start.{BootLog}
use matrisea.Api.Messages.{Incoming, ws_main_page_handler}
use matrisea.Api.Session.{Session, WebSocketResponse}

pub data Pump : Type 0 where
  running stopped : Pump

-- The pumps, whether the connection is closed, the messages that each handler still has to send, by
-- the handler's number, and the messages that were written, with the handler of each.
pub record Pumps : Type 0 where
  pub reader : Pump
  pub writer : Pump
  pub closed : Bool
  pub to_send : ℕ → List WebSocketResponse
  pub written : List (ℕ × WebSocketResponse)

abbrev pub set_messages :
    (ℕ → List WebSocketResponse) → ℕ → List WebSocketResponse → ℕ → List WebSocketResponse
set_messages f t ms k = if k == t then ms else f k

-- `maxMessageSize`: a longer message makes `ReadMessage` fail.
abbrev pub max_message_size : ℕ
max_message_size = 512

-- A handler of a connection: what it may send for a message, in order.
abbrev pub MessageHandler : Type 1
MessageHandler = Str → List WebSocketResponse → Type 0

-- `SetMessageHandler`: a nil handler is replaced by one that only logs.
unfoldable pub set_message_handler : Option MessageHandler → MessageHandler
set_message_handler none m ms = ms ≡ []
set_message_handler (some h) m ms = h m ms

-- `wsMainPageHandler`, on what the request is decoded to, in any state of the world.
unfoldable pub main_page : (H : Host) → Vmm → (Str → Incoming) → MessageHandler
main_page H v decode m ms =
    (s : Session H) × (log : BootLog) × ((ws_main_page_handler H v (decode m) log s).1.sent
      ≡ s.sent ++ ms)

-- `wsHandler`: the connection as it begins, and its handler.
abbrev pub opened : Pumps
opened = record {
  reader = running;
  writer = running;
  closed = false;
  to_send = λ t. [];
  written = [];
}

unfoldable pub ws_handler : (H : Host) → Vmm → (Str → Incoming) → MessageHandler
ws_handler H v decode = set_message_handler (some (main_page H v decode))

pub data PumpStep (handler : MessageHandler) (w u : Pumps) : Type 0 where
  -- `go c.handler(c, buf)`, with the messages that this handler will send
  read_message :
      (t : ℕ) (m : Str) (ms : List WebSocketResponse)
      → w.reader ≡ running
      → w.to_send t ≡ []
      → length m ≤ max_message_size
      → handler m ms
      → u ≡ record w { to_send = set_messages w.to_send t ms }
      → PumpStep handler w u
  -- an error of `ReadMessage`, and the deferred close
  read_failed :
      w.reader ≡ running → u ≡ record w { reader = stopped; closed = true } → PumpStep handler w u
  -- `message := <-c.send` and `WriteJSON`
  write_message :
      (t : ℕ) (r : WebSocketResponse) (rest : List WebSocketResponse)
      → w.writer ≡ running
      → w.closed ≡ false
      → w.to_send t ≡ r ∷ rest
      → u
        ≡ record w { to_send = set_messages w.to_send t rest; written = w.written ++ ((t, r) ∷ []) }
      → PumpStep handler w u
  -- the same with an error of `WriteJSON`
  write_failed :
      (t : ℕ) (r : WebSocketResponse) (rest : List WebSocketResponse)
      → w.writer ≡ running
      → w.to_send t ≡ r ∷ rest
      → u ≡ record w { writer = stopped; closed = true; to_send = set_messages w.to_send t rest }
      → PumpStep handler w u
  -- an error of the ping
  ping_failed :
      w.writer ≡ running → u ≡ record w { writer = stopped; closed = true } → PumpStep handler w u

pub data PumpReach (handler : MessageHandler) (w : Pumps) : Pumps → Type 0 where
  here : PumpReach handler w w
  next : {u v : Pumps} → PumpReach handler w u → PumpStep handler u v → PumpReach handler w v
