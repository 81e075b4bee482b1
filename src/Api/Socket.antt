-- ===== src/Api/Socket.antt =====
-- The library `github.com/gorilla/websocket`, as the handlers use one connection: an interface; and
-- what a handler that attaches a client to a process works on.
use matrisea.Common.{Str, Option, Error, Result, ok, err, panic, Action}
use matrisea.Vmm.Host.{Host, World}

pub data MessageType : Type 0 where
  text_message binary_message : MessageType

pub record Socket : Type 1 where
  pub State : Type 0
  pub write_message : MessageType → Str → Action State (Unit {0})
  -- The connection to the process (`net.Conn`), and one `Write` to it: the error, if there is one.
  pub Input : Type 0
  pub write_process : Str → Input → Option Error × Input
  pub close_process : Input → Input

-- The world, the connection to the client, and the one to the process.
pub record Attached (H : Host) (S : Socket) : Type 0 where
  pub world : World H
  pub conn : S.State
  pub input : S.Input

module _ (H : Host) (S : Socket) where
  -- `writer.Write(p)` on the process's connection: its error is dropped.
  unfoldable pub write_input : Str → Action (Attached H S) (Unit {0})
  write_input p s = let (e, i) = S.write_process p s.input in (ok tt, record s { input = i })

  -- `hijackedResp.Close()`
  unfoldable pub close_input : Action (Attached H S) (Unit {0})
  close_input s = (ok tt, record s { input = S.close_process s.input })

  -- `defer`: the second runs behind the first, whatever came of that, and only a panic of its own
  -- replaces the result.
  abbrev pub with_deferred :
      Action (Attached H S) (Unit {0})
      → Action (Attached H S) (Unit {0})
      → Action (Attached H S) (Unit {0})
  with_deferred m d s =
      let (r, t) = m s in let (q, u) = d t in (elim q [ panic ↦ panic | ok a ↦ r | err e ↦ r ], u)

  -- A call of the manager whose error the handler looks at.
  abbrev pub call : {A : Type 0} → Action (World H) A → Action (Attached H S) A
  call m s = let (r, w) = m s.world in (r, record s { world = w })

  abbrev ignored : Result (Unit {0}) → Result (Unit {0})
  ignored panic = panic
  ignored _ = ok tt

  -- A message to the client whose error is dropped, or logged only.
  unfoldable pub tell : Str → Action (Attached H S) (Unit {0})
  tell msg s =
      let (r, c) = S.write_message text_message msg s.conn in (ignored r, record s { conn = c })
