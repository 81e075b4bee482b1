-- ===== src/Api/Websocket/Stuck.antt =====
-- Handlers after the end of the writer.
use mathlib.Core.Path.{subst}
use matrisea.Common.{ℕ, ◌≡◌, ◌≢◌, refl, sym, ◌∙◌, ap, List, [], ◌==◌, arith, Bool-cases, inl, inr}
use matrisea.Api.Session.{WebSocketResponse}
use matrisea.Api.Websocket.{
  MessageHandler, running, stopped, Pumps, PumpStep, read_message, read_failed, write_message,
  write_failed, ping_failed, PumpReach, here, next,
}

-- The writer has stopped, the handler has something to send, and the rest is as it was.
record IsStuck (t : ℕ) (ms : List WebSocketResponse) (written : List (ℕ × WebSocketResponse))
    (w : Pumps) : Type 0 where
  writer_stopped : w.writer ≡ stopped
  waiting : w.to_send t ≡ ms
  same : w.written ≡ written

stopped_runs : ¬ (stopped ≡ running)
stopped_runs h = cc

Step-IsStuck :
    (handler : MessageHandler) (t : ℕ) (ms : List WebSocketResponse)
    (written : List (ℕ × WebSocketResponse)) (w u : Pumps)
    → ms ≢ []
    → PumpStep handler w u
    → IsStuck t ms written w
    → IsStuck t ms written u
Step-IsStuck handler t ms written w u some_wait (read_message s m new r idle short handled e) h =
    subst (IsStuck t ms written) (sym e) (record {
      writer_stopped = h.writer_stopped;
      waiting = elim (Bool-cases (t == s)) [
        | inl same_handler ↦ absurd (some_wait (sym h.waiting ∙ ap w.to_send (ground arith) ∙ idle))
        | inr other ↦ rw other h.waiting
      ];
      same = h.same;
    })
Step-IsStuck handler t ms written w u some_wait (read_failed r e) h =
    subst (IsStuck t ms written) (sym e)
      (record { writer_stopped = h.writer_stopped; waiting = h.waiting; same = h.same })
Step-IsStuck handler t ms written w u some_wait (write_message s r rest runs o head e) h =
    absurd (stopped_runs (sym h.writer_stopped ∙ runs))
Step-IsStuck handler t ms written w u some_wait (write_failed s r rest runs head e) h =
    absurd (stopped_runs (sym h.writer_stopped ∙ runs))
Step-IsStuck handler t ms written w u some_wait (ping_failed runs e) h =
    absurd (stopped_runs (sym h.writer_stopped ∙ runs))

-- Once writePump has stopped, a handler of the connection that has a message to send waits for
-- ever: whatever steps follow, its messages stay unsent and nothing more is written.
pub PumpReach-stuck :
    (handler : MessageHandler) (w u : Pumps) (t : ℕ)
    → w.writer ≡ stopped
    → w.to_send t ≢ []
    → PumpReach handler w u
    → (u.to_send t ≡ w.to_send t) × (u.written ≡ w.written)
PumpReach-stuck handler w u t ended some_wait r = (last.waiting, last.same)
  where
    go : (v : Pumps) → PumpReach handler w v → IsStuck t (w.to_send t) w.written v
    go v here = record { writer_stopped = ended; waiting = refl; same = refl }
    go v (next {u = x} q st) =
        Step-IsStuck handler t (w.to_send t) w.written x v some_wait st (go x q)

    last : IsStuck t (w.to_send t) w.written u
    last = go u r
