-- ===== src/Api/Logstream/Bounds.antt =====
-- How much of a log waits in the buffer, and how long.
use mathlib.Core.List.{append-nil}
use matrisea.Common.{
  ℕ, ◌+◌, ◌≤◌, Str, ◌≡◌, refl, sym, ◌∙◌, ap, List, [], ◌∷◌, ◌++◌, Result, ok, err, panic, pure,
  length, ltb, ◌==◌, arith, Bool-cases, inl, inr,
}
use matrisea.Common.Steps.{bind-inv}
use matrisea.Go.Strings.{remove_byte}
use matrisea.Api.Socket.{Socket}
use matrisea.Api.Logstream.{
  log_buf_size, LogEvent, read, timer, LogWriter, written, flush, append_log, on_event,
  ws_log_writer_copy,
}
use matrisea.Api.Logstream.Conserved.{
  concat, nil_of_length, log_of, through, Conserves, ws_log_writer_copy-Conserves,
}

-- Reads of at most the read buffer.
abbrev pub AreShort : List LogEvent → Type 0
AreShort [] = Unit
AreShort (read chunk ∷ events) = (length chunk ≤ log_buf_size) × AreShort events
AreShort (timer ∷ events) = AreShort events

-- Messages that are not empty and hold at most a full buffer and one read.
abbrev pub AreBatches : List Str → Type 0
AreBatches [] = Unit
AreBatches (m ∷ ms) = (1 ≤ length m) × (length m ≤ log_buf_size + log_buf_size) × AreBatches ms

AreBatches-append :
    (ms : List Str) (m : Str)
    → AreBatches ms
    → 1 ≤ length m
    → length m ≤ log_buf_size + log_buf_size
    → AreBatches (ms ++ (m ∷ []))
AreBatches-append [] m h lo hi = (lo, hi, tt)
AreBatches-append (n ∷ ms) m (a, b, h) lo hi = (a, b, AreBatches-append ms m h lo hi)

length-append : (s t : Str) → length (s ++ t) ≡ length s + length t
length-append [] t = omega arith
length-append (c ∷ s) t = ground (arith, length-append s t)

length-remove_byte : (c : ℕ) (s : Str) → length (remove_byte c s) ≤ length s
unfolding remove_byte
length-remove_byte c [] = omega arith
length-remove_byte c (a ∷ s) = ground (arith, length-remove_byte c s)

module _ (S : Socket) where
  -- At most a full buffer waits.
  pub record IsBounded (s : LogWriter S) : Type 0 where
    pub waiting : length s.send_buf ≤ log_buf_size
    pub batches : AreBatches s.sent

  IsBounded-written :
      (r : Result (Unit {0})) (c : S.State) (s : LogWriter S)
      → 1 ≤ length s.send_buf
      → length s.send_buf ≤ log_buf_size + log_buf_size
      → AreBatches s.sent
      → (written S r c s).0 ≡ ok tt
      → IsBounded (written S r c s).1
  IsBounded-written (ok a) c s lo hi h k = record {
    waiting = omega arith;
    batches = AreBatches-append s.sent s.send_buf h lo hi;
  }
  IsBounded-written (err e) c s lo hi h k = absurd (cc)
  IsBounded-written panic c s lo hi h k = absurd (cc)

  IsBounded-append_log :
      (buf : Str) (s : LogWriter S)
      → length buf ≤ log_buf_size
      → IsBounded s
      → (append_log S buf s).0 ≡ ok tt
      → IsBounded (append_log S buf s).1
  unfolding append_log flush
  IsBounded-append_log buf s short b h =
      elim (Bool-cases (ltb 131072 (length (s.send_buf ++ buf)))) [
        | inl full ↦ rw full (
            IsBounded-written _ _ (record s { send_buf = s.send_buf ++ buf }) (ground arith)
              (omega (arith, length-append s.send_buf buf, b.waiting)) b.batches (rw full at h))
        | inr room ↦ rw room (record { waiting = ground arith; batches = b.batches })
      ]

  IsBounded-read :
      (chunk : Str) (s : LogWriter S)
      → length chunk ≤ log_buf_size
      → IsBounded s
      → (on_event S (read chunk) s).0 ≡ ok tt
      → IsBounded (on_event S (read chunk) s).1
  unfolding on_event
  IsBounded-read chunk s short b h = elim (Bool-cases (length chunk == 0)) [
    | inl none_read ↦ rw none_read b
    | inr some_read ↦ rw some_read (
        IsBounded-append_log (remove_byte 13 chunk) s (omega (arith, length-remove_byte 13 chunk)) b
          (rw some_read at h))
  ]

  flush-ok :
      (r : Result (Unit {0})) (c : S.State) (s : LogWriter S)
      → (written S r c s).0 ≡ ok tt
      → (written S r c s).1.send_buf ≡ []
  flush-ok (ok a) c s h = refl
  flush-ok (err e) c s h = absurd (cc)
  flush-ok panic c s h = absurd (cc)

  -- The timer leaves nothing that waits.
  send_buf-timer :
      (s : LogWriter S) → (on_event S timer s).0 ≡ ok tt → (on_event S timer s).1.send_buf ≡ []
  unfolding on_event flush
  send_buf-timer s h = elim (Bool-cases (length s.send_buf == 0)) [
    | inl none_waits ↦ rw none_waits (nil_of_length s.send_buf none_waits)
    | inr some_wait ↦ rw some_wait (flush-ok _ _ s (rw some_wait at h))
  ]

  IsBounded-timer :
      (s : LogWriter S)
      → IsBounded s
      → (on_event S timer s).0 ≡ ok tt
      → IsBounded (on_event S timer s).1
  unfolding on_event flush
  IsBounded-timer s b h = elim (Bool-cases (length s.send_buf == 0)) [
    | inl none_waits ↦ rw none_waits b
    | inr some_wait ↦ rw some_wait (
        IsBounded-written _ _ s (ground arith) (omega (arith, b.waiting)) b.batches
          (rw some_wait at h))
  ]

  -- After any run of wsLogWriterCopy without a failed write, from a buffer within LOG_BUF_SIZE and
  -- with reads of no more than that, the buffer is within it, and no message sent is empty or
  -- longer than two times it, if none was before.
  pub ws_log_writer_copy-IsBounded :
      (events : List LogEvent) (last : Str) (s : LogWriter S)
      → AreShort events
      → IsBounded s
      → (ws_log_writer_copy S events last s).0 ≡ ok tt
      → IsBounded (ws_log_writer_copy S events last s).1
  unfolding ws_log_writer_copy
  ws_log_writer_copy-IsBounded [] last s short b h = b
  ws_log_writer_copy-IsBounded (read chunk ∷ events) last s short b h =
      let (_, done, e) =
        bind-inv (on_event S (read chunk)) (λ _. ws_log_writer_copy S events last) s tt h in
      rw e (
        ws_log_writer_copy-IsBounded events last _ short.1 (IsBounded-read chunk s short.0 b done)
          (rw e at h))
  ws_log_writer_copy-IsBounded (timer ∷ events) last s short b h =
      let (_, done, e) =
        bind-inv (on_event S timer) (λ _. ws_log_writer_copy S events last) s tt h in
      rw e (ws_log_writer_copy-IsBounded events last _ short (IsBounded-timer s b done) (rw e at h))

  send_buf-last_timer :
      (events : List LogEvent) (last : Str) (s : LogWriter S)
      → (ws_log_writer_copy S (events ++ (timer ∷ [])) last s).0 ≡ ok tt
      → (ws_log_writer_copy S (events ++ (timer ∷ [])) last s).1.send_buf ≡ []
  unfolding ws_log_writer_copy
  send_buf-last_timer [] last s h =
      let (_, done, e) = bind-inv (on_event S timer) (λ _. pure tt) s tt h in
      rw e (send_buf-timer s done)
  send_buf-last_timer (x ∷ events) last s h =
      let rest = ws_log_writer_copy S (events ++ (timer ∷ [])) last in
      let (_, done, e) = bind-inv (on_event S x) (λ _. rest) s tt h in
      rw e (send_buf-last_timer events last _ (rw e at h))

  log_of-last_timer : (events : List LogEvent) → log_of (events ++ (timer ∷ [])) ≡ log_of events
  log_of-last_timer [] = refl
  log_of-last_timer (read chunk ∷ events) = ap (λ (t : Str). chunk ++ t) (log_of-last_timer events)
  log_of-last_timer (timer ∷ events) = log_of-last_timer events

  sent_all :
      (events : List LogEvent) (s : LogWriter S) (out : Result (Unit {0}) × LogWriter S)
      → Conserves S events s out
      → out.0 ≡ ok tt
      → out.1.send_buf ≡ []
      → concat out.1.sent ≡ through S s ++ remove_byte 13 (log_of events)
  sent_all events s out c h none_waits = elim c.ended [
    | inl (_, all) ↦
        sym (append-nil (concat out.1.sent))
        ∙ ap (λ (t : Str). concat out.1.sent ++ t) (sym none_waits)
        ∙ c.conserved
        ∙ ap (λ (es : List LogEvent). through S s ++ remove_byte 13 (log_of es))
            (sym
              (c.split ∙ ap (λ (es : List LogEvent). c.handled ++ es) all ∙ append-nil c.handled))
    | inr failed ↦ absurd (failed h)
  ]

  -- If the last event is the timer and no write has failed, all that the reads without an error
  -- have given is with the client, less the carriage returns, in order and behind what had come
  -- before; the bytes that come with the error of the last read are not sent.
  pub ws_log_writer_copy-delivers :
      (events : List LogEvent) (last : Str) (s : LogWriter S)
      → (ws_log_writer_copy S (events ++ (timer ∷ [])) last s).0 ≡ ok tt
      → concat (ws_log_writer_copy S (events ++ (timer ∷ [])) last s).1.sent
        ≡ through S s ++ remove_byte 13 (log_of events)
  ws_log_writer_copy-delivers events last s h =
      sent_all (events ++ (timer ∷ [])) s _
        (ws_log_writer_copy-Conserves S (events ++ (timer ∷ [])) last s) h
        (send_buf-last_timer events last s h)
      ∙ ap (λ (t : Str). through S s ++ remove_byte 13 t) (log_of-last_timer events)
