-- ===== src/Api/Logstream/Conserved.antt =====
-- No byte of the log is lost, repeated or moved on its way through the buffer.
use mathlib.Core.List.{append-nil, append_assoc}
use matrisea.Common.{
  Str, true, ◌≡◌, ◌≢◌, refl, sym, ◌∙◌, ap, List, [], ◌∷◌, ◌++◌, Result, ok, err, panic, continue,
  ◌>>=◌, length, ltb, ◌==◌, arith, Bool-cases, inl, inr, ◌⊎◌,
}
use matrisea.Go.Strings.{remove_byte}
use matrisea.Go.Strings.Split.{remove_byte-append}
use matrisea.Api.Socket.{Socket}
use matrisea.Api.Logstream.{
  LogEvent, read, timer, LogWriter, written, flush, append_log, on_event, ws_log_writer_copy,
}

abbrev pub concat : List Str → Str
concat [] = []
concat (s ∷ ss) = s ++ concat ss

-- What the process has written, over some events.
abbrev pub log_of : List LogEvent → Str
log_of [] = []
log_of (read chunk ∷ events) = chunk ++ log_of events
log_of (timer ∷ events) = log_of events

pub nil_of_length : (t : Str) → (length t == 0) ≡ true → t ≡ []
nil_of_length [] h = refl
nil_of_length (c ∷ t) h = ground arith

concat-append : (ss ts : List Str) → concat (ss ++ ts) ≡ concat ss ++ concat ts
concat-append [] ts = refl
concat-append (s ∷ ss) ts = rw (concat-append ss ts) (sym (append_assoc s (concat ss) (concat ts)))

log_of-append : (es fs : List LogEvent) → log_of (es ++ fs) ≡ log_of es ++ log_of fs
log_of-append [] fs = refl
log_of-append (read chunk ∷ es) fs =
    rw (log_of-append es fs) (sym (append_assoc chunk (log_of es) (log_of fs)))
log_of-append (timer ∷ es) fs = log_of-append es fs

module _ (S : Socket) where
  -- What has come in: what was sent, and then what waits in the buffer.
  abbrev pub through : LogWriter S → Str
  through s = concat s.sent ++ s.send_buf

  through-written :
      (r : Result (Unit {0})) (c : S.State) (s : LogWriter S)
      → through (written S r c s).1 ≡ through s
  through-written (ok a) c s =
      ap (λ (t : Str). t ++ []) (concat-append s.sent (s.send_buf ∷ []))
      ∙ append-nil _
      ∙ ap (λ (t : Str). concat s.sent ++ t) (append-nil s.send_buf)
  through-written (err e) c s = refl
  through-written panic c s = refl

  through-flush : (s : LogWriter S) → through (flush S s).1 ≡ through s
  unfolding flush
  through-flush s = through-written _ _ s

  through-append_log :
      (buf : Str) (s : LogWriter S) → through (append_log S buf s).1 ≡ through s ++ buf
  unfolding append_log
  through-append_log buf s = elim (Bool-cases (ltb 131072 (length (s.send_buf ++ buf)))) [
    | inl full ↦ rw full (through-flush _ ∙ sym (append_assoc (concat s.sent) s.send_buf buf))
    | inr room ↦ rw room (sym (append_assoc (concat s.sent) s.send_buf buf))
  ]

  through-on_event :
      (e : LogEvent) (s : LogWriter S)
      → through (on_event S e s).1 ≡ through s ++ remove_byte 13 (log_of (e ∷ []))
  unfolding on_event remove_byte
  through-on_event (read chunk) s = elim (Bool-cases (length chunk == 0)) [
    | inl none_read ↦ rw (nil_of_length chunk none_read) (sym (append-nil (through s)))
    | inr some_read ↦ rw some_read (
        through-append_log (remove_byte 13 chunk) s
        ∙ ap (λ (t : Str). through s ++ remove_byte 13 t) (sym (append-nil chunk)))
  ]
  through-on_event timer s = elim (Bool-cases (length s.send_buf == 0)) [
    | inl none_waits ↦ rw none_waits (sym (append-nil (through s)))
    | inr some_wait ↦ rw some_wait (through-flush s ∙ sym (append-nil (through s)))
  ]

  -- A run up to its end, or up to the event whose write failed.
  pub record Conserves (events : List LogEvent) (s : LogWriter S)
      (out : Result (Unit {0}) × LogWriter S) : Type 0 where
    pub handled : List LogEvent
    pub rest : List LogEvent
    pub split : events ≡ handled ++ rest
    pub ended : ((out.0 ≡ ok tt) × (rest ≡ [])) ⊎ (out.0 ≢ ok tt)
    pub conserved : through out.1 ≡ through s ++ remove_byte 13 (log_of handled)

  after_event :
      (e : LogEvent) (events : List LogEvent) (last : Str) (s : LogWriter S)
      → ((t : LogWriter S) → Conserves events t (ws_log_writer_copy S events last t))
      → (r : Result (Unit {0})) (t : LogWriter S)
      → through t ≡ through s ++ remove_byte 13 (log_of (e ∷ []))
      → Conserves (e ∷ events) s (continue r (λ _. ws_log_writer_copy S events last) t)
  after_event e events last s ih (ok a) t h =
      let c = ih t in
      record {
        handled = e ∷ c.handled;
        rest = c.rest;
        split = ap (λ (es : List LogEvent). e ∷ es) c.split;
        ended = c.ended;
        conserved =
            c.conserved
            ∙ ap (λ (x : Str). x ++ remove_byte 13 (log_of c.handled)) h
            ∙ append_assoc (through s) (remove_byte 13 (log_of (e ∷ [])))
                (remove_byte 13 (log_of c.handled))
            ∙ ap (λ (x : Str). through s ++ x)
                (sym (remove_byte-append 13 (log_of (e ∷ [])) (log_of c.handled)))
            ∙ ap (λ (x : Str). through s ++ remove_byte 13 x)
                (sym (log_of-append (e ∷ []) c.handled));
      }
  after_event e events last s ih (err x) t h = record {
    handled = e ∷ [];
    rest = events;
    split = refl;
    ended = inr (λ k. cc);
    conserved = h;
  }
  after_event e events last s ih panic t h = record {
    handled = e ∷ [];
    rest = events;
    split = refl;
    ended = inr (λ k. cc);
    conserved = h;
  }

  -- At the end of wsLogWriterCopy the messages written and then the buffer are what they were at
  -- its beginning followed by all that the process wrote over the events handled, less the carriage
  -- returns: nothing is lost, repeated or moved. All events have been handled if no write failed.
  pub ws_log_writer_copy-Conserves :
      (events : List LogEvent) (last : Str) (s : LogWriter S)
      → Conserves events s (ws_log_writer_copy S events last s)
  unfolding ws_log_writer_copy ◌>>=◌
  ws_log_writer_copy-Conserves [] last s = record {
    handled = [];
    rest = [];
    split = refl;
    ended = inl (refl, refl);
    conserved = unfold remove_byte in sym (append-nil (through s));
  }
  ws_log_writer_copy-Conserves (e ∷ events) last s =
      after_event e events last s (ws_log_writer_copy-Conserves events last) (on_event S e s).0
        (on_event S e s).1 (through-on_event e s)
