-- ===== src/Api/Websocket/Ordered.antt =====
-- The messages of each handler on the wire.
use mathlib.Core.List.{append-nil, append_assoc}
use mathlib.Core.Path.{subst}
use matrisea.Common.{
  ℕ, ◌≤◌, ◌≡◌, refl, sym, ◌∙◌, ap, List, [], ◌∷◌, ◌++◌, ◌==◌, if◌then◌else◌, arith, Bool-cases, inl,
  inr, length,
}
use matrisea.Api.Session.{WebSocketResponse}
use matrisea.Api.Websocket.{
  MessageHandler, running, stopped, Pumps, opened, set_messages, PumpStep, read_message,
  read_failed, write_message, write_failed, ping_failed, PumpReach, here, next,
}

-- The messages of handler `t` among those written, in order.
abbrev pub written_by : ℕ → List (ℕ × WebSocketResponse) → List WebSocketResponse
written_by t [] = []
written_by t ((s, r) ∷ ms) = (if t == s then r ∷ written_by t ms else written_by t ms)

written_by-append :
    (t s : ℕ) (r : WebSocketResponse) (ms : List (ℕ × WebSocketResponse))
    → written_by t (ms ++ ((s, r) ∷ []))
      ≡ (if t == s then written_by t ms ++ (r ∷ []) else written_by t ms)
written_by-append t s r [] = refl
written_by-append t s r ((q, m) ∷ ms) = ground (arith, written_by-append t s r ms)

module _ (handler : MessageHandler) where
  -- What handler `t` has been given to send over a run.
  abbrev given_step : {w u : Pumps} → PumpStep handler w u → ℕ → List WebSocketResponse
  given_step (read_message s m ms r idle short handled e) t = if t == s then ms else []
  given_step (read_failed r e) t = []
  given_step (write_message s m rest r o head e) t = []
  given_step (write_failed s m rest r head e) t = []
  given_step (ping_failed r e) t = []

  abbrev pub given : {w u : Pumps} → PumpReach handler w u → ℕ → List WebSocketResponse
  given here t = []
  given (next r st) t = given r t ++ given_step st t

-- What was given is what was written, at most one message lost, and what is still to be sent.
pub record IsInOrder (t : ℕ) (gave : List WebSocketResponse) (u : Pumps) : Type 0 where
  pub lost : List WebSocketResponse
  pub parts : gave ≡ written_by t u.written ++ (lost ++ u.to_send t)
  pub few : length lost ≤ 1
  pub unless_stopped : u.writer ≡ running → lost ≡ []

stopped_runs : ¬ (stopped ≡ running)
stopped_runs h = cc

module _ (t s : ℕ) (gave : List WebSocketResponse) (done : List (ℕ × WebSocketResponse))
    (lost : List WebSocketResponse) (f : ℕ → List WebSocketResponse)
    (parts : gave ≡ written_by t done ++ (lost ++ f t)) where
  parts-read :
      (ms : List WebSocketResponse)
      → f s ≡ []
      → gave ++ (if t == s then ms else []) ≡ written_by t done ++ (lost ++ set_messages f s ms t)
  parts-read ms idle = elim (Bool-cases (t == s)) [
    | inl own ↦
        let quiet : f t ≡ [] = ap f (ground arith) ∙ idle in
        rw own (rw parts (rw quiet (simp (append-nil, append_assoc))))
    | inr other ↦ rw other (append-nil gave ∙ parts)
  ]

  module _ (r : WebSocketResponse) (rest : List WebSocketResponse) (head : f s ≡ r ∷ rest) where
    parts-write :
        lost ≡ [] → gave ++ [] ≡ written_by t (done ++ ((s, r) ∷ [])) ++ set_messages f s rest t
    parts-write none_lost = elim (Bool-cases (t == s)) [
      | inl own ↦
          let first : f t ≡ r ∷ rest = ap f (ground arith) ∙ head in
          rw (written_by-append t s r done)
            (rw own (rw parts (rw none_lost (rw first (simp (append-nil, append_assoc))))))
      | inr other ↦
          rw (written_by-append t s r done) (rw other (append-nil gave ∙ rw none_lost at parts))
    ]

    parts-lose :
        lost ≡ []
        → gave ++ []
          ≡ written_by t done ++ ((if t == s then r ∷ [] else []) ++ set_messages f s rest t)
    parts-lose none_lost = elim (Bool-cases (t == s)) [
      | inl own ↦
          let first : f t ≡ r ∷ rest = ap f (ground arith) ∙ head in
          rw own (rw parts (rw none_lost (rw first (append-nil _))))
      | inr other ↦ rw other (append-nil gave ∙ rw none_lost at parts)
    ]

Step-IsInOrder :
    (handler : MessageHandler) (t : ℕ) (gave : List WebSocketResponse) (w u : Pumps)
    (st : PumpStep handler w u)
    → IsInOrder t gave w
    → IsInOrder t (gave ++ given_step handler st t) u
Step-IsInOrder handler t gave w u (read_message s m ms r idle short handled e) h =
    subst (IsInOrder t _) (sym e) (record {
      lost = h.lost;
      parts = parts-read t s gave w.written h.lost w.to_send h.parts ms idle;
      few = h.few;
      unless_stopped = h.unless_stopped;
    })
Step-IsInOrder handler t gave w u (read_failed r e) h = subst (IsInOrder t _) (sym e) (record {
  lost = h.lost;
  parts = append-nil gave ∙ h.parts;
  few = h.few;
  unless_stopped = h.unless_stopped;
})
Step-IsInOrder handler t gave w u (write_message s r rest runs o head e) h =
    subst (IsInOrder t _) (sym e) (record {
      lost = [];
      parts =
          parts-write t s gave w.written h.lost w.to_send h.parts r rest head
            (h.unless_stopped runs);
      few = omega arith;
      unless_stopped = λ q. refl;
    })
Step-IsInOrder handler t gave w u (write_failed s r rest runs head e) h =
    subst (IsInOrder t _) (sym e) (record {
      lost = if t == s then r ∷ [] else [];
      parts =
          parts-lose t s gave w.written h.lost w.to_send h.parts r rest head
            (h.unless_stopped runs);
      few = ground arith;
      unless_stopped = λ q. absurd (stopped_runs q);
    })
Step-IsInOrder handler t gave w u (ping_failed runs e) h = subst (IsInOrder t _) (sym e) (record {
  lost = h.lost;
  parts = append-nil gave ∙ h.parts;
  few = h.few;
  unless_stopped = λ q. absurd (stopped_runs q);
})

-- On a connection from its beginning, what the handlers under one number have been given to send
-- is, in that order: what was written for it, at most one message lost and none while the writer
-- runs, and what is still to be sent.
pub PumpReach-IsInOrder :
    (handler : MessageHandler) (u : Pumps) (r : PumpReach handler opened u) (t : ℕ)
    → IsInOrder t (given handler r t) u
PumpReach-IsInOrder handler u here t = record {
  lost = [];
  parts = refl;
  few = omega arith;
  unless_stopped = λ q. refl;
}
PumpReach-IsInOrder handler u (next {u = w} r st) t =
    Step-IsInOrder handler t (given handler r t) w u st (PumpReach-IsInOrder handler w r t)
