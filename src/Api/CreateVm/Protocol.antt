-- ===== src/Api/CreateVm/Protocol.antt =====
-- What a client sees of a creation: the messages follow one protocol, whatever the manager does.
use matrisea.Common.{
  Str, Bool, true, false, ◌≡◌, ◌⊎◌, List, [], ◌∷◌, ◌++◌, Result, ok, err, panic, Error, Action,
  continue, ◌>>=◌, pure, if◌then◌else◌,
}
use mathlib.Core.List.{foldl, foldl-append}
use matrisea.Vmm.Host.{Host, World}
use matrisea.Api.Session.{
  CreateVmStep, step_start, step_preflight_checks, step_create_vm, step_load_images, step_start_vm,
  WsMessageType, type_create_vm, type_create_vm_log, ResponseBody, create_vm_response,
  create_vm_log_response, WebSocketResponse, ErrorMsg, Session, send, stop, settled, on_world,
  ws_create_vm_complete_step, ws_create_vm_fail_step, ws_create_vm_log,
}
use matrisea.Api.CreateVm.{fail_at}

-- A message, as the client tells them apart.
pub data Kind : Type 0 where
  completes fails : CreateVmStep → Kind
  logs other : Kind

abbrev pub kind_of : WsMessageType → ResponseBody → Bool → Kind
kind_of type_create_vm (create_vm_response step) true = fails step
kind_of type_create_vm (create_vm_response step) false = completes step
kind_of type_create_vm_log (create_vm_log_response l) false = logs
kind_of _ _ _ = other

-- How far a creation has come.
pub data Phase : Type 0 where
  begun started creating created loaded finished refused failed invalid : Phase

-- The protocol: the beginning, the device's creation, the loading of the images and the start complete
-- in this order. Log lines come from the creation of the device on, and behind the first one the checks
-- cannot fail any more. One failure, at the step that is under way, ends it; only log lines may come
-- after the end, and none behind a failure of the checks.
abbrev pub advance : Phase → Kind → Phase
advance begun (completes step_start) = started
advance started logs = creating
advance started (fails step_preflight_checks) = refused
advance started (fails step_create_vm) = failed
advance creating logs = creating
advance creating (completes step_create_vm) = created
advance creating (fails step_create_vm) = failed
advance created logs = created
advance created (completes step_load_images) = loaded
advance created (fails step_load_images) = failed
advance loaded logs = loaded
advance loaded (completes step_start_vm) = finished
advance loaded (fails step_start_vm) = failed
advance finished logs = finished
advance failed logs = failed
advance _ _ = invalid

abbrev pub advance_by : Phase → WebSocketResponse → Phase
advance_by p r = advance p (kind_of r.type r.body r.has_error)

abbrev pub phase_after : Phase → List WebSocketResponse → Phase
phase_after = foldl advance_by

-- The phase after an action that began in another: the one of its end, or one of those of its early
-- returns.
abbrev pub Reaches : {A : Type 0} → (Phase → Type 0) → Phase → Result A → Phase → Type 0
Reaches F q (ok a) p = p ≡ q
Reaches F q (err e) p = F p
Reaches F q panic p = Unit

-- A failure of a step behind the checks, and any.
abbrev pub HasFailed : Phase → Type 0
HasFailed p = p ≡ failed

abbrev pub HasStopped : Phase → Type 0
HasStopped p = (p ≡ failed) ⊎ (p ≡ refused)

module _ {H : Host} where
  pub record Drives (F : Phase → Type 0) {A : Type 0} (p q : Phase) (m : Action (Session H) A)
      : Type 0 where
    pub run :
        (s : Session H)
        → phase_after begun s.sent ≡ p
        → Reaches F q (m s).0 (phase_after begun (m s).1.sent)

pub phase-send :
    (s : List WebSocketResponse) (r : WebSocketResponse)
    → phase_after begun (s ++ (r ∷ [])) ≡ advance_by (phase_after begun s) r
phase-send s r = rw foldl-append

module _ (H : Host) (F : Phase → Type 0) where
  pub Drives-pure : {A : Type 0} (p : Phase) (a : A) → Drives {H = H} F p p (pure a)
  Drives-pure p a = record { run = λ s h. h }

  -- A failure is reported, and the handler returns.
  pub Drives-fail_at :
      {A : Type 0} (p q : Phase) (step : CreateVmStep) (msg : ErrorMsg)
      → F (advance p (fails step))
      → Drives F p q (fail_at H {A = A} step msg)
  unfolding fail_at ws_create_vm_fail_step send stop ◌>>=◌
  Drives-fail_at p q step msg h = record { run = λ s e. rw phase-send (rw e h) }

  pub Drives-complete :
      (p q : Phase) (step : CreateVmStep)
      → advance p (completes step) ≡ q
      → Drives {H = H} F p q (ws_create_vm_complete_step step)
  unfolding ws_create_vm_complete_step send
  Drives-complete p q step h = record { run = λ s e. rw phase-send (rw e h) }

  pub Drives-log :
      (p q : Phase) (l : Str) → advance p logs ≡ q → Drives {H = H} F p q (ws_create_vm_log l)
  unfolding ws_create_vm_log send
  Drives-log p q l h = record { run = λ s e. rw phase-send (rw e h) }

  pub Drives-if :
      {A : Type 0} (p q : Phase) (b : Bool) (m n : Action (Session H) A)
      → Drives F p q m
      → Drives F p q n
      → Drives F p q (if b then m else n)
  Drives-if p q true m n hm hn = hm
  Drives-if p q false m n hm hn = hn

  -- A call of the manager sends nothing itself.
  settle_run :
      {A : Type 0} (p : Phase) (r : Result A) (h : Error → Action (Session H) A)
      → ((e : Error) → Drives F p p (h e))
      → (s : Session H) → phase_after begun s.sent ≡ p
      → Reaches F p (settled r h s).0 (phase_after begun (settled r h s).1.sent)
  settle_run p (ok a) h dh s e = e
  settle_run p (err x) h dh s e = (dh x).run s e
  settle_run p panic h dh s e = tt

  pub Drives-on_world :
      {A : Type 0} (p : Phase) (m : Action (World H) A) (h : Error → Action (Session H) A)
      → ((e : Error) → Drives F p p (h e))
      → Drives F p p (on_world m h)
  unfolding on_world
  Drives-on_world p m h dh = record {
    run = λ s e. settle_run p (m s.world).0 h dh (record s { world = (m s.world).1 }) e;
  }

  continue_run :
      {A B : Type 0} (q r : Phase) (x : Result A) (f : A → Action (Session H) B)
      → ((a : A) → Drives F q r (f a))
      → (s : Session H) → Reaches F q x (phase_after begun s.sent)
      → Reaches F r (continue x f s).0 (phase_after begun (continue x f s).1.sent)
  continue_run q r (ok a) f df s e = (df a).run s e
  continue_run q r (err x) f df s e = e
  continue_run q r panic f df s e = tt

  pub Drives-bind :
      {A B : Type 0} (p q r : Phase) (m : Action (Session H) A) (f : A → Action (Session H) B)
      → Drives F p q m
      → ((a : A) → Drives F q r (f a))
      → Drives F p r (m >>= f)
  unfolding ◌>>=◌
  Drives-bind p q r m f dm df = record {
    run = λ s e. continue_run q r (m s).0 f df (m s).1 (dm.run s e);
  }
