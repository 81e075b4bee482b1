-- ===== src/Api/Messages/Extends.antt =====
-- Actions that only add to the messages that have been sent, by a rule for each way to build one.
use mathlib.Core.List.{append-nil, append_assoc}
use matrisea.Common.{
  Str, Bool, true, false, not, ◌≡◌, refl, sym, ◌∙◌, ap, List, [], ◌∷◌, ◌++◌, Result, ok, err, panic,
  Error, Action, continue, ◌>>=◌, pure, if◌then◌else◌, inl, inr, ◌⊎◌,
}
use matrisea.Vmm.Host.{Vmm, Host, World}
use matrisea.Vmm.Start.{BootLog, vm_start}
use matrisea.Api.Session.{
  CreateVmStep, CreateVmRequest, ErrorMsg, WebSocketResponse, Session, send, stop, settled,
  on_world, ws_create_vm_complete_step, ws_create_vm_fail_step, ws_create_vm_log,
}
use matrisea.Api.CreateVm.{
  fail_at, refuse_if, image_there, check_images, log_lines, preflight, create_device, load_images,
  start_device,
}

module _ {H : Host} where
  pub record Extends {A : Type 0} (m : Action (Session H) A) : Type 0 where
    pub run : (s : Session H) → (more : List WebSocketResponse) × ((m s).1.sent ≡ s.sent ++ more)

module _ (H : Host) where
  pub Extends-pure : {A : Type 0} (a : A) → Extends {H = H} (pure a)
  Extends-pure a = record { run = λ s. ([], sym (append-nil s.sent)) }

  pub Extends-send : (r : WebSocketResponse) → Extends {H = H} (send r)
  unfolding send
  Extends-send r = record { run = λ s. (r ∷ [], refl) }

  pub Extends-stop : {A : Type 0} → Extends {H = H} (stop {A = A})
  unfolding stop
  Extends-stop = record { run = λ s. ([], sym (append-nil s.sent)) }

  pub Extends-if :
      {A : Type 0} (b : Bool) (m n : Action (Session H) A)
      → Extends m
      → Extends n
      → Extends (if b then m else n)
  Extends-if true m n hm hn = hm
  Extends-if false m n hm hn = hn

  settled-more :
      {A : Type 0} (r : Result A) (h : Error → Action (Session H) A)
      → ((e : Error) → Extends (h e))
      → Extends (settled r h)
  settled-more (ok a) h dh = record { run = λ s. ([], sym (append-nil s.sent)) }
  settled-more (err e) h dh = dh e
  settled-more panic h dh = record { run = λ s. ([], sym (append-nil s.sent)) }

  pub Extends-on_world :
      {A : Type 0} (m : Action (World H) A) (h : Error → Action (Session H) A)
      → ((e : Error) → Extends (h e))
      → Extends (on_world m h)
  unfolding on_world
  Extends-on_world m h dh = record {
    run = λ s. (settled-more (m s.world).0 h dh).run (record s { world = (m s.world).1 });
  }

  continue-more :
      {A B : Type 0} (r : Result A) (f : A → Action (Session H) B)
      → ((a : A) → Extends (f a))
      → Extends (continue r f)
  continue-more (ok a) f df = df a
  continue-more (err e) f df = record { run = λ s. ([], sym (append-nil s.sent)) }
  continue-more panic f df = record { run = λ s. ([], sym (append-nil s.sent)) }

  pub Extends-bind :
      {A B : Type 0} (m : Action (Session H) A) (f : A → Action (Session H) B)
      → Extends m
      → ((a : A) → Extends (f a))
      → Extends (m >>= f)
  unfolding ◌>>=◌
  Extends-bind m f dm df = record {
    run = λ s.
        let (first, e) = dm.run s in
        let (rest, e') = (continue-more (m s).0 f df).run (m s).1 in
        (
          first ++ rest,
          e' ∙ ap (λ (l : List WebSocketResponse). l ++ rest) e ∙ append_assoc s.sent first rest,
        );
  }

  -- An action that says something, but for the worlds that are excepted.
  pub record Answers {A : Type 0} (Excepted : World H → Type 0) (m : Action (Session H) A)
      : Type 0 where
    pub run :
        (s : Session H)
        → Excepted s.world
          ⊎ ((r : WebSocketResponse) × (more : List WebSocketResponse) × ((m s).1.sent
                ≡ s.sent ++ (r ∷ more)))

  pub Answers-send : (E : World H → Type 0) (r : WebSocketResponse) → Answers E (send r)
  unfolding send
  Answers-send E r = record { run = λ s. inr (r, [], refl) }

  -- What begins with an answer, whatever comes then.
  pub Answers-first :
      {A B : Type 0} (E : World H → Type 0) (m : Action (Session H) A)
      (f : A → Action (Session H) B)
      → Answers E m
      → ((a : A) → Extends (f a))
      → Answers E (m >>= f)
  unfolding ◌>>=◌
  Answers-first E m f dm df = record {
    run = λ s. elim (dm.run s) [
      | inl excepted ↦ inl excepted
      | inr (r, first, e) ↦
          let (rest, e') = (continue-more (m s).0 f df).run (m s).1 in
          inr (
            r,
            first ++ rest,
            e'
                ∙ ap (λ (l : List WebSocketResponse). l ++ rest) e
                ∙ append_assoc s.sent (r ∷ first) rest,
          )
    ];
  }

pub ruleset extends =
    (Extends-pure, Extends-send, Extends-stop, Extends-if, Extends-on_world, Extends-bind)

module _ (H : Host) where
  pub Extends-fail_at :
      {A : Type 0} (step : CreateVmStep) (msg : ErrorMsg)
      → Extends {H = H} (fail_at H {A = A} step msg)
  unfolding fail_at ws_create_vm_fail_step
  Extends-fail_at step msg = search extends

  pub Extends-refuse_if :
      (b : Bool) (step : CreateVmStep) (msg : Str) → Extends {H = H} (refuse_if H b step msg)
  unfolding refuse_if
  Extends-refuse_if b step msg = search (extends, Extends-fail_at)

  pub Extends-complete : (step : CreateVmStep) → Extends {H = H} (ws_create_vm_complete_step step)
  unfolding ws_create_vm_complete_step
  Extends-complete step = search extends

  pub Extends-log : (l : Str) → Extends {H = H} (ws_create_vm_log l)
  unfolding ws_create_vm_log
  Extends-log l = search extends

  pub Extends-image_there : (img : Str) → Extends {H = H} (image_there H img)
  Extends-image_there img = record { run = λ s. ([], sym (append-nil s.sent)) }

  pub Extends-check_images : (images : List Str) → Extends {H = H} (check_images H images)
  unfolding check_images
  Extends-check_images [] = search extends
  Extends-check_images (img ∷ images) =
      Extends-bind H (image_there H img) _ (Extends-image_there img) λ there.
        Extends-bind H _ _ (Extends-refuse_if (not there) _ _) (λ _. Extends-check_images images)

  pub Extends-log_lines : (ls : List Str) → Extends {H = H} (log_lines H ls)
  unfolding log_lines
  Extends-log_lines [] = search extends
  Extends-log_lines (l ∷ ls) =
      Extends-bind H (ws_create_vm_log l) _ (Extends-log l) (λ _. Extends-log_lines ls)

pub ruleset creation = (
  Extends-pure, Extends-on_world, Extends-bind, Extends-fail_at, Extends-refuse_if,
  Extends-complete, Extends-log, Extends-check_images, Extends-log_lines,
)

module _ (H : Host) (v : Vmm) where
  pub Extends-preflight : (req : CreateVmRequest) → Extends {H = H} (preflight H v req)
  unfolding preflight
  Extends-preflight req = search creation depth 12

  pub Extends-create_device : (req : CreateVmRequest) → Extends {H = H} (create_device H v req)
  unfolding create_device
  Extends-create_device req = search creation depth 12

  pub Extends-load_images :
      (req : CreateVmRequest) (name : Str) → Extends {H = H} (load_images H v req name)
  unfolding load_images
  Extends-load_images req name = search creation depth 16

  pub Extends-start_device :
      (name : Str) (log : BootLog) → Extends {H = H} (start_device H v name log)
  unfolding start_device
  Extends-start_device name log = record {
    run = λ s.
        let started = vm_start H v name false log s.world in
        let (first, e) =
          (Extends-bind H (log_lines H started.called_back) _ (Extends-log_lines H _)
              (λ _. search creation)).run
            s in
        let (rest, e') = (Extends-log_lines H started.late).run _ in
        (
          first ++ rest,
          e' ∙ ap (λ (l : List WebSocketResponse). l ++ rest) e ∙ append_assoc s.sent first rest,
        );
  }
