-- ===== src/Api/CreateVm/Checks.antt =====
-- The checks before a creation only ask.
use matrisea.Common.{
  Str, Bool, refl, ◌∙◌, ◌≡◌, not, List, [], ◌∷◌, Result, ok, err, panic, Error, Action,
}
use matrisea.Common.Keeps.{Keeps, Keeps-bind, Keeps-pure, Keeps-if}
use matrisea.Vmm.Host.{Vmm, Host, World}
use matrisea.Vmm.Frames.{IsBeside, Keeps-vm_list}
use matrisea.Api.Session.{
  CreateVmStep, CreateVmRequest, ErrorMsg, WebSocketResponse, Session, send, stop, settled,
  on_world, ws_create_vm_complete_step, ws_create_vm_fail_step,
}
use matrisea.Api.CreateVm.{fail_at, refuse_if, image_there, check_images, preflight}

module _ (H : Host) (v : Vmm) {V : Type 0} (view : World H → V) (B : IsBeside H view) where
  -- What the view shows of a session.
  abbrev seen : Session H → V
  seen s = view s.world

  Keeps-send : (r : WebSocketResponse) → Keeps seen (send {H = H} r)
  unfolding send
  Keeps-send r = record { same = λ s. refl }

  Keeps-stop : {A : Type 0} → Keeps seen (stop {H = H} {A = A})
  unfolding stop
  Keeps-stop = record { same = λ s. refl }

  Keeps-complete : (step : CreateVmStep) → Keeps seen (ws_create_vm_complete_step {H = H} step)
  unfolding ws_create_vm_complete_step
  Keeps-complete step = Keeps-send _

  Keeps-fail_at :
      {A : Type 0} (step : CreateVmStep) (msg : ErrorMsg) → Keeps seen (fail_at H {A = A} step msg)
  unfolding fail_at ws_create_vm_fail_step
  Keeps-fail_at step msg = Keeps-bind seen _ _ (Keeps-send _) (λ _. Keeps-stop)

  Keeps-refuse_if :
      (b : Bool) (step : CreateVmStep) (msg : Str) → Keeps seen (refuse_if H b step msg)
  unfolding refuse_if
  Keeps-refuse_if b step msg = Keeps-if seen b _ _ (Keeps-fail_at step _) (Keeps-pure seen tt)

  settled_same :
      {A : Type 0} (r : Result A) (h : Error → Action (Session H) A)
      → ((e : Error) → Keeps seen (h e))
      → (s : Session H) → seen (settled r h s).1 ≡ seen s
  settled_same (ok a) h k s = refl
  settled_same (err e) h k s = (k e).same s
  settled_same panic h k s = refl

  Keeps-on_world :
      {A : Type 0} (m : Action (World H) A) (h : Error → Action (Session H) A)
      → Keeps view m
      → ((e : Error) → Keeps seen (h e))
      → Keeps seen (on_world m h)
  unfolding on_world
  Keeps-on_world m h km kh = record {
    same = λ s. settled_same (m s.world).0 h kh _ ∙ km.same s.world;
  }

  Keeps-check_images : (images : List Str) → Keeps seen (check_images H images)
  unfolding check_images
  Keeps-check_images [] = Keeps-pure seen tt
  Keeps-check_images (img ∷ images) =
      Keeps-bind seen (image_there H img) _ (record { same = λ s. refl })
        (λ there.
          Keeps-bind seen _ _ (Keeps-refuse_if (not there) _ _) (λ _. Keeps-check_images images))

  pub Keeps-preflight : (req : CreateVmRequest) → Keeps seen (preflight H v req)
  unfolding preflight
  Keeps-preflight req = Keeps-bind seen _ _ (Keeps-complete _) (λ _.
      Keeps-bind seen _ _ (Keeps-on_world _ _ (Keeps-vm_list H v view B) (λ e. Keeps-fail_at _ _))
        (λ vms. Keeps-bind seen _ _ (Keeps-refuse_if _ _ _) (λ _.
          Keeps-bind seen _ _ (Keeps-check_images _)
            (λ _. Keeps-bind seen _ _ (Keeps-refuse_if _ _ _) (λ _. Keeps-refuse_if _ _ _)))))
