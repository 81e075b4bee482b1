-- ===== src/Api/CreateVm/Checked.antt =====
-- What a creation that comes to its end has checked.
use matrisea.Common.{
  Str, Result, err, panic, Error, Bool, true, false, ◌≡◌, refl, ◌≤◌, List, [], ◌∷◌, ok, ◌≢◌, inl,
  inr, sym, ap, ◌∙◌, str_eq_iff, Action, ◌>>=◌, ◌>>◌, length, ltb, arith,
}
use matrisea.Common.Among.{Among}
use matrisea.Common.Steps.{bind-inv, bind-inv_next}
use matrisea.Go.Regexp.{is_device_name}
use matrisea.Go.Regexp.Language.{IsNamed, is_device_name_iff}
use matrisea.Vmm.Host.{Vmm, Host, World}
use matrisea.Vmm.List.{VmItem, vm_list}
use matrisea.Vmm.Start.{BootLog}
use matrisea.Api.Session.{
  CreateVmRequest, CreateVmStep, ErrorMsg, Session, send, ws_create_vm_complete_step,
  ws_create_vm_fail_step, stop, on_world, settled,
}
use matrisea.Api.CreateVm.{is_taken, fail_at, refuse_if, preflight, ws_create_vm}

other_names :
    (name : Str) (vms : List VmItem)
    → is_taken name vms ≡ false
    → (vm : VmItem) → Among vm vms
    → vm.name ≢ name
unfolding is_taken
other_names name [] h vm m = absurd m
other_names name (x ∷ vms) h vm (inl e) = λ p.
    let q : x.name ≡ name = ap (λ (y : VmItem). y.name) (sym e) ∙ p in
    ground (arith, str_eq_iff x.name name)
other_names name (x ∷ vms) h vm (inr m) = other_names name vms (ground arith) vm m

module _ (H : Host) where
  refuse_if-inv :
      (b : Bool) (step : CreateVmStep) (msg : Str) (s : Session H)
      → (refuse_if H b step msg s).0 ≡ ok tt
      → b ≡ false
  unfolding refuse_if fail_at stop send ws_create_vm_fail_step ◌>>=◌
  refuse_if-inv true step msg s h = absurd (cc)
  refuse_if-inv false step msg s h = refl

  refuse_first-inv :
      (b : Bool) (step : CreateVmStep) (msg : Str) (n : Action (Session H) (Unit {0}))
      (s : Session H)
      → ((refuse_if H b step msg >> n) s).0 ≡ ok tt
      → (b ≡ false) × ((t : Session H) × ((n t).0 ≡ ok tt))
  refuse_first-inv b step msg n s h =
      let (_, passed, e) = bind-inv (refuse_if H b step msg) (λ _. n) s tt h in
      (refuse_if-inv b step msg s passed, ((refuse_if H b step msg s).1, rw e at h))

  settled-inv :
      {A : Type 0} (r : Result A) (step : CreateVmStep) (msg : Error → ErrorMsg) (s : Session H)
      (a : A)
      → (settled r (λ e. fail_at H step (msg e)) s).0 ≡ ok a
      → r ≡ ok a
  unfolding fail_at stop send ws_create_vm_fail_step ◌>>=◌
  settled-inv (ok b) step msg s a h = h
  settled-inv (err e) step msg s a h = absurd (cc)
  settled-inv panic step msg s a h = absurd (cc)

  on_world-inv :
      {A : Type 0} (m : Action (World H) A) (step : CreateVmStep) (msg : Error → ErrorMsg)
      (s : Session H) (a : A)
      → (on_world m (λ e. fail_at H step (msg e)) s).0 ≡ ok a
      → (m s.world).0 ≡ ok a
  unfolding on_world
  on_world-inv m step msg s a h = settled-inv (m s.world).0 step msg _ a h

module _ (H : Host) (v : Vmm) (req : CreateVmRequest) where
  -- No VM that the manager lists in that world has the name.
  abbrev pub IsNew : World H → Type 0
  IsNew w =
      (vms : List VmItem) × ((vm_list H v w).0 ≡ ok vms)
      × ((vm : VmItem) → Among vm vms → vm.name ≢ req.device_name)

  preflight-inv :
      (s : Session H)
      → (preflight H v req s).0 ≡ ok tt
      → (is_device_name req.device_name ≡ true)
        × (ltb 20 (length req.device_name) ≡ false)
        × IsNew s.world
  unfolding preflight ws_create_vm_complete_step send
  preflight-inv s h =
      let (_, _, h1) = bind-inv_next _ _ s tt h in
      let (vms, listed, h2) = bind-inv_next _ _ _ tt h1 in
      let (new, (t, h3)) = refuse_first-inv H _ _ _ _ _ h2 in
      let (_, _, h4) = bind-inv_next _ _ t tt h3 in
      let (named, (u, h5)) = refuse_first-inv H _ _ _ _ _ h4 in
      (
        ground arith,
        refuse_if-inv H _ _ _ u h5,
        (vms, on_world-inv H _ _ _ _ vms listed, other_names req.device_name vms new),
      )

  -- When wsCreateVM comes to its end, the device's name is one or more bytes of the pattern's
  -- class, at most 20 bytes long, and different from the name of each VM in the list that the
  -- manager gave when the creation began.
  pub ws_create_vm-checked :
      (log : BootLog) (s : Session H)
      → (ws_create_vm H v req log s).0 ≡ ok tt
      → IsNamed [] req.device_name × (length req.device_name ≤ 20) × IsNew s.world
  unfolding ws_create_vm
  ws_create_vm-checked log s h =
      let (_, passed, _) = bind-inv_next _ _ s tt h in
      let (named, short, new) = preflight-inv s passed in
      ((is_device_name_iff req.device_name).0 named, ground arith, new)
