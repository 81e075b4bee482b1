-- ===== src/Vmm/Sheriff/Measured.antt =====
-- Whose volume `diskSheriff` looks at.
use matrisea.Common.{
  ◌<◌, Str, text, true, false, Bool, ◌≡◌, refl, ap, ◌∙◌, Option, some, List, [], ◌∷◌, ◌++◌, Result,
  ok, err, panic, Action, ◌>>=◌, pure, catch, handle, if◌then◌else◌, str_eq, str_eq_refl,
}
use matrisea.Common.Among.{Among}
use matrisea.Common.Int.{ℤ, pos, pos_part}
use matrisea.Common.Keeps.{Keeps-after, Keeps-lift}
use matrisea.Common.Steps.{bind-eq, wrap-eq}
use matrisea.Go.Strings.{has_prefix}
use matrisea.Docker.{Container, ContainerJson, ExecConfig, StrMap, lookup}
use matrisea.Vmm.Host.{Vmm, Host, World, on_engine, home_dir}
use matrisea.Vmm.Find.{
  name_prefix, managed, find_id, get_container_json, is_managed_running_container,
}
use matrisea.Vmm.Find.Managed.{docker_name, find_id-longer_name}
use matrisea.Vmm.Find.Guards.{get_container_id_by_name-eq, is_managed_container-eq}
use matrisea.Vmm.List.{running, get_vm_status}
use matrisea.Vmm.Remove.{first_name}
use matrisea.Vmm.Start.{vm_stop}
use matrisea.Vmm.Sheriff.Volume.{limit, exceeds_limit-over, home_volume-mounted}
use matrisea.Vmm.Sheriff.{
  home_volume, found_size, is_running, get_container_home_dir_usage, inspect_usage,
}

-- The process that stops a VM.
abbrev pub stop_cvd : ExecConfig
stop_cvd = record {
  user = text "vsoc-01";
  attach_stdin = true;
  cmd = (home_dir ++ text "/bin/stop_cvd") ∷ [];
  tty = true;
  env = [];
}

module _ (H : Host) (v : Vmm) (w : World H) where
  -- The size is that of the container that `find_id` finds.
  pub get_container_home_dir_usage-eq :
      (name id : Str) (cs ms : List Container) (json : ContainerJson) (volumes : StrMap ℤ)
      → H.engine.container_list w.engine ≡ (ok cs, w.engine)
      → managed v cs ≡ ok ms
      → find_id v name ms ≡ some id
      → H.engine.container_inspect id w.engine ≡ (ok json, w.engine)
      → H.engine.disk_usage w.engine ≡ (ok volumes, w.engine)
      → get_container_home_dir_usage H v name w
        ≡ (found_size name (home_volume volumes json.mounts), w)
  unfolding get_container_home_dir_usage
  get_container_home_dir_usage-eq name id cs ms json volumes listed kept found inspected used =
      let called : get_container_json H v name w ≡ (ok json, w) =
        unfold get_container_json in
        (bind-eq _ _ w w id (get_container_id_by_name-eq H v w cs ms name id listed kept found)
          ∙ ap (λ (o : Result ContainerJson × H.engine.State). (o.0, record w { engine = o.1 }))
              inspected) in
      bind-eq (on_engine H H.engine.disk_usage) _ w w volumes
        (ap (λ (o : Result (StrMap ℤ) × H.engine.State). (o.0, record w { engine = o.1 })) used)
      ∙ bind-eq _ _ w w json called

module _ (H : Host) (v : Vmm) where
  handled_state : (r : Result (Unit {0})) (w : World H) → (handle r (λ e. pure tt) w).1 ≡ w
  handled_state (ok a) w = refl
  handled_state (err e) w = refl
  handled_state panic w = refl

  -- An attempt to stop the VM leaves what VMStop has left.
  caught_state :
      (m : Action (World H) (Unit {0})) (w : World H) → (catch m (λ e. pure tt) w).1 ≡ (m w).1
  unfolding catch
  caught_state m w = handled_state (m w).0 (m w).1

  -- Where the guard passes and the process has been prepared, it is run.
  stopped_state :
      (name id : Str) (u : World H) (t : H.engine.State)
      → is_managed_running_container H v name u ≡ (ok tt, u)
      → H.engine.exec_create name stop_cvd u.engine ≡ (ok id, t)
      → (vm_stop H v name u).1 ≡ record u { engine = (H.engine.exec_attach id true t).1 }
  unfolding vm_stop
  stopped_state name id u t guard prepared =
      let x : World H = record u { engine = t } in
      ap (λ (o : Result (Unit {0}) × World H). o.1)
        (bind-eq _ _ u u tt guard
          ∙ bind-eq _ _ u x id (
              wrap-eq _ (on_engine H (H.engine.exec_create name stop_cvd)) u x id (
                ap (λ (o : Result Str × H.engine.State). (o.0, record u { engine = o.1 }))
                  prepared)))
      ∙ Keeps-after (λ (y : World H). y) _ _ (λ stream. Keeps-lift (λ (y : World H). y) _) x

  -- A running device for which the search finds a running container over the limit is stopped.
  inspect_usage-over :
      (name id : Str) (c d : Container) (cs ms : List Container) (json : ContainerJson)
      (before others : StrMap Str) (volume : Str) (volumes : StrMap ℤ) (size : ℤ) (w u : World H)
      (t : H.engine.State)
      → first_name d.names ≡ ok name
      → get_vm_status H d w ≡ (ok running, u)
      → H.engine.container_list u.engine ≡ (ok cs, u.engine)
      → managed v cs ≡ ok ms
      → find_id v name ms ≡ some c.id
      → H.engine.container_inspect c.id u.engine ≡ (ok json, u.engine)
      → has_prefix json.name (name_prefix v) ≡ true
      → json.state_status ≡ text "running"
      → H.engine.disk_usage u.engine ≡ (ok volumes, u.engine)
      → json.mounts ≡ before ++ ((home_dir, volume) ∷ others)
      → ((m : Str × Str) → Among m before → str_eq m.0 home_dir ≡ false)
      → lookup volume volumes ≡ some size
      → limit < pos_part size
      → H.engine.exec_create name stop_cvd u.engine ≡ (ok id, t)
      → (inspect_usage H v d w).1 ≡ record u { engine = (H.engine.exec_attach id true t).1 }
  unfolding inspect_usage
  inspect_usage-over name id c d cs ms json before others volume volumes size w u t called up listed
        kept found inspected prefixed runs used mounts first sized over prepared =
      let usage : get_container_home_dir_usage H v name u ≡ (ok size, u) =
        get_container_home_dir_usage-eq H v u name c.id cs ms json volumes listed kept found
          inspected used
        ∙ ap (λ (o : Option ℤ). (found_size name o, u))
            (ap (home_volume volumes) mounts
              ∙ home_volume-mounted volumes before others volume size first sized) in
      let guard : is_managed_running_container H v name u ≡ (ok tt, u) =
        unfold is_managed_running_container in
        (bind-eq _ _ u u json (
            is_managed_container-eq H v u cs ms name c.id json listed kept found inspected prefixed)
          ∙ rw runs (rw (str_eq_refl (text "running")) refl)) in
      let asked : catch (get_vm_status H d >>= λ s. pure (is_running s)) (λ e. pure false) w
          ≡ (ok true, u) =
        unfold catch ◌>>=◌ in rw up refl in
      let measured : catch (get_container_home_dir_usage H v name) (λ e. pure (pos 0)) u
          ≡ (ok size, u) =
        unfold catch in rw usage refl in
      ap (λ (o : Result (Unit {0}) × World H). o.1)
        (bind-eq _ _ w w name (λ i. (called i, w))
          ∙ (bind-eq _ _ w u true asked
              ∙ (bind-eq _ _ u u size measured
                  ∙ ap
                      (λ (b : Bool).
                        (if b then catch (vm_stop H v name) (λ e. pure tt) else pure tt) u)
                      (exceeds_limit-over size over))))
      ∙ (caught_state (vm_stop H v name) u ∙ stopped_state name id u t guard prepared)

  -- If the first managed container that the engine lists has a longer name that begins with the
  -- name of a running device, and is running, and the first volume mounted at its home folder is
  -- over the limit, then diskSheriff, on an engine that is not changed by its queries and that
  -- accepts the process, runs stop_cvd in the container of the shorter name, whatever its own
  -- volume holds, and does nothing more to the device.
  pub inspect_usage_takes_longer :
      (device more id : Str) (cs after : List Container) (c d : Container) (json : ContainerJson)
      (before others : StrMap Str) (volume : Str) (volumes : StrMap ℤ) (size : ℤ) (w u : World H)
      (t : H.engine.State)
      → first_name d.names ≡ ok (v.cf_prefix ++ device)
      → get_vm_status H d w ≡ (ok running, u)
      → H.engine.container_list u.engine ≡ (ok cs, u.engine)
      → managed v cs ≡ ok (c ∷ after)
      → c.names ≡ docker_name (v.cf_prefix ++ (device ++ more)) ∷ []
      → H.engine.container_inspect c.id u.engine ≡ (ok json, u.engine)
      → has_prefix json.name (name_prefix v) ≡ true
      → json.state_status ≡ text "running"
      → H.engine.disk_usage u.engine ≡ (ok volumes, u.engine)
      → json.mounts ≡ before ++ ((home_dir, volume) ∷ others)
      → ((m : Str × Str) → Among m before → str_eq m.0 home_dir ≡ false)
      → lookup volume volumes ≡ some size
      → limit < pos_part size
      → H.engine.exec_create (v.cf_prefix ++ device) stop_cvd u.engine ≡ (ok id, t)
      → (inspect_usage H v d w).1 ≡ record u { engine = (H.engine.exec_attach id true t).1 }
  inspect_usage_takes_longer device more id cs after c d json before others volume volumes size w u
        t called up listed kept named =
      inspect_usage-over (v.cf_prefix ++ device) id c d cs (c ∷ after) json before others volume
        volumes size w u t called up listed kept (find_id-longer_name v device more c after named)
