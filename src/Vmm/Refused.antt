-- ===== src/Vmm/Refused.antt =====
-- The manager's methods on a name that is not one of its containers'.
use matrisea.Common.{
  Str, text, Bool, ◌≡◌, none, List, ok, err, Error, message, wrapped, Action, ◌>>=◌, refl, arith,
}
use matrisea.Common.Among.{Among}
use matrisea.Common.Steps.{bind-eq_err}
use matrisea.Docker.{Container}
use matrisea.Vmm.Host.{Vmm, Host, World}
use matrisea.Vmm.Find.{
  managed, find_id, list_cuttlefish_containers, get_container_id_by_name, is_managed_container,
  is_managed_running_container,
}
use matrisea.Vmm.Find.First.{HasName, find_id-none}
use matrisea.Vmm.Exec.{
  vm_pre_boot_setup, container_kill_process, container_kill_terminal, container_attach_to_process,
  container_attach_to_terminal, vm_install_apk,
}
use matrisea.Vmm.Remove.{vm_remove}
use matrisea.Vmm.Start.{BootLog, vm_launch, vm_start, vm_stop}
use matrisea.Vmm.Transfer.{
  vm_load_file, vm_unzip_image, container_list_files, container_read_file, container_update_config,
}

-- The call returns the error and changes nothing.
abbrev pub Refuses : {S A : Type 0} → S → Error → Action S A → Type 0
Refuses s e m = m s ≡ (err e, s)

abbrev pub not_found : Error
not_found = wrapped (text "invalid contaienr name") (message (text "container not found"))

module _ (H : Host) (v : Vmm) (name : Str) (w : World H) where
  -- Every method that acts on a container refuses the name.
  pub record RefusesAll (e : Error) : Type 0 where
    pub starts :
        (is_async : Bool) (log : BootLog)
        → Refuses w e (λ u. (vm_start H v name is_async log u).returned)
    pub stops : Refuses w e (vm_stop H v name)
    pub removes : Refuses w e (vm_remove H v name)
    pub sets_up : Refuses w e (vm_pre_boot_setup H v name)
    pub loads : (src_path : Str) → Refuses w e (vm_load_file H v name src_path)
    pub unzips : (image_file : Str) → Refuses w e (vm_unzip_image H v name image_file)
    pub installs : (apk_file : Str) → Refuses w e (vm_install_apk H v name apk_file)
    pub attaches : (cmd env : List Str) → Refuses w e (container_attach_to_process H v name cmd env)
    pub opens_terminal : Refuses w e (container_attach_to_terminal H v name)
    pub kills : (cmd : Str) → Refuses w e (container_kill_process H v name cmd)
    pub kills_terminal : Refuses w e (container_kill_terminal H v name)
    pub lists : (folder : Str) → Refuses w e (container_list_files H v name folder)
    pub reads : (file_path : Str) → Refuses w e (container_read_file H v name file_path)
    pub configures : (key value : Str) → Refuses w e (container_update_config H v name key value)

  guard-Refuses :
      (cs ms : List Container)
      → H.engine.container_list w.engine ≡ (ok cs, w.engine)
      → managed v cs ≡ ok ms
      → find_id v name ms ≡ none
      → Refuses w not_found (is_managed_container H v name)
  unfolding is_managed_container get_container_id_by_name list_cuttlefish_containers ◌>>=◌
  guard-Refuses cs ms listed kept missing = ground arith

  running_guard-Refuses :
      Refuses w not_found (is_managed_container H v name)
      → Refuses w not_found (is_managed_running_container H v name)
  unfolding is_managed_running_container
  running_guard-Refuses g = bind-eq_err (is_managed_container H v name) _ w w not_found g

  -- A call that begins with a guard that refuses.
  after_guard :
      {A B : Type 0} (guard : Action (World H) A) (f : A → Action (World H) B)
      → Refuses w not_found guard
      → Refuses w not_found (guard >>= f)
  after_guard guard f g = bind-eq_err guard f w w not_found g

  vm_start-Refuses :
      (is_async : Bool) (log : BootLog)
      → Refuses w not_found (vm_launch H v name)
      → Refuses w not_found (λ u. (vm_start H v name is_async log u).returned)
  unfolding vm_start
  vm_start-Refuses is_async log h = rw h refl

  -- Where the engine lists no managed container with a name that holds the given one, VMStart,
  -- VMStop, VMRemove, VMPreBootSetup, VMLoadFile, VMUnzipImage, VMInstallAPK, and the calls that
  -- attach to or kill a process or a terminal, that list or read files, and that change the
  -- configuration, all return an error and change nothing.
  pub vmm-RefusesAll :
      (cs ms : List Container)
      → H.engine.container_list w.engine ≡ (ok cs, w.engine)
      → managed v cs ≡ ok ms
      → ((c : Container) → Among c ms → ¬ HasName v name c)
      → RefusesAll not_found
  unfolding vm_launch vm_stop vm_remove vm_pre_boot_setup vm_load_file vm_unzip_image vm_install_apk
      container_attach_to_process container_attach_to_terminal container_kill_process
      container_kill_terminal container_list_files container_read_file container_update_config
  vmm-RefusesAll cs ms listed kept foreign =
      let g = guard-Refuses cs ms listed kept (find_id-none v name ms foreign) in
      let r = running_guard-Refuses g in
      record {
        starts = λ is_async log. vm_start-Refuses is_async log (after_guard _ _ r);
        stops = after_guard _ _ r;
        removes = after_guard _ _ g;
        sets_up = after_guard _ _ r;
        loads = λ src_path. after_guard _ _ r;
        unzips = λ image_file. after_guard _ _ r;
        installs = λ apk_file. after_guard _ _ r;
        attaches = λ cmd env. after_guard _ _ r;
        opens_terminal = after_guard _ _ r;
        kills = λ cmd. after_guard _ _ r;
        kills_terminal = after_guard _ _ r;
        lists = λ folder. after_guard _ _ r;
        reads = λ file_path. after_guard _ _ r;
        configures = λ key value. after_guard _ _ r;
      }
