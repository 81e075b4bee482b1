-- ===== src/Vmm/Sheriff/Spares.antt =====
-- Whom the rounds of `diskSheriff` leave alone.
use matrisea.Common.{
  ℕ, zero, suc, ◌≤◌, Str, text, Bool, false, ◌≡◌, refl, ap, ◌∙◌, Option, none, some, List, [], ◌∷◌,
  ◌++◌, ok, Action, ◌>>=◌, pure, catch, arith, inl, inr, if◌then◌else◌,
}
use matrisea.Common.Among.{Among}
use matrisea.Common.Int.{ℤ, pos, pos_part}
use matrisea.Common.Preserves.{
  Preserves, Preserves-bind, Preserves-catch, Preserves-pure, Preserves-lift, Preserves-wrap,
  Preserves-attempt, Preserves-if, Preserves-two,
}
use matrisea.Common.Steps.{bind-eq, wrap-inv}
use matrisea.Docker.{Container, ContainerJson, Engine, ExecConfig, StrMap}
use matrisea.Vmm.Host.{Vmm, Host, World, on_engine, home_dir}
use matrisea.Vmm.Find.{managed}
use matrisea.Vmm.Find.First.{HasName, find_id-alone}
use matrisea.Vmm.Find.Managed.{docker_name}
use matrisea.Vmm.Find.Guards.{list_cuttlefish_containers-caught}
use matrisea.Vmm.Exec.{container_exec}
use matrisea.Vmm.List.{late_answer, get_vm_status}
use matrisea.Vmm.Start.{vm_stop}
use matrisea.Vmm.Sheriff.{
  home_volume, found_size, exceeds_limit, is_running, get_container_home_dir_usage, inspect_usage,
  inspect_each, disk_sheriff_round, disk_sheriff,
}
use matrisea.Vmm.Sheriff.Volume.{
  HasName-own, first_name-own, limit, exceeds_limit-within, home_volume-inv,
}
use matrisea.Vmm.Sheriff.Measured.{get_container_home_dir_usage-eq}

-- The process that lists the processes of a container.
abbrev pub ps : ExecConfig
ps = record {
  user = text "vsoc-01";
  attach_stdin = false;
  cmd = text "/bin/sh" ∷ text "-c" ∷ text "ps aux|grep \"[l]aunch_cvd\"" ∷ [];
  tty = false;
  env = [];
}

-- States of the engine in which it has the same managed containers, mounts and volumes: its queries
-- answer with them and change nothing, and to list the processes of a container leads to another such
-- state.
pub record AreSteady (E : Engine) (v : Vmm) (cs ms : List Container)
    (json_of : Container → ContainerJson) (volumes : StrMap ℤ) (Holds : E.State → Type 0)
    : Type 0 where
  pub manages : managed v cs ≡ ok ms
  pub lists : (s : E.State) → Holds s → E.container_list s ≡ (ok cs, s)
  pub measures : (s : E.State) → Holds s → E.disk_usage s ≡ (ok volumes, s)
  pub inspects :
      (s : E.State) (c : Container)
      → Holds s
      → Among c ms
      → E.container_inspect c.id s ≡ (ok (json_of c), s)
  pub prepares : (s : E.State) (name : Str) → Holds s → Holds (E.exec_create name ps s).1
  pub runs :
      (s : E.State) (name id : Str)
      → Holds s
      → (E.exec_create name ps s).0 ≡ ok id
      → Holds (E.exec_attach id false (E.exec_create name ps s).1).1
  pub finishes : (s : E.State) (id : Str) → Holds s → Holds (E.exec_inspect id s).1

-- A container with one name, that of a device, which no other managed container's name holds; and
-- each volume that is mounted at the home folder is within the limit.
pub record IsSmall (v : Vmm) (ms : List Container) (json : ContainerJson) (volumes : StrMap ℤ)
    (c : Container) : Type 0 where
  pub device : Str
  pub names : c.names ≡ docker_name (v.cf_prefix ++ device) ∷ []
  pub alone : (d : Container) → Among d ms → HasName v (v.cf_prefix ++ device) d → d ≡ c
  pub within :
      (volume : Str) (size : ℤ)
      → Among (home_dir, volume) json.mounts
      → Among (volume, size) volumes
      → pos_part size ≤ limit

module _ (H : Host) (v : Vmm) (cs ms : List Container) (json_of : Container → ContainerJson)
    (volumes : StrMap ℤ) (Holds : H.engine.State → Type 0) (db : H.database.Db)
    (files : H.files.State) where
  -- A steady engine beside the database and the files of the beginning.
  abbrev pub IsAsBefore : World H → Type 0
  IsAsBefore w = Holds w.engine × (w.db ≡ db) × (w.files ≡ files)

  module _ (S : AreSteady H.engine v cs ms json_of volumes Holds) where
    Preserves-on_engine :
        {A : Type 0} (m : Action H.engine.State A)
        → ((s : H.engine.State) → Holds s → Holds (m s).1)
        → Preserves IsAsBefore (on_engine H m)
    Preserves-on_engine m h = record {
      after = λ w (holds, same_db, same_files). (h w.engine holds, same_db, same_files);
    }

    Preserves-ps :
        (name : Str)
        → Preserves IsAsBefore
            (container_exec H name (text "ps aux|grep \"[l]aunch_cvd\"") (text "vsoc-01"))
    unfolding container_exec
    Preserves-ps name =
        Preserves-two IsAsBefore _ _ _
          (Preserves-wrap IsAsBefore _ _
            (Preserves-on_engine (H.engine.exec_create name ps) (λ s h. S.prepares s name h)))
          (λ w id (holds, same_db, same_files) e. (
            S.runs w.engine name id holds
                (wrap-inv _ (on_engine H (H.engine.exec_create name ps)) w id e),
            same_db,
            same_files,
          ))
          (λ id stream. Preserves-bind IsAsBefore _ _ (Preserves-lift IsAsBefore _) (λ buffers.
            Preserves-bind IsAsBefore _ _
              (Preserves-wrap IsAsBefore _ _
                (Preserves-on_engine (H.engine.exec_inspect id) (λ s h. S.finishes s id h)))
              (λ code. Preserves-pure IsAsBefore _)))

    Preserves-get_vm_status : (c : Container) → Preserves IsAsBefore (get_vm_status H c)
    unfolding get_vm_status
    Preserves-get_vm_status c = Preserves-bind IsAsBefore _ _ (Preserves-lift IsAsBefore _) (λ name.
        Preserves-if IsAsBefore _ _ _
          (Preserves-bind IsAsBefore _ _ (Preserves-attempt IsAsBefore _ (Preserves-ps name))
            (λ answer.
              Preserves-bind IsAsBefore (late_answer H) _ (record { after = λ w i. i })
                (λ late. Preserves-lift IsAsBefore _)))
          (Preserves-pure IsAsBefore _))

    -- The size that the sheriff goes on with.
    abbrev or_zero : Option ℤ → ℤ
    or_zero none = pos 0
    or_zero (some size) = size

    usage_caught :
        (name : Str) (o : Option ℤ) (w : World H) (m : Action (World H) ℤ)
        → m w ≡ (found_size name o, w)
        → catch m (λ e. pure (pos 0)) w ≡ (ok (or_zero o), w)
    unfolding catch
    usage_caught name none w m h = rw h refl
    usage_caught name (some size) w m h = rw h refl

    small_size :
        (c : Container) (s : IsSmall v ms (json_of c) volumes c) (o : Option ℤ)
        → home_volume volumes (json_of c).mounts ≡ o
        → exceeds_limit (or_zero o) ≡ false
    small_size c s none e = exceeds_limit-within (pos 0) (omega arith)
    small_size c s (some size) e =
        let (volume, mounted, sized) = home_volume-inv volumes (json_of c).mounts size e in
        exceeds_limit-within size (s.within volume size mounted sized)

    abbrev stop_over : Str → ℤ → Action (World H) (Unit {0})
    stop_over name size =
        if exceeds_limit size then catch (vm_stop H v name) (λ e. pure tt) else pure tt

    abbrev measure : Str → Action (World H) (Unit {0})
    measure name = catch (get_container_home_dir_usage H v name) (λ e. pure (pos 0)) >>= λ size.
        stop_over name size

    measure-spares :
        (c : Container)
        → Among c ms
        → (s : IsSmall v ms (json_of c) volumes c) → (w : World H) → Holds w.engine
        → measure (v.cf_prefix ++ s.device) w ≡ (ok tt, w)
    measure-spares c m s w holds =
        let name = v.cf_prefix ++ s.device in
        let found = find_id-alone v name ms c m (HasName-own v s.device c s.names) s.alone in
        let o = home_volume volumes (json_of c).mounts in
        let usage =
          get_container_home_dir_usage-eq H v w name c.id cs ms (json_of c) volumes
            (S.lists w.engine holds) S.manages found (S.inspects w.engine c holds m)
            (S.measures w.engine holds) in
        bind-eq _ _ w w (or_zero o)
          (usage_caught name o w (get_container_home_dir_usage H v name) usage)
        ∙ ap (λ (b : Bool). (if b then catch (vm_stop H v name) (λ e. pure tt) else pure tt) w)
            (small_size c s o refl)

    Preserves-inspect_usage :
        (c : Container)
        → Among c ms
        → IsSmall v ms (json_of c) volumes c
        → Preserves IsAsBefore (inspect_usage H v c)
    unfolding inspect_usage
    Preserves-inspect_usage c m s =
        let name = v.cf_prefix ++ s.device in
        let measured : Preserves IsAsBefore (measure name) = record {
          after = λ w i. rw (measure-spares c m s w i.0) i;
        } in
        let rest =
          Preserves-bind IsAsBefore
            (catch (get_vm_status H c >>= λ x. pure (is_running x)) (λ e. pure false))
            (λ is_up. if is_up then measure name else pure tt)
            (Preserves-catch IsAsBefore _ _
              (Preserves-bind IsAsBefore _ _ (Preserves-get_vm_status c)
                (λ x. Preserves-pure IsAsBefore _))
              (λ e. Preserves-pure IsAsBefore _))
            (λ is_up. Preserves-if IsAsBefore is_up _ _ measured (Preserves-pure IsAsBefore _)) in
        record {
          after = λ w i.
              let start : inspect_usage H v c w ≡ _ =
                bind-eq _ _ w w name (λ j. (first_name-own v s.device c s.names j, w)) in
              rw start (rest.after w i);
        }

    Preserves-inspect_each :
        (ds : List Container)
        → ((c : Container) → Among c ds → Among c ms × IsSmall v ms (json_of c) volumes c)
        → Preserves IsAsBefore (inspect_each H v ds)
    unfolding inspect_each
    Preserves-inspect_each [] h = Preserves-pure IsAsBefore tt
    Preserves-inspect_each (c ∷ ds) h =
        let (m, s) = h c (inl refl) in
        Preserves-bind IsAsBefore _ _ (Preserves-inspect_usage c m s)
          (λ _. Preserves-inspect_each ds (λ d n. h d (inr n)))

    round-Preserves :
        ((c : Container) → Among c ms → IsSmall v ms (json_of c) volumes c)
        → Preserves IsAsBefore (disk_sheriff_round H v)
    unfolding disk_sheriff_round
    round-Preserves h = record {
      after = λ w i.
          let listed =
            list_cuttlefish_containers-caught H v w cs ms (S.lists w.engine i.0) S.manages in
          rw (bind-eq _ (λ ds. inspect_each H v ds) w w ms listed)
            ((Preserves-inspect_each ms (λ c m. (m, h c m))).after w i);
    }

    disk_sheriff-Preserves :
        (rounds : ℕ)
        → ((c : Container) → Among c ms → IsSmall v ms (json_of c) volumes c)
        → Preserves IsAsBefore (disk_sheriff H v rounds)
    unfolding disk_sheriff
    disk_sheriff-Preserves zero h = Preserves-pure IsAsBefore tt
    disk_sheriff-Preserves (suc rounds) h =
        Preserves-bind IsAsBefore _ _ (round-Preserves h) (λ _. disk_sheriff-Preserves rounds h)

-- If each managed container has one name, that of a device which no other managed container's name
-- holds, and each volume of known size that is mounted at its home folder is within the limit, then
-- after any number of rounds of diskSheriff the database and the files are as they were and the
-- engine has the same containers, mounts and volumes. It is assumed of the engine only that these
-- queries change nothing, and that to list a container's processes changes none of these.
pub disk_sheriff-spares :
    (H : Host) (v : Vmm) (cs ms : List Container) (json_of : Container → ContainerJson)
    (volumes : StrMap ℤ) (Holds : H.engine.State → Type 0) (rounds : ℕ) (w : World H)
    → AreSteady H.engine v cs ms json_of volumes Holds
    → ((c : Container) → Among c ms → IsSmall v ms (json_of c) volumes c)
    → Holds w.engine
    → IsAsBefore H v cs ms json_of volumes Holds w.db w.files (disk_sheriff H v rounds w).1
disk_sheriff-spares H v cs ms json_of volumes Holds rounds w S small holds =
    (disk_sheriff-Preserves H v cs ms json_of volumes Holds w.db w.files S rounds small).after w
      (holds, refl, refl)
