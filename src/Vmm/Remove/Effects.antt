-- ===== src/Vmm/Remove/Effects.antt =====
-- What a removal changes: which container it takes, and what is left after each outcome.
use matrisea.Common.{
  Str, text, str_eq, true, false, ◌≡◌, sym, ap, ◌∙◌, none, [], ◌∷◌, Result, ok, err, Error, wrapped,
  Action, ◌>>=◌, ◌>>◌, wrap, if◌then◌else◌, arith,
}
use matrisea.Common.Steps.{bind-eq, bind-eq_err, bind-inv, wrap-eq}
use matrisea.Go.Path.{join}
use matrisea.Docker.{ContainerJson, RemoveOptions}
use matrisea.Kvstore.{container_bucket, parent, remove_container_configs}
use matrisea.Kvstore.Bolt.{IsLawful}
use matrisea.Kvstore.Values.{stored}
use matrisea.Kvstore.Removal.{stored-remove, remove_missing}
use matrisea.Vmm.Host.{Vmm, Host, World, on_engine, on_files, on_db}
use matrisea.Vmm.Find.{is_managed_container, get_container_id_by_name}
use matrisea.Vmm.Find.Guards.{
  AreQueries, ReadsOnly-is_managed_container, ReadsOnly-get_container_id_by_name,
}
use matrisea.Vmm.Remove.{vm_remove}

abbrev pub forced : RemoveOptions
forced = record { force = true; remove_volumes = true }

module _ (H : Host) (v : Vmm) (name : Str) (w : World H) where
  -- The steps after the container has been found.
  abbrev pub finish : Str → Action (World H) (Unit {0})
  finish id =
      wrap (text "docker: ContainerRemove") (on_engine H (H.engine.container_remove id forced))
      >> (wrap (text "kvstore: ContainerRemove")
            (on_db H (remove_container_configs H.database name))
          >> on_files H (H.files.remove_all (join (v.devices_dir ∷ name ∷ []))))

  pub vm_remove_found :
      (json : ContainerJson) (id : Str)
      → is_managed_container H v name w ≡ (ok json, w)
      → get_container_id_by_name H v name w ≡ (ok id, w)
      → vm_remove H v name w ≡ finish id w
  unfolding vm_remove
  vm_remove_found json id managed found =
      bind-eq _ _ w w json managed
      ∙ bind-eq _ _ w w id
          (wrap-eq (text "no containerID") (get_container_id_by_name H v name) w w id found)

  engine-finish :
      (id : Str) → (finish id w).1.engine ≡ (H.engine.container_remove id forced w.engine).1
  unfolding ◌>>=◌
  engine-finish id = ground arith

  -- With an engine whose queries change nothing, VMRemove of a name that the guard refuses returns
  -- the guard's error and changes nothing.
  pub vm_remove_unmanaged :
      AreQueries H.engine
      → (e : Error) → (is_managed_container H v name w).0 ≡ err e
      → vm_remove H v name w ≡ (err e, w)
  unfolding vm_remove
  vm_remove_unmanaged Q e h =
      bind-eq_err (is_managed_container H v name) _ w w e
        (λ i. (h i, (ReadsOnly-is_managed_container H v Q name).same w i))

  -- The container whose identifier `find_id` gives is the one that the engine removes.
  pub engine-vm_remove :
      (json : ContainerJson) (id : Str)
      → is_managed_container H v name w ≡ (ok json, w)
      → get_container_id_by_name H v name w ≡ (ok id, w)
      → (vm_remove H v name w).1.engine ≡ (H.engine.container_remove id forced w.engine).1
  engine-vm_remove json id managed found =
      ap (λ (r : Result (Unit {0}) × World H). r.1.engine) (vm_remove_found json id managed found)
      ∙ engine-finish id

  -- The container goes, but its configuration was missing: an error, and the folder of the device
  -- stays.
  finish_unconfigured :
      IsLawful H.database
      → (id : Str) (s : H.engine.State) → H.engine.container_remove id forced w.engine ≡ (ok tt, s)
      → H.database.has_bucket [] container_bucket (H.database.begin w.db) ≡ true
      → H.database.has_bucket (parent H.database) name (H.database.begin w.db) ≡ false
      → (e : Error) × (finish id w ≡ (err e, record w { engine = s }))
  finish_unconfigured L id s gone root missing =
      let (e, h) = remove_missing H.database L name w.db root missing in
      (wrapped (text "kvstore: ContainerRemove") e, unfold ◌>>=◌ in rw gone (rw h))

  finish-db :
      (id : Str)
      → (finish id w).0 ≡ ok tt
      → ((remove_container_configs H.database name w.db).0 ≡ ok tt)
        × ((finish id w).1.db ≡ (remove_container_configs H.database name w.db).1)
  unfolding ◌>>=◌
  finish-db id h = ground arith

  -- A removal that succeeds has found a container, and ends by `finish` with the world unchanged
  -- before it.
  vm_remove-finish :
      AreQueries H.engine
      → (vm_remove H v name w).0 ≡ ok tt
      → (id : Str) × (vm_remove H v name w ≡ finish id w)
  unfolding vm_remove
  vm_remove-finish Q h =
      let guard = is_managed_container H v name in
      let find = wrap (text "no containerID") (get_container_id_by_name H v name) in
      let (json, managed, e) = bind-inv guard _ w tt h in
      let managed' : guard w ≡ (ok json, w) =
        λ i. (managed i, (ReadsOnly-is_managed_container H v Q name).same w i) in
      let rest : (find >>= λ id. finish id) w ≡ vm_remove H v name w =
        sym (bind-eq guard _ w w json managed') in
      let (id, found, e') = bind-inv find (λ id. finish id) w tt (rw rest h) in
      let found' : find w ≡ (ok id, w) =
        λ i. (found i, (ReadsOnly-get_container_id_by_name H v Q name).same w i) in
      (id, sym rest ∙ bind-eq find (λ j. finish j) w w id found')

  -- After a successful VMRemove, with an engine whose queries change nothing and a lawful database,
  -- the container has no configuration value, and the values of every other container are what they
  -- were.
  pub vm_remove-stored :
      AreQueries H.engine
      → IsLawful H.database
      → (vm_remove H v name w).0 ≡ ok tt
      → (d k : Str)
      → stored H.database d k (vm_remove H v name w).1.db
        ≡ (if str_eq name d then none else stored H.database d k w.db)
  vm_remove-stored Q L h d k =
      let (id, e) = vm_remove-finish Q h in
      let (removed, db) = finish-db id (rw e at h) in
      rw e (
        ap (λ (b : H.database.Db). stored H.database d k b) db
        ∙ stored-remove H.database L name w.db removed d k)

  -- VMRemove of a container that has no configuration while the container bucket exists removes the
  -- container but returns an error, and leaves the files, so the device's folder, and the database
  -- as they were.
  pub vm_remove_unconfigured :
      IsLawful H.database
      → (json : ContainerJson) (id : Str) (s : H.engine.State)
      → is_managed_container H v name w ≡ (ok json, w)
      → get_container_id_by_name H v name w ≡ (ok id, w)
      → H.engine.container_remove id forced w.engine ≡ (ok tt, s)
      → H.database.has_bucket [] container_bucket (H.database.begin w.db) ≡ true
      → H.database.has_bucket (parent H.database) name (H.database.begin w.db) ≡ false
      → (e : Error) × (vm_remove H v name w ≡ (err e, record w { engine = s }))
  vm_remove_unconfigured L json id s managed found gone root missing =
      let (e, h) = finish_unconfigured L id s gone root missing in
      (e, vm_remove_found json id managed found ∙ h)
