-- ===== src/Vmm/Create/Failed.antt =====
-- What a `VMCreate` that fails leaves behind.
use matrisea.Common.{
  ℕ, ap, true, false, ◌⊎◌, inl, inr, arith, Str, text, ◌≡◌, ◌∙◌, refl, List, ◌∷◌, [], ◌++◌, Result,
  ok, err, panic, Error, Action, ◌>>=◌, ◌>>◌, pure, wrap, wrap_result, continue,
}
use matrisea.Common.Int.{ℤ, pos}
use matrisea.Common.Keeps.{Keeps, keeps, Keeps-after, Keeps-bind, Keeps-pure}
use matrisea.Common.Steps.{bind-eq}
use matrisea.Go.Path.{join}
use matrisea.Go.Strconv.{itoa}
use matrisea.Docker.{Container}
use matrisea.Instance.{next_number}
use matrisea.Instance.Ports.{websockify_port, adb_port}
use matrisea.Kvstore.{KeyValue, put_container_value}
use matrisea.Kvstore.Bolt.{IsLawful}
use matrisea.Kvstore.Values.{put_failed}
use matrisea.Vmm.Host.{Vmm, Host, World, on_engine, on_db}
use matrisea.Vmm.Create.{
  create_config, initial_configs, get_next_cf_instance_number, make_device_dir, create_container,
  vm_create,
}
use matrisea.Vmm.Create.Configured.{db-make_device_dir, db-create_container}

-- An action that fails only before it has changed what a view shows.
record KeepsFailed {S A V : Type 0} (view : S → V) (m : Action S A) : Type 0 where
  failed_same : (s : S) (e : Error) → (m s).0 ≡ err e → view (m s).1 ≡ view s

module _ {S A B V : Type 0} (view : S → V) where
  failed-continue :
      (r : Result A) (f : A → Action S B)
      → ((a : A) → KeepsFailed view (f a))
      → (s : S) (e : Error) → (continue r f s).0 ≡ err e
      → view (continue r f s).1 ≡ view s
  failed-continue (ok a) f h s e p = (h a).failed_same s e p
  failed-continue (err x) f h s e p = refl
  failed-continue panic f h s e p = refl

  KeepsFailed-bind :
      (m : Action S A) (f : A → Action S B)
      → Keeps view m
      → ((a : A) → KeepsFailed view (f a))
      → KeepsFailed view (m >>= f)
  unfolding ◌>>=◌
  KeepsFailed-bind m f hm hf = record {
    failed_same = λ s e p. failed-continue (m s).0 f hf (m s).1 e p ∙ hm.same s;
  }

module _ {S A B C V : Type 0} (view : S → V) (n : Action S B) (l : Action S C) where
  last-continue :
      (r : Result A)
      → Keeps view l
      → (s : S) → view (continue r (λ _. n >> l) s).1 ≡ view (continue r (λ _. n) s).1
  last-continue (ok a) h s = Keeps-after view n (λ _. l) (λ _. h) s
  last-continue (err x) h s = refl
  last-continue panic h s = refl

  -- A last step that keeps the view is not seen.
  Keeps-last :
      (m : Action S A) → Keeps view l → (s : S) → view ((m >> (n >> l)) s).1 ≡ view ((m >> n) s).1
  Keeps-last m h s = unfold ◌>>=◌ in last-continue (m s).0 h (m s).1

module _ (H : Host) where
  files-on_engine :
      {A : Type 0} (m : Action H.engine.State A) → Keeps (λ w. w.files) (on_engine H m)
  files-on_engine m = record { same = λ w. refl }

  files-get_next_cf_instance_number : Keeps (λ w. w.files) (get_next_cf_instance_number H)
  unfolding get_next_cf_instance_number
  files-get_next_cf_instance_number = search (keeps, files-on_engine)

  files-create_container : (name dir : Str) → Keeps (λ w. w.files) (create_container H name dir)
  unfolding create_container
  files-create_container name dir =
      search (keeps, files-on_engine, files-get_next_cf_instance_number) depth 14

module _ (H : Host) (name : Str) (kvs : List KeyValue) where
  abbrev put : Action (World H) (Unit {0})
  put = wrap (text "KVStore put") (on_db H (put_container_value H.database name kvs))

  abbrev save : Action (World H) Str
  save = put >> pure name

  Keeps-save : {V : Type 0} (view : World H → V) → Keeps view put → Keeps view save
  Keeps-save view h = Keeps-bind view put (λ _. pure name) h (λ _. Keeps-pure view name)

  saved-inv :
      (r : Result (Unit {0})) (w : World H) (e : Error)
      → (continue (wrap_result (text "KVStore put") r) (λ _. pure name) w).0 ≡ err e
      → (x : Error) × (r ≡ err x)
  saved-inv (ok tt) w e h = absurd (cc)
  saved-inv (err x) w e h = (x, refl)
  saved-inv panic w e h = absurd (cc)

  -- A write of the configuration that fails is rolled back.
  KeepsFailed-save : IsLawful H.database → KeepsFailed (λ w. w.db) save
  unfolding ◌>>=◌
  KeepsFailed-save L = record {
    failed_same = λ w e p.
        let (x, failed) =
          saved-inv (put_container_value H.database name kvs w.db).0 (put w).1 e p in
        Keeps-after (λ (u : World H). u.db) put (λ _. pure name)
          (λ _. Keeps-pure (λ (u : World H). u.db) name) w
        ∙ put_failed H.database L name kvs w.db x failed;
  }

-- The device's folder was there, or `os.Mkdir` has made it.
abbrev pub Makes : (H : Host) → Str → H.files.State → H.files.State → Type 0
Makes H dir before after =
    ((H.files.stat dir before ≡ true) × (after ≡ before))
    ⊎ ((H.files.stat dir before ≡ false) × (H.files.mkdir dir before ≡ (ok tt, after)))

module _ (H : Host) where
  make_device_dir-eq :
      (dir : Str) (w : World H) (files : H.files.State)
      → Makes H dir w.files files
      → make_device_dir H dir w ≡ (ok tt, record w { files = files })
  unfolding make_device_dir ◌>>=◌
  make_device_dir-eq dir w files (inl (there, same)) = rw there (rw same refl)
  make_device_dir-eq dir w files (inr (missing, made)) = rw missing (rw made refl)

  engine-create_container :
      (name dir : Str) (w : World H) (cs : List Container) (s0 s1 : H.engine.State) (n : ℕ)
      (websockify adb id : Str)
      → H.engine.container_list w.engine ≡ (ok cs, s0)
      → next_number cs ≡ ok n
      → H.engine.new_port (itoa (pos (websockify_port n))) ≡ ok websockify
      → H.engine.new_port (itoa (pos (adb_port n))) ≡ ok adb
      → H.engine.container_create (create_config name dir n websockify adb) name s0 ≡ (ok id, s1)
      → (create_container H name dir w).1.engine ≡ (H.engine.container_start id s1).1
  unfolding create_container get_next_cf_instance_number ◌>>=◌
  engine-create_container name dir w cs s0 s1 n websockify adb id listed number port port' made =
      ground arith

module _ (H : Host) (v : Vmm) (L : IsLawful H.database) where
  -- What the parts before the failure have left is left.
  failed_after :
      (device : Str) (cpu ram : ℤ) (version cmdline : Str) (w : World H) (e : Error)
      → (vm_create H v device cpu ram version cmdline w).0 ≡ err e
      → let name = v.cf_prefix ++ device in
        let dir = join (v.devices_dir ∷ name ∷ []) in
        let after = (vm_create H v device cpu ram version cmdline w).1 in
        (after.db ≡ w.db)
        × (after.files ≡ (make_device_dir H dir w).1.files)
        × (after.engine ≡ ((make_device_dir H dir >> create_container H name dir) w).1.engine)
  unfolding vm_create
  failed_after device cpu ram version cmdline w e h =
      let name = v.cf_prefix ++ device in
      let dir = join (v.devices_dir ∷ name ∷ []) in
      let kvs = initial_configs device cpu ram version cmdline in
      let create = create_container H name dir in
      let rest =
        KeepsFailed-bind (λ (u : World H). u.db) create (λ _. save H name kvs)
          (db-create_container H name dir) (λ _. KeepsFailed-save H name kvs L) in
      let whole =
        KeepsFailed-bind (λ (u : World H). u.db) (make_device_dir H dir)
          (λ _. create >> save H name kvs) (db-make_device_dir H dir) (λ _. rest) in
      (
        whole.failed_same w e h,
        Keeps-after (λ (u : World H). u.files) (make_device_dir H dir)
            (λ _. create >> save H name kvs)
            (λ _.
              Keeps-bind _ _ _ (files-create_container H name dir)
                (λ _. Keeps-save H name kvs _ (record { same = λ u. refl })))
            w,
        Keeps-last (λ (u : World H). u.engine) create (save H name kvs) (make_device_dir H dir)
            (Keeps-save H name kvs _ (record { same = λ u. refl })) w,
      )

  -- A VMCreate over a lawful database that returns an error after its folder has been seen to, a
  -- number and both ports have been found and the engine has created the container, leaves the
  -- container: the engine is as it was after the attempt to start the container, the files are as
  -- they were with the folder, and the configuration store is as it was before the call.
  pub vm_create-failed :
      (device : Str) (cpu ram : ℤ) (version cmdline : Str) (w : World H) (e : Error)
      (files : H.files.State) (cs : List Container) (s0 s1 : H.engine.State) (n : ℕ)
      (websockify adb id : Str)
      → (vm_create H v device cpu ram version cmdline w).0 ≡ err e
      → let name = v.cf_prefix ++ device in
        let dir = join (v.devices_dir ∷ name ∷ []) in
        Makes H dir w.files files
        → H.engine.container_list w.engine ≡ (ok cs, s0)
        → next_number cs ≡ ok n
        → H.engine.new_port (itoa (pos (websockify_port n))) ≡ ok websockify
        → H.engine.new_port (itoa (pos (adb_port n))) ≡ ok adb
        → H.engine.container_create (create_config name dir n websockify adb) name s0 ≡ (ok id, s1)
        → let after = (vm_create H v device cpu ram version cmdline w).1 in
          (after.db ≡ w.db)
          × (after.files ≡ files)
          × (after.engine ≡ (H.engine.container_start id s1).1)
  vm_create-failed device cpu ram version cmdline w e files cs s0 s1 n websockify adb id failed
        makes listed number port port' made =
      let name = v.cf_prefix ++ device in
      let dir = join (v.devices_dir ∷ name ∷ []) in
      let (db, kept, engine) = failed_after device cpu ram version cmdline w e failed in
      let folder = make_device_dir-eq H dir w files makes in
      let u : World H = record w { files = files } in
      let begun : (make_device_dir H dir >> create_container H name dir) w
          ≡ create_container H name dir u =
        bind-eq (make_device_dir H dir) _ w u tt folder in
      (
        db,
        kept ∙ ap (λ (o : Result (Unit {0}) × World H). o.1.files) folder,
        engine
            ∙ (ap (λ (o : Result Str × World H). o.1.engine) begun
                ∙ engine-create_container H name dir u cs s0 s1 n websockify adb id listed number
                    port port' made),
      )
