-- ===== src/Vmm/Create/Configured.antt =====
-- What a successful `VMCreate` leaves in the configuration store.
use matrisea.Common.{
  Str, text, str_eq, str_eq_refl, true, ◌≡◌, refl, ap, ◌∙◌, Option, some, List, [], ◌∷◌, ◌++◌,
  Result, ok, Action, ◌>>=◌, ◌>>◌, pure, wrap, arith, Bool-cases, inl, inr, ◌⊎◌,
}
use matrisea.Common.Int.{ℤ}
use matrisea.Common.Keeps.{Keeps, keeps}
use matrisea.Common.Steps.{bind-inv}
use matrisea.Go.Path.{join}
use matrisea.Go.Strconv.{itoa, atoi}
use matrisea.Go.Strconv.RoundTrip.{IsInt64, atoi-itoa}
use matrisea.Kvstore.{KeyValue, put_container_value, get_container_value}
use matrisea.Kvstore.Bolt.{IsLawful}
use matrisea.Kvstore.Values.{stored, override, stored-put, get_container_value_iff}
use matrisea.Vmm.Host.{
  Vmm, Host, World, on_db, config_key_device_name, config_key_cpu, config_key_ram,
  config_key_aosp_version, config_key_tags, config_key_cmdline,
}
use matrisea.Vmm.Views.{db_of, db-on_engine, db-on_files, db-stat}
use matrisea.Vmm.Create.{
  initial_configs, get_next_cf_instance_number, make_device_dir, create_container, vm_create,
}

module _ (H : Host) where
  pub db-make_device_dir : (dir : Str) → Keeps (db_of H) (make_device_dir H dir)
  unfolding make_device_dir
  db-make_device_dir dir = search (keeps, db-on_files, db-stat)

  db-get_next_cf_instance_number : Keeps (db_of H) (get_next_cf_instance_number H)
  unfolding get_next_cf_instance_number
  db-get_next_cf_instance_number = search (keeps, db-on_engine)

  pub db-create_container : (name dir : Str) → Keeps (db_of H) (create_container H name dir)
  unfolding create_container
  db-create_container name dir =
      search (keeps, db-on_engine, db-get_next_cf_instance_number) depth 14

module _ (H : Host) (v : Vmm) where
  module _ (device : Str) (cpu ram : ℤ) (version cmdline : Str) (w : World H) where
    abbrev pub name : Str
    name = v.cf_prefix ++ device

    abbrev pub configs : List KeyValue
    configs = initial_configs device cpu ram version cmdline

    abbrev save : Action (World H) Str
    save =
        wrap (text "KVStore put") (on_db H (put_container_value H.database name configs))
        >> pure name

    save-put :
        (u : World H) (result : Str)
        → (save u).0 ≡ ok result
        → (result ≡ name)
          × ((put_container_value H.database name configs u.db).0 ≡ ok tt)
          × ((save u).1.db ≡ (put_container_value H.database name configs u.db).1)
    unfolding ◌>>=◌
    save-put u result h = ground arith

    -- A creation that succeeds ends by writing the configuration to the database that it began with.
    pub vm_create-put :
        (result : Str)
        → (vm_create H v device cpu ram version cmdline w).0 ≡ ok result
        → (result ≡ name)
          × ((put_container_value H.database name configs w.db).0 ≡ ok tt)
          × ((vm_create H v device cpu ram version cmdline w).1.db
              ≡ (put_container_value H.database name configs w.db).1)
    unfolding vm_create
    vm_create-put result h =
        let dir = join (v.devices_dir ∷ name ∷ []) in
        let make = make_device_dir H dir in
        let create = create_container H name dir in
        let (_, made, e) = bind-inv make (λ _. create >>= λ _. save) w result h in
        let (_, created, e') = bind-inv create (λ _. save) (make w).1 result (rw e at h) in
        let u = (create (make w).1).1 in
        let same : u.db ≡ w.db =
          (db-create_container H name dir).same (make w).1 ∙ (db-make_device_dir H dir).same w in
        let (named, put, after) = save-put u result (rw (e ∙ e') at h) in
        (named, rw (← same) put, rw (e ∙ e') (after ∙ rw same))

    -- Each key of the list has its own value, whatever it had before.
    pub override-configs :
        (old : Option Str)
        → (override configs config_key_device_name old ≡ some device)
          × (override configs config_key_cpu old ≡ some (itoa cpu))
          × (override configs config_key_ram old ≡ some (itoa ram))
          × (override configs config_key_aosp_version old ≡ some version)
          × (override configs config_key_tags old ≡ some version)
          × (override configs config_key_cmdline old ≡ some cmdline)
    unfolding initial_configs str_eq text
    override-configs old = (refl, refl, refl, refl, refl, refl)

    -- A key of the new container, from what the list writes for it.
    pub get_created :
        IsLawful H.database
        → (result : Str) → (vm_create H v device cpu ram version cmdline w).0 ≡ ok result
        → (key value : Str) → ((old : Option Str) → override configs key old ≡ some value)
        → get_container_value H.database name key
            (vm_create H v device cpu ram version cmdline w).1.db
          ≡ (ok value, (vm_create H v device cpu ram version cmdline w).1.db)
    get_created L result h key value written =
        let (_, put, after) = vm_create-put result h in
        (get_container_value_iff H.database name key value _).1 (
          ap (λ (b : H.database.Db). stored H.database name key b) after
          ∙ stored-put H.database L name configs w.db put name key
          ∙ rw (str_eq_refl name) (written (stored H.database name key w.db)))

    -- After a successful VMCreate over a lawful database, with numbers that fit an int, the
    -- returned name is the container's, every configuration key reads back as what was given, the
    -- tags as the version, the CPU and RAM values parse back to the numbers, and no other
    -- container's values have changed.
    pub vm_create-configs :
        IsLawful H.database
        → IsInt64 cpu
        → IsInt64 ram
        → (result : Str) → (vm_create H v device cpu ram version cmdline w).0 ≡ ok result
        → let db = (vm_create H v device cpu ram version cmdline w).1.db in
          let read = λ (key : Str). (get_container_value H.database name key db).0 in
          (result ≡ name)
          × (read config_key_device_name ≡ ok device)
          × (read config_key_aosp_version ≡ ok version)
          × (read config_key_tags ≡ ok version)
          × (read config_key_cmdline ≡ ok cmdline)
          × ((s : Str) × (read config_key_cpu ≡ ok s) × (atoi s ≡ ok cpu))
          × ((s : Str) × (read config_key_ram ≡ ok s) × (atoi s ≡ ok ram))
          × ((d k : Str)
              → (str_eq name d ≡ true) ⊎ (stored H.database d k db ≡ stored H.database d k w.db))
    vm_create-configs L fits_cpu fits_ram result h =
        let (named, put, after) = vm_create-put result h in
        let read_value =
          λ (key value : Str)
              (written : (old : Option Str) → override configs key old ≡ some value).
            ap (λ (r : Result Str × H.database.Db). r.0)
              (get_created L result h key value written) in
        (
          named,
          read_value config_key_device_name device (λ o. (override-configs o).0),
          read_value config_key_aosp_version version (λ o. (override-configs o).3),
          read_value config_key_tags version (λ o. (override-configs o).4),
          read_value config_key_cmdline cmdline (λ o. (override-configs o).5),
          (
            itoa cpu,
            read_value config_key_cpu (itoa cpu) (λ o. (override-configs o).1),
            atoi-itoa cpu fits_cpu,
          ),
          (
            itoa ram,
            read_value config_key_ram (itoa ram) (λ o. (override-configs o).2),
            atoi-itoa ram fits_ram,
          ),
          λ d k. elim (Bool-cases (str_eq name d)) [
            | inl own ↦ inl own
            | inr other ↦ inr (
                ap (λ (b : H.database.Db). stored H.database d k b) after
                ∙ stored-put H.database L name configs w.db put d k
                ∙ rw other)
          ],
        )
