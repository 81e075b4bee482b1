-- ===== src/Vmm/Remove/Prune.antt =====
-- What `VMPrune` leaves on a host whose engine is up.
use mathlib.Core.List.{append-nil}
use matrisea.Common.{
  Bool-cases, ltb, length, ◌≤◌, Str, text, true, ◌≡◌, ◌≢◌, refl, sym, ap, ◌∙◌, List, [], ◌∷◌,
  Result, ok, err, panic, catch, handle, arith, inl, inr, some,
}
use matrisea.Common.Among.{Among}
use matrisea.Common.Steps.{bind-eq, bind-ne_panic, wrap_result-ne_panic}
use matrisea.Go.Strings.{has_prefix, contains}
use matrisea.Go.Strings.Prefix.{contains-append_right, contains-append}
use matrisea.Docker.{Container, ContainerJson, Engine}
use matrisea.Kvstore.{remove_container_configs}
use matrisea.Vmm.Host.{Vmm, Host, World}
use matrisea.Vmm.Find.{name_prefix, managed, is_target, has_target, find_id}
use matrisea.Vmm.Find.Guards.{
  get_container_id_by_name-eq, is_managed_container-eq, list_cuttlefish_containers-caught,
}
use matrisea.Vmm.Remove.{first_name, vm_remove, logged, remove_each, vm_prune}
use matrisea.Vmm.Remove.Effects.{forced, finish, vm_remove_found, engine-vm_remove}
use matrisea.Vmm.Remove.Lists.{
  managed-inv, without, AreIdsDistinct, first_prefixed, unmanaged, AreIdsDistinct-without,
  managed-without_first, first-managed, unmanaged-without, unmanaged_all,
}

-- An engine that answers, with the containers that it holds: where their identifiers are distinct, it
-- inspects each one under its first name, and a forced removal takes away the one with the identifier.
pub record IsServing (E : Engine) : Type 0 where
  pub held : E.State → List Container
  pub lists : (s : E.State) → E.container_list s ≡ (ok (held s), s)
  pub inspects :
      (s : E.State) (c : Container) (name : Str) (more : List Str)
      → AreIdsDistinct (held s)
      → Among c (held s)
      → c.names ≡ name ∷ more
      → (json : ContainerJson) × (E.container_inspect c.id s ≡ (ok json, s)) × (json.name ≡ name)
  pub removes :
      (s : E.State) (c : Container)
      → AreIdsDistinct (held s)
      → Among c (held s)
      → (t : E.State) × (E.container_remove c.id forced s ≡ (ok tt, t))
        × (held t ≡ without c.id (held s))

-- The database and the files may fail, and do not panic.
pub record IsCalm (H : Host) : Type 0 where
  pub calm_db :
      (c : Str) (db : H.database.Db) → (remove_container_configs H.database c db).0 ≢ panic
  pub calm_files : (path : Str) (s : H.files.State) → (H.files.remove_all path s).0 ≢ panic

first-Among :
    (v : Vmm) (cs : List Container) (c : Container) (ms : List Container)
    → managed v cs ≡ ok (c ∷ ms)
    → Among c cs
first-Among v [] c ms h = unfold managed in absurd (cc)
first-Among v (x ∷ cs) c ms h =
    let (rest, kept, e) = managed-inv v x cs (c ∷ ms) h in
    elim (Bool-cases (first_prefixed v x.names)) [
      | inl own ↦ let same : c ∷ ms ≡ x ∷ rest = rw own at e in inl (cc)
      | inr foreign ↦
          let same : c ∷ ms ≡ rest = rw foreign at e in
          inr (first-Among v cs c ms (kept ∙ ap ok (sym same)))
    ]

-- A name with the manager's prefix is the slash and the container's name.
named : (v : Vmm) (n : Str) → has_prefix n (name_prefix v) ≡ true → (name : Str) × (n ≡ b'/' ∷ name)
unfolding text has_prefix
named v [] h = absurd (cc)
named v (c ∷ name) h = (name, ground arith)

prefixed_first :
    (v : Vmm) (names : List Str)
    → first_prefixed v names ≡ true
    → (n : Str) × (more : List Str) × (names ≡ n ∷ more) × (has_prefix n (name_prefix v) ≡ true)
prefixed_first v [] h = absurd (cc)
prefixed_first v (n ∷ more) h = (n, more, refl, h)

contains_self : (s : Str) → contains s s ≡ true
contains_self s = rw (append-nil s) at (contains-append [] s [])

-- Such a container is found first by its own name.
found_first :
    (v : Vmm) (name : Str) (more : List Str) (c : Container) (ms : List Container)
    → c.names ≡ (b'/' ∷ name) ∷ more
    → has_prefix (b'/' ∷ name) (name_prefix v) ≡ true
    → find_id v name (c ∷ ms) ≡ some c.id
unfolding find_id has_target is_target
found_first v name more c ms e p =
    rw e (rw p (rw (contains-append_right (b'/' ∷ []) name name (contains_self name)) refl))

module _ (H : Host) (S : IsServing H.engine) (C : IsCalm H) (v : Vmm) where
  finish-calm :
      (name id : Str) (w : World H) (t : H.engine.State)
      → H.engine.container_remove id forced w.engine ≡ (ok tt, t)
      → (finish H v name w id w).0 ≢ panic
  finish-calm name id w t gone = bind-ne_panic _ _ w (rw gone (λ p. cc)) (λ a u.
      bind-ne_panic _ _ u (wrap_result-ne_panic _ _ (C.calm_db name u.db))
        (λ b x. C.calm_files _ x.files))

  abbrev held : World H → List Container
  held w = S.held w.engine

  -- What a removal by the name of the first managed container does.
  removal :
      (w : World H) (c : Container) (ms : List Container)
      → managed v (held w) ≡ ok (c ∷ ms)
      → AreIdsDistinct (held w)
      → (name : Str) × (first_name c.names ≡ ok name)
        × ((vm_remove H v name w).0 ≢ panic)
        × (held (vm_remove H v name w).1 ≡ without c.id (held w))
  removal w c ms kept apart =
      let among = first-Among v (held w) c ms kept in
      let (n, more, names, begins) =
        prefixed_first v c.names (first-managed v (held w) c ms kept) in
      let (name, e) = named v n begins in
      let (json, inspected, called) = S.inspects w.engine c n more apart among names in
      let prefixed : has_prefix json.name (name_prefix v) ≡ true = rw called begins in
      let (t, gone, left) = S.removes w.engine c apart among in
      let found = found_first v name more c ms (rw e at names) (rw e at begins) in
      let guarded =
        is_managed_container-eq H v w (held w) (c ∷ ms) name c.id json (S.lists w.engine) kept found
          inspected prefixed in
      let got =
        get_container_id_by_name-eq H v w (held w) (c ∷ ms) name c.id (S.lists w.engine) kept
          found in
      (
        name,
        rw names (rw e refl),
        λ p. finish-calm name c.id w t gone (
            ap (λ (r : Result (Unit {0}) × World H). r.0)
              (sym (vm_remove_found H v name w json c.id guarded got))
            ∙ p),
        ap S.held (engine-vm_remove H v name w json c.id guarded got)
            ∙ (ap (λ (r : Result (Unit {0}) × H.engine.State). S.held r.1) gone ∙ left),
      )

  -- Identifiers of ten bytes and more, as the engine's are, can be logged.
  logged-eq : (id : Str) (w : World H) → 10 ≤ length id → logged H v id w ≡ (ok tt, w)
  logged-eq id w long = elim (Bool-cases (ltb (length id) 10)) [
    | inl short ↦ absurd (ground arith)
    | inr enough ↦ rw enough refl
  ]

  handled :
      (id : Str) (r : Result (Unit {0})) (w : World H)
      → 10 ≤ length id
      → r ≢ panic
      → handle r (λ e. logged H v id) w ≡ (ok tt, w)
  handled id (ok tt) w long h = refl
  handled id (err e) w long h = logged-eq id w long
  handled id panic w long h = absurd (h refl)

  -- The loop takes the manager's containers away, one by one.
  remove_each-leaves :
      (ms : List Container) (w : World H)
      → managed v (held w) ≡ ok ms
      → AreIdsDistinct (held w)
      → ((c : Container) → Among c ms → 10 ≤ length c.id)
      → ((remove_each H v ms w).0 ≡ ok tt) × (held (remove_each H v ms w).1 ≡ unmanaged v (held w))
  unfolding remove_each
  remove_each-leaves [] w kept apart long = (refl, sym (unmanaged_all v (held w) kept))
  remove_each-leaves (c ∷ cs) w kept apart long =
      let (name, first, calm, left) = removal w c cs kept apart in
      let u : World H = (vm_remove H v name w).1 in
      let (done, rest) =
        remove_each-leaves cs u (rw left (managed-without_first v (held w) c cs apart kept))
          (rw left (AreIdsDistinct-without c.id (held w) apart)) (λ d m. long d (inr m)) in
      let caught : catch (vm_remove H v name) (λ e. logged H v c.id) w ≡ (ok tt, u) =
        unfold catch in handled c.id (vm_remove H v name w).0 u (long c (inl refl)) calm in
      let step : remove_each H v (c ∷ cs) w ≡ remove_each H v cs u =
        bind-eq _ _ w w name (rw first refl)
        ∙ (bind-eq _ _ w u tt caught ∙ bind-eq _ _ u u tt (logged-eq c.id u (long c (inl refl)))) in
      (
        ap (λ (r : Result (Unit {0}) × World H). r.0) step ∙ done,
        ap (λ (r : Result (Unit {0}) × World H). held r.1) step
            ∙ (rest ∙ (ap (unmanaged v) left ∙ unmanaged-without v (held w) c cs apart kept)),
      )

  -- On a host whose engine is up and holds containers of distinct identifiers, each with a name,
  -- those of the manager with identifiers of ten or more bytes, and whose database and files do not
  -- panic, VMPrune comes to its end and leaves exactly the containers whose first name does not
  -- begin with the manager's prefix.
  pub vm_prune-leaves :
      (w : World H) (ms : List Container)
      → managed v (S.held w.engine) ≡ ok ms
      → AreIdsDistinct (S.held w.engine)
      → ((c : Container) → Among c ms → 10 ≤ length c.id)
      → ((vm_prune H v w).0 ≡ ok tt)
        × (S.held (vm_prune H v w).1.engine ≡ unmanaged v (S.held w.engine))
  unfolding vm_prune
  vm_prune-leaves w ms kept apart long =
      let start : vm_prune H v w ≡ remove_each H v ms w =
        bind-eq _ _ w w ms (list_cuttlefish_containers-caught H v w _ ms (S.lists w.engine) kept) in
      let (done, left) = remove_each-leaves ms w kept apart long in
      (
        ap (λ (r : Result (Unit {0}) × World H). r.0) start ∙ done,
        ap (λ (r : Result (Unit {0}) × World H). held r.1) start ∙ left,
      )
