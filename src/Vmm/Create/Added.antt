-- ===== src/Vmm/Create/Added.antt =====
-- What `VMCreate` adds to the containers of an engine: nothing, or one container with the number that
-- was read before.
use matrisea.Common.{
  ℕ, Str, text, ◌≡◌, ◌⊎◌, inl, inr, refl, sym, ap, ◌∙◌, List, ◌∷◌, Result, ok, err, panic, Action,
  ◌>>=◌, continue, wrap,
}
use matrisea.Common.Int.{ℤ}
use matrisea.Common.Keeps.{Keeps, Keeps-wrap, Keeps-lift, keeps}
use matrisea.Common.Steps.{wrap-inv}
use matrisea.Docker.{Container, CreateConfig, Engine}
use matrisea.Instance.{next_number}
use matrisea.Vmm.Host.{Vmm, Host, World, on_engine, on_files, on_db, stat}
use matrisea.Vmm.Create.{
  create_config, get_next_cf_instance_number, make_device_dir, create_container, vm_create,
}

-- An engine with the containers that it holds: it lists them, a creation adds at most the container
-- that is asked for, whatever the answer, and a start adds none.
pub record IsCreating (E : Engine) : Type 0 where
  pub held : E.State → List Container
  pub lists : (s : E.State) → E.container_list s ≡ (ok (held s), s)
  pub creates :
      (config : CreateConfig) (name : Str) (s : E.State)
      → (held (E.container_create config name s).1 ≡ held s)
        ⊎ ((c : Container) × (held (E.container_create config name s).1 ≡ c ∷ held s)
            × (c.labels ≡ config.labels))
  pub starts : (id : Str) → Keeps held (E.container_start id)

-- The containers after a creation, from those before it.
pub data Added (before after : List Container) : Type 0 where
  nothing : after ≡ before → Added before after
  one :
      (n : ℕ) (c : Container) (name dir websockify adb : Str)
      → next_number before ≡ ok n
      → after ≡ c ∷ before
      → c.labels ≡ (create_config name dir n websockify adb).labels
      → Added before after

module _ (H : Host) (C : IsCreating H.engine) where
  abbrev pub held : World H → List Container
  held w = C.held w.engine

  -- An action that adds what a creation adds.
  abbrev Adds : {A : Type 0} → List Container → Action (World H) A → Type 0
  Adds before m = (w : World H) → held w ≡ before → Added before (held (m w).1)

  module _ {A B : Type 0} (before : List Container) where
    continue-Adds :
        (r : Result A) (f : A → Action (World H) B) (w : World H)
        → held w ≡ before
        → ((a : A) → r ≡ ok a → Adds before (f a))
        → Added before (held (continue r f w).1)
    continue-Adds (ok a) f w h k = k a refl w h
    continue-Adds (err e) f w h k = nothing h
    continue-Adds panic f w h k = nothing h

    -- A call that adds nothing, and then one that adds.
    Keeps-Adds :
        (m : Action (World H) A) (f : A → Action (World H) B)
        → Keeps held m
        → ((w : World H) (a : A) → held w ≡ before → (m w).0 ≡ ok a → Adds before (f a))
        → Adds before (m >>= f)
    unfolding ◌>>=◌
    Keeps-Adds m f km kf w h = continue-Adds (m w).0 f (m w).1 (km.same w ∙ h) (λ a e. kf w a h e)

    Keeps-continue :
        (r : Result A) (f : A → Action (World H) B)
        → ((a : A) → Keeps held (f a))
        → (w : World H) → held (continue r f w).1 ≡ held w
    Keeps-continue (ok a) f k w = (k a).same w
    Keeps-continue (err e) f k w = refl
    Keeps-continue panic f k w = refl

    -- A call that adds, and then one that adds nothing.
    Adds-Keeps :
        (m : Action (World H) A) (f : A → Action (World H) B)
        → Adds before m
        → ((a : A) → Keeps held (f a))
        → Adds before (m >>= f)
    unfolding ◌>>=◌
    Adds-Keeps m f am kf w h = rw (Keeps-continue (m w).0 f kf (m w).1) (am w h)

  held-on_engine :
      {A : Type 0} (m : Action H.engine.State A) → Keeps C.held m → Keeps held (on_engine H m)
  held-on_engine m k = record { same = λ w. k.same w.engine }

  held-on_files : {A : Type 0} (m : Action H.files.State A) → Keeps held (on_files H m)
  held-on_files m = record { same = λ w. refl }

  held-on_db : {A : Type 0} (m : Action H.database.Db A) → Keeps held (on_db H m)
  held-on_db m = record { same = λ w. refl }

  held-stat : (path : Str) → Keeps held (stat H path)
  held-stat path = record { same = λ w. refl }

  held-make_device_dir : (dir : Str) → Keeps held (make_device_dir H dir)
  unfolding make_device_dir
  held-make_device_dir dir = search (keeps, held-on_files, held-stat)

  get_next_cf_instance_number-eq :
      (w : World H) → get_next_cf_instance_number H w ≡ (next_number (held w), w)
  unfolding get_next_cf_instance_number ◌>>=◌
  get_next_cf_instance_number-eq w = rw (C.lists w.engine) refl

  held-get_next_cf_instance_number : Keeps held (get_next_cf_instance_number H)
  held-get_next_cf_instance_number = record {
    same = λ w. ap (λ (r : Result ℕ × World H). held r.1) (get_next_cf_instance_number-eq w);
  }

  container_create-Adds :
      (before : List Container) (n : ℕ) (name dir websockify adb : Str)
      → next_number before ≡ ok n
      → Adds before (
          wrap (text "ContainerCreate") (
            on_engine H (H.engine.container_create (create_config name dir n websockify adb) name)))
  container_create-Adds before n name dir websockify adb chosen w h =
      elim (C.creates (create_config name dir n websockify adb) name w.engine) [
        | inl same ↦ nothing (same ∙ h)
        | inr (c, added, labels) ↦
            one n c name dir websockify adb chosen (added ∙ ap (λ (l : List Container). c ∷ l) h)
              labels
      ]

  create_container-Adds :
      (before : List Container) (name dir : Str) → Adds before (create_container H name dir)
  unfolding create_container
  create_container-Adds before name dir =
      Keeps-Adds before _ _ (Keeps-wrap held _ _ held-get_next_cf_instance_number) (λ w n h e.
        let chosen : next_number before ≡ ok n =
          ap next_number (sym h)
          ∙ (ap (λ (r : Result ℕ × World H). r.0) (sym (get_next_cf_instance_number-eq w))
              ∙ wrap-inv _ (get_next_cf_instance_number H) w n e) in
        Keeps-Adds before _ _ (Keeps-lift held _) (λ w1 websockify h1 e1.
          Keeps-Adds before _ _ (Keeps-lift held _) (λ w2 adb h2 e2.
            Adds-Keeps before _ _ (container_create-Adds before n name dir websockify adb chosen)
              (λ id. search (keeps, held-on_engine, C.starts)))))

  -- The containers after `VMCreate`, whatever comes of it.
  pub vm_create-Added :
      (v : Vmm) (device : Str) (cpu ram : ℤ) (version cmdline : Str) (w : World H)
      → Added (held w) (held (vm_create H v device cpu ram version cmdline w).1)
  unfolding vm_create
  vm_create-Added v device cpu ram version cmdline w =
      Keeps-Adds (held w) _ _ (held-make_device_dir _)
        (λ u a h e.
          Adds-Keeps (held w) _ _ (create_container-Adds (held w) _ _)
            (λ id. search (keeps, held-on_db)))
        w refl
