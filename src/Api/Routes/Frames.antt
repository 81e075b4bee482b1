-- ===== src/Api/Routes/Frames.antt =====
-- What the requests that only ask leave alone: the host's files and the configuration store.
use matrisea.Common.{
  Str, ◌≡◌, refl, ◌∙◌, ok, err, panic, Result, Action, Bool, true, false, if◌then◌else◌, List, [],
}
use matrisea.Common.Keeps.{Keeps, Keeps-catch, Keeps-pure, Keeps-bind, Keeps-lift, keeps}
use matrisea.Vmm.Host.{Vmm, Host, World}
use matrisea.Vmm.Frames.{
  IsBeside, Keeps-vm_list, Keeps-vm_launch, Keeps-vm_stop, Keeps-start_adb_daemon,
  Keeps-container_list_files, Keeps-container_read_file,
}
use matrisea.Vmm.Start.{vm_start, launched, outcome}
use matrisea.Api.Handlers.{
  Response, respond, get_vm, start_vm, stop_vm, get_files_in_folder, get_system_image_list,
  get_cvd_image_list, get_apk_file_list, get_workspace_file_list, download_workspace_file,
}
use matrisea.Api.Socket.{Attached}
use matrisea.Api.Routes.Streams.{Keeps-terminal_handler, Keeps-log_stream_handler}
use matrisea.Api.Routes.{
  answered, attach, get, Route, vm, start, stop, upload, apks, dir, workspace_files, config, remove,
  system_images, cvd_images, upload_image, ips, main_ws, terminal_ws, log_ws, method_of, Request,
  Surroundings, Reply, not_upgraded, serve,
}

module _ (H : Host) (v : Vmm) {V : Type 0} (view : World H → V) where
  pub Keeps-respond :
      {A : Type 0} (f : Result A → Result Response) (m : Action (World H) A)
      → Keeps view m
      → Keeps view (respond H v f m)
  Keeps-respond f m h = record { same = h.same }

module _ (H : Host) (v : Vmm) {V : Type 0} (view : World H → V) (B : IsBeside H view) where
  pub Keeps-get_vm : (name : Str) → Keeps view (get_vm H v name)
  unfolding get_vm
  Keeps-get_vm name = record { same = (Keeps-vm_list H v view B).same }

  pub Keeps-stop_vm : (name : Str) → Keeps view (stop_vm H v name)
  unfolding stop_vm
  Keeps-stop_vm name = record { same = (Keeps-vm_stop H v view B _).same }

  launched-view :
      (name : Str) (r : Result (Unit {0})) (w : World H)
      → view (launched H v name (outcome H v true []) [] r w).returned.1 ≡ view w
  launched-view name (ok a) w =
      (Keeps-catch view _ _ (Keeps-start_adb_daemon H v view B name) (λ e. Keeps-pure view tt)).same
        w
  launched-view name (err e) w = refl
  launched-view name panic w = refl

  pub Keeps-start_vm : (name : Str) → Keeps view (start_vm H v name)
  unfolding start_vm vm_start
  Keeps-start_vm name = record {
    same = λ w. launched-view _ _ _ ∙ (Keeps-vm_launch H v view B _).same w;
  }

  pub Keeps-get_workspace_file_list :
      (name p : Str) → Keeps view (get_workspace_file_list H v name p)
  unfolding get_workspace_file_list
  Keeps-get_workspace_file_list name p =
      search (keeps, Keeps-respond H v view, Keeps-container_list_files H v view B)

  pub Keeps-download_workspace_file :
      (first : Str → Result Str) (name p : Str)
      → Keeps view (download_workspace_file H v first name p)
  unfolding download_workspace_file
  Keeps-download_workspace_file first name p =
      search (keeps, Keeps-respond H v view, Keeps-container_read_file H v view B)

  pub Keeps-get_files_in_folder :
      (walk : Str → H.files.State → List Str) (extension folder : Str)
      → Keeps view (get_files_in_folder H v walk extension folder)
  unfolding get_files_in_folder
  Keeps-get_files_in_folder walk extension folder = B.whole _ _

  Keeps-attached :
      (e : Surroundings H) (b : Bool) (r : Result Reply) (w u : World H)
      → view u ≡ view w
      → view (if◌then◌else◌ {A = Result Reply × World H} b (r, u) (ok not_upgraded, w)).1 ≡ view w
  Keeps-attached e true r w u h = h
  Keeps-attached e false r w u h = refl

  Keeps-attach :
      (e : Surroundings H) (m : Action (Attached H e.socket) (Unit {0}))
      → Keeps (λ (s : Attached H e.socket). view s.world) m
      → Keeps view (attach H v e m)
  unfolding attach
  Keeps-attach e m h = record { same = λ w. Keeps-attached e e.upgrades _ w _ (h.same _) }

  pub Keeps-answered :
      (e : Surroundings H) (m : Action (World H) Response)
      → Keeps view m
      → Keeps view (answered H v e m)
  Keeps-answered e m h = Keeps-bind view m _ h (λ r. Keeps-pure view _)

  -- The two handlers that attach a client to a process.
  pub Keeps-serve_terminal_ws :
      (e : Surroundings H) (q : Request) → Keeps view (serve H v e terminal_ws q)
  unfolding serve
  Keeps-serve_terminal_ws e q =
      Keeps-attach e _ (Keeps-terminal_handler H e.socket v view B e.error_text q.name e.client)

  pub Keeps-serve_log_ws : (e : Surroundings H) (q : Request) → Keeps view (serve H v e log_ws q)
  unfolding serve
  Keeps-serve_log_ws e q =
      Keeps-attach e _
        (Keeps-log_stream_handler H e.socket v view B e.error_text e.client q.name q.source)

  -- A request of method GET keeps what is beside the engine.
  pub Keeps-serve_get :
      (e : Surroundings H) (r : Route) (q : Request)
      → method_of r ≡ get
      → Keeps view (serve H v e r q)
  unfolding serve method_of
  Keeps-serve_get e vm q h = Keeps-answered e _ (Keeps-get_vm q.name)
  Keeps-serve_get e start q h = absurd (cc)
  Keeps-serve_get e stop q h = absurd (cc)
  Keeps-serve_get e upload q h = absurd (cc)
  Keeps-serve_get e apks q h =
      Keeps-answered e _ (unfold get_apk_file_list in Keeps-get_files_in_folder e.walk _ _)
  Keeps-serve_get e dir q h = Keeps-answered e _ (Keeps-get_workspace_file_list q.name q.path)
  Keeps-serve_get e workspace_files q h =
      Keeps-answered e _ (Keeps-download_workspace_file e.first_entry q.name q.path)
  Keeps-serve_get e config q h = absurd (cc)
  Keeps-serve_get e remove q h = absurd (cc)
  Keeps-serve_get e system_images q h =
      Keeps-answered e _ (unfold get_system_image_list in Keeps-get_files_in_folder e.walk _ _)
  Keeps-serve_get e cvd_images q h =
      Keeps-answered e _ (unfold get_cvd_image_list in Keeps-get_files_in_folder e.walk _ _)
  Keeps-serve_get e upload_image q h = absurd (cc)
  Keeps-serve_get e ips q h = Keeps-answered e _ (Keeps-lift view _)
  Keeps-serve_get e main_ws q h = Keeps-pure view _
  Keeps-serve_get e terminal_ws q h = Keeps-serve_terminal_ws e q
  Keeps-serve_get e log_ws q h = Keeps-serve_log_ws e q
