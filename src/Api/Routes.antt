-- ===== src/Api/Routes.antt =====
-- api/api.go, `main`: the routes, each with its handler, and the life of the server.
pub mod Streams
pub mod Frames
pub mod Isolated
use matrisea.Common.{
  Error, err, panic, if◌then◌else◌, Str, text, Bool, Option, List, Result, ok, Action, ◌>>=◌, ◌>>◌,
  pure, lift,
}
use matrisea.Vmm.Host.{Vmm, Host, World}
use matrisea.Vmm.Setup.{new_vmm, close}
use matrisea.Api.Env.{getenv}
use matrisea.Api.Handlers.{
  Response, get_vm, start_vm, stop_vm, remove_vm, update_vm_config, get_system_image_list,
  get_cvd_image_list, get_apk_file_list, upload_image_file, upload_device_file,
  get_workspace_file_list, download_workspace_file,
}
use matrisea.Api.Socket.{Socket, Attached}
use matrisea.Api.Logstream.{ClientMessage, log_stream_handler}
use matrisea.Api.Terminal.{terminal_handler}
use matrisea.Api.Network.{NetInterface, get_connection_ips}

pub data Method : Type 0 where
  get post delete : Method

-- The routes under /api/v1, by the ends of their patterns; the last three are those of WebSockets.
pub data Route : Type 0 where
  vm start stop upload apks dir workspace_files config remove : Route
  system_images cvd_images upload_image ips : Route
  main_ws terminal_ws log_ws : Route

unfoldable pub method_of : Route → Method
method_of vm = get
method_of start = post
method_of stop = post
method_of upload = post
method_of apks = get
method_of dir = get
method_of workspace_files = get
method_of config = post
method_of remove = delete
method_of system_images = get
method_of cvd_images = get
method_of upload_image = post
method_of ips = get
method_of main_ws = get
method_of terminal_ws = get
method_of log_ws = get

unfoldable pub pattern_of : Route → Str
pattern_of vm = text "/api/v1/vms/:name"
pattern_of start = text "/api/v1/vms/:name/start"
pattern_of stop = text "/api/v1/vms/:name/stop"
pattern_of upload = text "/api/v1/vms/:name/upload"
pattern_of apks = text "/api/v1/vms/:name/apks"
pattern_of dir = text "/api/v1/vms/:name/dir"
pattern_of workspace_files = text "/api/v1/vms/:name/files"
pattern_of config = text "/api/v1/vms/:name/config"
pattern_of remove = text "/api/v1/vms/:name"
pattern_of system_images = text "/api/v1/files/system"
pattern_of cvd_images = text "/api/v1/files/cvd"
pattern_of upload_image = text "/api/v1/files/upload"
pattern_of ips = text "/api/v1/ips"
pattern_of main_ws = text "/api/v1/ws"
pattern_of terminal_ws = text "/api/v1/vms/:name/ws"
pattern_of log_ws = text "/api/v1/vms/:name/log/:source"

-- What the handlers read of a request: the parameters `name` and `source`, the query `path`, the key and the value
-- of a configuration, and the name of the uploaded file.
pub record Request : Type 0 where
  pub name : Str
  pub source : Str
  pub path : Str
  pub key : Option Str
  pub value : Str
  pub file : Option Str

-- What the handlers use beside the manager: `filepath.Walk`, `SaveUploadedFile`, the first entry of an
-- archive, `net.Interfaces`, and the two calls of `tailscale`; and, for a WebSocket, whether the upgrade
-- succeeds, the connections to the client and to a process, and the client's messages.
pub record Surroundings (H : Host) : Type 1 where
  pub walk : Str → H.files.State → List Str
  pub save_uploaded : Str → Action H.files.State (Unit {0})
  pub first_entry : Str → Result Str
  pub interfaces : Result (List NetInterface)
  pub installed : Bool
  pub tailscale_ip : Result Str
  pub upgrades : Bool
  pub socket : Socket
  pub conn : socket.State
  pub input : socket.Input
  pub client : List ClientMessage
  pub error_text : Error → Str

-- What a request comes to: an answer, or a WebSocket, or neither where the upgrade has failed.
pub data Reply : Type 0 where
  answer : Response → Reply
  upgraded not_upgraded : Reply

module _ (H : Host) (v : Vmm) (e : Surroundings H) where
  abbrev pub answered : Action (World H) Response → Action (World H) Reply
  answered m = m >>= λ r. pure (answer r)

  -- The life of a WebSocket, from the upgrade to the return of its handler.
  abbrev pub attached_reply : Result (Unit {0}) → Result Reply
  attached_reply panic = panic
  attached_reply _ = ok upgraded

  unfoldable pub attach : Action (Attached H e.socket) (Unit {0}) → Action (World H) Reply
  attach m w =
      let (r, s) = m (record { world = w; conn = e.conn; input = e.input }) in
      if e.upgrades then (attached_reply r, s.world) else (ok not_upgraded, w)

  -- `wsHandler` starts the pumps and returns: what comes over the main connection then is in
  -- `Api.Websocket` and `Api.Messages`.
  unfoldable pub serve : Route → Request → Action (World H) Reply
  serve main_ws q = pure (if e.upgrades then upgraded else not_upgraded)
  serve terminal_ws q = attach (terminal_handler H e.socket v e.error_text q.name e.client)
  serve log_ws q = attach (log_stream_handler H e.socket e.error_text v e.client q.name q.source)
  serve vm q = answered (get_vm H v q.name)
  serve start q = answered (start_vm H v q.name)
  serve stop q = answered (stop_vm H v q.name)
  serve upload q = answered (upload_device_file H v e.save_uploaded q.name q.file)
  serve apks q = answered (get_apk_file_list H v e.walk q.name)
  serve dir q = answered (get_workspace_file_list H v q.name q.path)
  serve workspace_files q = answered (download_workspace_file H v e.first_entry q.name q.path)
  serve config q = answered (update_vm_config H v q.name q.key q.value)
  serve remove q = answered (remove_vm H v q.name)
  serve system_images q = answered (get_system_image_list H v e.walk)
  serve cvd_images q = answered (get_cvd_image_list H v e.walk)
  serve upload_image q = answered (upload_image_file H v e.save_uploaded q.file)
  serve ips q = answered (lift (get_connection_ips e.interfaces e.installed e.tailscale_ip))

module _ (H : Host) (open_db : Str → Action (World H) (Unit {0})) where
  -- `main`, on the value of `DATA_DIR`: the server runs on the manager, and closes it.
  unfoldable pub run_server :
      (Vmm → Action (World H) (Unit {0}))
      → Action (World H) (Unit {0})
      → Str
      → Action (World H) (Unit {0})
  run_server router_run close_db data_dir_value = do
    v ← new_vmm H open_db (getenv data_dir_value (text "/data"))
    router_run v
    close H close_db
