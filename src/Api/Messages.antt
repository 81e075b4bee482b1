-- ===== src/Api/Messages.antt =====
-- api/api.go: the main WebSocket connection's requests, by their type.
pub mod Extends
pub mod Replies
pub mod Answered
use matrisea.Common.{
  ℕ, Str, text, Bool, true, false, List, [], ◌∷◌, ◌++◌, Result, ok, err, panic, Error, Action,
  ◌>>=◌, ◌>>◌, pure, crash, if◌then◌else◌,
}
use matrisea.Common.Int.{ℤ, pos}
use matrisea.Go.Strconv.{itoa}
use matrisea.Vmm.Host.{Vmm, Host, World}
use matrisea.Vmm.List.{VmItem, vm_list}
use matrisea.Vmm.Exec.{vm_install_apk}
use matrisea.Vmm.Start.{BootLog}
use matrisea.Api.Session.{
  WsMessageType, type_list_vm, type_create_vm, type_install_apk, type_create_vm_log, type_unknown,
  type_other, CreateVmRequest, InstallApkRequest, ResponseBody, no_body, list_vm_response,
  install_apk_response, ErrorMsg, plain, reason, WebSocketResponse, Session, send, on_world,
  ws_error,
}
use matrisea.Api.CreateVm.{ws_create_vm}
use matrisea.Api.Env.{cf_prefix}

-- What `encoding/json` gives for a message: the type (`WS_TYPE_LIST_VM`, the zero value, if it is
-- missing or malformed), and each of the two requests with whether its decoding failed. A request
-- whose decoding failed holds what had been decoded, and zero values.
pub record Incoming : Type 0 where
  pub type : WsMessageType
  pub create_req : CreateVmRequest
  pub create_failed : Bool
  pub install_req : InstallApkRequest

-- The number of a type.
abbrev pub type_number : WsMessageType → ℤ
type_number type_list_vm = pos 0
type_number type_create_vm = pos 1
type_number type_install_apk = pos 2
type_number type_create_vm_log = pos 3
type_number type_unknown = pos 4
type_number (type_other i) = i

abbrev pub list_response : List VmItem → WebSocketResponse
list_response vms = record {
  type = type_list_vm;
  body = list_vm_response vms;
  has_error = false;
  error_msg = plain [];
}

abbrev pub list_failed : Error → WebSocketResponse
list_failed e = record {
  type = type_list_vm;
  body = no_body;
  has_error = true;
  error_msg = reason (text "Failed to retrieve VM info due to ") e;
}

abbrev pub installed : InstallApkRequest → WebSocketResponse
installed req = record {
  type = type_install_apk;
  body = install_apk_response req.device_name req.file;
  has_error = false;
  error_msg = plain [];
}

module _ (H : Host) (v : Vmm) where
  -- After an error the handler goes on, with a nil list.
  abbrev list_or_report : Error → Action (Session H) (List VmItem)
  list_or_report e = send (list_failed e) >>= λ _. pure []

  unfoldable pub ws_list_vm : Action (Session H) (Unit {0})
  ws_list_vm = do vms ← on_world (vm_list H v) list_or_report; send (list_response vms)

  -- The error's own text is the message.
  abbrev after_install : InstallApkRequest → Result (Unit {0}) → Action (Session H) (Unit {0})
  after_install req (ok a) = send (installed req)
  after_install req (err e) = ws_error type_install_apk (reason [] e)
  after_install req panic = crash

  unfoldable pub ws_install_apk : InstallApkRequest → Action (Session H) (Unit {0})
  ws_install_apk req s =
      let (r, w) = vm_install_apk H v (cf_prefix ++ req.device_name) req.file s.world in
      after_install req r (record s { world = w })

  abbrev unknown_type : WsMessageType → Action (Session H) (Unit {0})
  unknown_type t =
      ws_error type_unknown (plain (text "Unknown websocket message type " ++ itoa (type_number t)))

  -- `wsMainPageHandler`. The log is the one that a creation's launcher gives.
  unfoldable pub ws_main_page_handler : Incoming → BootLog → Action (Session H) (Unit {0})
  ws_main_page_handler msg log = elim msg.type [
    | type_list_vm ↦ ws_list_vm
    | type_create_vm ↦ (do
      if msg.create_failed
          then ws_error type_create_vm (plain (text "Invalid message type"))
          else pure tt
      ws_create_vm H v msg.create_req log)
    | type_install_apk ↦ ws_install_apk msg.install_req
    | type_create_vm_log ↦ unknown_type type_create_vm_log
    | type_unknown ↦ unknown_type type_unknown
    | type_other i ↦ unknown_type (type_other i)
  ]
