-- ===== src/Api/Session.antt =====
-- api/api.go: the messages of the main WebSocket connection, and the responses that a handler sends.
use matrisea.Common.{
  Str, text, Bool, true, false, List, [], ◌∷◌, ◌++◌, Result, ok, err, panic, Error, message, Action,
}
use matrisea.Common.Int.{ℤ}
use matrisea.Vmm.Host.{Host, World}
use matrisea.Vmm.List.{VmItem}

-- `CreateVMStep`
pub data CreateVmStep : Type 0 where
  step_start step_preflight_checks step_create_vm step_load_images step_start_vm : CreateVmStep

-- `WsMessageType`: the named constants, by their numbers 0 to 4, and any other number.
pub data WsMessageType : Type 0 where
  type_list_vm type_create_vm type_install_apk type_create_vm_log type_unknown : WsMessageType
  type_other : ℤ → WsMessageType

pub record CreateVmRequest : Type 0 where
  pub device_name : Str
  pub device_type : Str
  pub cpu : ℤ
  pub ram : ℤ
  pub system_image : Str
  pub cvd_image : Str
  pub kernel_image : Str
  pub aosp_version : Str
  pub cmdline : Str

pub record InstallApkRequest : Type 0 where
  pub device_name : Str
  pub file : Str

-- `ResponseBody`, nil for a response that has none.
pub data ResponseBody : Type 0 where
  no_body : ResponseBody
  create_vm_response : CreateVmStep → ResponseBody
  list_vm_response : List VmItem → ResponseBody
  install_apk_response : Str → Str → ResponseBody
  create_vm_log_response : Str → ResponseBody

-- A text of the source, alone or followed by `err.Error()`.
pub data ErrorMsg : Type 0 where
  plain : Str → ErrorMsg
  reason : Str → Error → ErrorMsg

pub record WebSocketResponse : Type 0 where
  pub type : WsMessageType
  pub body : ResponseBody
  pub has_error : Bool
  pub error_msg : ErrorMsg

-- The world, and what has been sent to the connection's channel, in order.
pub record Session (H : Host) : Type 0 where
  pub world : World H
  pub sent : List WebSocketResponse

-- A handler is an action on the session. Its error only says that it has returned before its end.
abbrev pub returned : Error
returned = message (text "return")

module _ {H : Host} where
  -- `c.send <- response`
  unfoldable pub send : WebSocketResponse → Action (Session H) (Unit {0})
  send r s = (ok tt, record s { sent = s.sent ++ (r ∷ []) })

  unfoldable pub stop : {A : Type 0} → Action (Session H) A
  stop s = (err returned, s)

  abbrev pub settled :
      {A : Type 0} → Result A → (Error → Action (Session H) A) → Action (Session H) A
  settled (ok a) h s = (ok a, s)
  settled (err e) h s = h e s
  settled panic h s = (panic, s)

  -- A call of the manager, and what the handler does with its error.
  unfoldable pub on_world :
      {A : Type 0} → Action (World H) A → (Error → Action (Session H) A) → Action (Session H) A
  on_world m h s = let (r, w) = m s.world in settled r h (record s { world = w })

  -- `wsError`
  unfoldable pub ws_error : WsMessageType → ErrorMsg → Action (Session H) (Unit {0})
  ws_error t msg = send (record { type = t; body = no_body; has_error = true; error_msg = msg })

  -- `wsCreateVMCompleteStep`
  unfoldable pub ws_create_vm_complete_step : CreateVmStep → Action (Session H) (Unit {0})
  ws_create_vm_complete_step step = send (record {
    type = type_create_vm;
    body = create_vm_response step;
    has_error = false;
    error_msg = plain [];
  })

  -- `wsCreateVMFailStep`
  unfoldable pub ws_create_vm_fail_step : CreateVmStep → ErrorMsg → Action (Session H) (Unit {0})
  ws_create_vm_fail_step step msg = send (record {
    type = type_create_vm;
    body = create_vm_response step;
    has_error = true;
    error_msg = msg;
  })

  -- `wsCreateVMLog`
  unfoldable pub ws_create_vm_log : Str → Action (Session H) (Unit {0})
  ws_create_vm_log lines = send (record {
    type = type_create_vm_log;
    body = create_vm_log_response lines;
    has_error = false;
    error_msg = plain [];
  })
