-- ===== src/Api/Messages/Answered.antt =====
-- Every request of the main connection is answered.
use matrisea.Common.{◌≡◌, List, ◌++◌, panic}
use matrisea.Vmm.Host.{Vmm, Host, World}
use matrisea.Vmm.Exec.{vm_install_apk}
use matrisea.Api.Env.{cf_prefix}
use matrisea.Vmm.List.{vm_list}
use matrisea.Api.Session.{
  WsMessageType, type_list_vm, type_create_vm, type_install_apk, type_create_vm_log, type_unknown,
  type_other, Session,
}
use matrisea.Api.Messages.{Incoming}
use matrisea.Api.Messages.Extends.{Extends}

module _ (H : Host) (v : Vmm) where
  -- The one call of the manager that stands before the first message of an answer, and its panic.
  abbrev pub CallPanics : Incoming → WsMessageType → World H → Type 0
  CallPanics msg type_list_vm w = (vm_list H v w).0 ≡ panic
  CallPanics msg type_install_apk w =
      (vm_install_apk H v (cf_prefix ++ msg.install_req.device_name) msg.install_req.file w).0
      ≡ panic
  CallPanics msg type_create_vm w = ⊥
  CallPanics msg type_create_vm_log w = ⊥
  CallPanics msg type_unknown w = ⊥
  CallPanics msg (type_other i) w = ⊥
