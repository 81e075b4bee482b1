-- ===== src/Api/Messages/Replies.antt =====
-- How many messages a request gets for an answer.
use matrisea.Common.{
  ◌≡◌, refl, List, [], ◌∷◌, ◌++◌, Result, ok, err, panic, continue, sym, ◌>>=◌, pure,
}
use mathlib.Core.List.{append-nil, append_assoc}
use matrisea.Vmm.Host.{Vmm, Host}
use matrisea.Vmm.List.{VmItem, vm_list}
use matrisea.Api.Session.{WebSocketResponse, Session, send, settled, on_world}
use matrisea.Api.Messages.{list_response, list_failed, ws_list_vm}

-- What a request for the list is answered, by the outcome of `VMList`.
abbrev pub list_replies : Result (List VmItem) → List WebSocketResponse
list_replies (ok vms) = list_response vms ∷ []
list_replies (err e) = list_failed e ∷ list_response [] ∷ []
list_replies panic = []

module _ (H : Host) (v : Vmm) where
  listed_then_sent :
      (r : Result (List VmItem)) (s : Session H)
      → (continue
          (settled r (λ e. send (list_failed e) >>= λ _. pure []) s).0
          (λ vms. send (list_response vms))
          (settled r (λ e. send (list_failed e) >>= λ _. pure []) s).1).1.sent
        ≡ s.sent ++ list_replies r
  unfolding send ◌>>=◌
  listed_then_sent (ok vms) s = refl
  listed_then_sent (err e) s = append_assoc s.sent (list_failed e ∷ []) (list_response [] ∷ [])
  listed_then_sent panic s = sym (append-nil s.sent)

  -- A request for the list of VMs is answered with the list if VMList gives one, but with two
  -- messages if it fails: the error, and then an empty list that says nothing of it.
  pub sent-ws_list_vm :
      (s : Session H) → (ws_list_vm H v s).1.sent ≡ s.sent ++ list_replies (vm_list H v s.world).0
  unfolding ws_list_vm on_world ◌>>=◌
  sent-ws_list_vm s =
      listed_then_sent (vm_list H v s.world).0 (record s { world = (vm_list H v s.world).1 })
