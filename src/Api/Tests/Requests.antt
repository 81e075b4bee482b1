-- ===== src/Api/Tests/Requests.antt =====
-- Runs of the HTTP handlers and of the main connection, and the theorems at them.
use matrisea.Common.{
  ap, ◌∙◌, arith, inl, true, false, Str, text, str_eq, ◌≡◌, ◌⊎◌, refl, none, some, List, [], ◌∷◌,
  ◌++◌, ok, ◌>>=◌, if◌then◌else◌,
}
use matrisea.Common.Int.{pos}
use matrisea.Go.Strings.{has_prefix, contains, split}
use matrisea.Go.Strconv.{atoi_value, itoa}
use matrisea.Docker.{lookup}
use matrisea.Kvstore.{put_container_value, get_container_value_or_empty}
use matrisea.Kvstore.Memory.{memory-IsLawful, create_in}
use matrisea.Kvstore.Bolt.{path_eq}
use matrisea.Kvstore.Values.{stored}
use matrisea.Vmm.Host.{config_key_cmdline}
use matrisea.Vmm.Find.{
  managed, is_target, has_target, find_id, list_cuttlefish_containers, get_container_id_by_name,
  is_managed_container, is_managed_running_container,
}
use matrisea.Vmm.Exec.{container_exec}
use matrisea.Vmm.List.{VmItem, ready, vm_list, list_items, get_vm_status, vm_item}
use matrisea.Vmm.List.Items.{ShowsAll, vm_list-ShowsAll}
use matrisea.Vmm.Start.{BootLog}
use matrisea.Api.Messages.{Incoming, ws_main_page_handler}
use matrisea.Api.Network.{
  NetInterface, addresses, has_any_prefix, add_addresses, collect_lan_ips, get_connection_ips,
}
use matrisea.Api.Network.Lan.{IsLanOf, get_connection_ips-IsLanOf}
use matrisea.Docker.{Container}
use matrisea.Vmm.Transfer.{container_update_config}
use matrisea.Vmm.Tests.Sample.{host, manager, host-AreQueries, only}
use matrisea.Api.Session.{Session, WebSocketResponse, type_list_vm}
use matrisea.Api.Messages.{list_response}
use matrisea.Api.Messages.Replies.{list_replies, sent-ws_list_vm}
use matrisea.Api.Websocket.{
  Pumps, opened, set_messages, set_message_handler, main_page, ws_handler, read_message,
  write_message, PumpReach, here, next,
}
use matrisea.Api.Websocket.Ordered.{given, IsInOrder, PumpReach-IsInOrder}
use matrisea.Api.Env.{cf_prefix}
use matrisea.Api.Handlers.{vm_body, message_ok, vm_response, get_vm, update_vm_config}
use matrisea.Api.Handlers.Lookup.{Listed, IsUnknown, get_vm-Listed}
use matrisea.Api.Handlers.Config.{update_vm_config-stored}

abbrev listed : List VmItem
listed =
    record {
      id = text "id-0000000a";
      name = [];
      created = text "1";
      device = [];
      ip = text "172.17.0.2";
      status = ready;
      tags = [] ∷ [];
      cf_instance = text "1";
      cpu = pos 0;
      ram = pos 0;
      os_version = [];
      cmdline = [];
    }
    ∷ []

list-only : (vm_list host manager only).0 ≡ ok listed
unfolding vm_list list_items get_vm_status vm_item ◌>>=◌ list_cuttlefish_containers managed
    has_prefix text container_exec contains lookup str_eq get_container_value_or_empty itoa split
    atoi_value
list-only = refl

get_vm-Listed_example :
    ((vm : VmItem) × ((get_vm host manager (text "b") only).0
        ≡ ok (record { status = 200; body = vm_body vm }))
      × Listed vm listed
      × (vm.name ≡ text "b"))
    ⊎ (((get_vm host manager (text "b") only).0 ≡ ok (vm_response none))
        × IsUnknown (text "b") listed)
get_vm-Listed_example = get_vm-Listed host manager (text "b") only listed list-only

update-ok :
    (update_vm_config host manager (text "a") (some config_key_cmdline) (text "-x") only).0
    ≡ ok message_ok
unfolding update_vm_config container_update_config put_container_value create_in path_eq str_eq text
    ◌>>=◌ managed is_target has_target find_id list_cuttlefish_containers get_container_id_by_name
    is_managed_container is_managed_running_container has_prefix contains
update-ok = refl

update_vm_config-stored_example :
    (some config_key_cmdline ≡ some config_key_cmdline)
    × ((d k : Str)
        → stored host.database d k
            (update_vm_config host manager
              (text "a")
              (some config_key_cmdline)
              (text "-x")
              only).1.db
          ≡ (if str_eq (cf_prefix ++ text "a") d
              then if str_eq config_key_cmdline k
                then some (text "-x")
                else stored host.database d k only.db
              else stored host.database d k only.db))
update_vm_config-stored_example =
    update_vm_config-stored host manager (text "a") only host-AreQueries memory-IsLawful
      (some config_key_cmdline) (text "-x") update-ok

abbrev connected : Session host
connected = record { world = only; sent = [] }

vm_list-ShowsAll_example :
    (cs : List Container) × (ms : List Container) × ((host.engine.container_list only.engine).0
      ≡ ok cs)
    × (managed manager cs ≡ ok ms)
    × ShowsAll host only.db ms listed
vm_list-ShowsAll_example = vm_list-ShowsAll host manager only listed list-only

abbrev list_request : Incoming
list_request = record {
  type = type_list_vm;
  create_req = record {
    device_name = [];
    device_type = [];
    cpu = pos 0;
    ram = pos 0;
    system_image = [];
    cvd_image = [];
    kernel_image = [];
    aosp_version = [];
    cmdline = [];
  };
  create_failed = false;
  install_req = record { device_name = []; file = [] };
}

abbrev no_log : BootLog
no_log = record { events = []; late = [] }

abbrev lan_ip : Str
lan_ip = text "192.168.1.5"

abbrev interfaces : List NetInterface
interfaces =
    record {
      name = text "docker0";
      addrs = ok (ok (record { ip = text "172.17.0.1"; is_v4 = true; is_private = true }) ∷ []);
    }
    ∷ record {
      name = text "eth0";
      addrs = ok (ok (record { ip = lan_ip; is_v4 = true; is_private = true }) ∷ []);
    }
    ∷ []

ips-interfaces :
    get_connection_ips (ok interfaces) true (ok (text "100.64.0.1\n"))
    ≡ ok (addresses (lan_ip ∷ []) (text "100.64.0.1"))
unfolding get_connection_ips collect_lan_ips add_addresses has_any_prefix has_prefix split text
ips-interfaces = refl

get_connection_ips-IsLanOf_example :
    (is : List NetInterface) × (ok interfaces ≡ ok is) × IsLanOf lan_ip is
get_connection_ips-IsLanOf_example =
    get_connection_ips-IsLanOf (ok interfaces) true (ok (text "100.64.0.1\n")) (lan_ip ∷ [])
      (text "100.64.0.1") ips-interfaces lan_ip (inl refl)

abbrev reply : WebSocketResponse
reply = list_response listed

replied :
    (ws_main_page_handler host manager list_request no_log connected).1.sent
    ≡ connected.sent ++ (reply ∷ [])
unfolding ws_main_page_handler
replied = sent-ws_list_vm host manager connected ∙ ap list_replies list-only

abbrev asked : Pumps
asked = record opened { to_send = set_messages opened.to_send 0 (reply ∷ []) }

abbrev answered : Pumps
answered = record asked {
  to_send = set_messages asked.to_send 0 [];
  written = [] ++ ((0, reply) ∷ []);
}

-- One request for the list of VMs, and its answer on the wire.
abbrev exchange : PumpReach (ws_handler host manager (λ m. list_request)) opened answered
unfolding ws_handler set_message_handler main_page
exchange =
    next
      (next here
        (read_message 0 [] (reply ∷ []) refl refl (omega arith) (connected, no_log, replied) refl))
      (write_message 0 reply [] refl refl refl refl)

PumpReach-IsInOrder_example :
    IsInOrder 0 (given (ws_handler host manager (λ m. list_request)) exchange 0) answered
PumpReach-IsInOrder_example =
    PumpReach-IsInOrder (ws_handler host manager (λ m. list_request)) answered exchange 0
