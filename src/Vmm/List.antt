-- ===== src/Vmm/List.antt =====
-- vmm/vmm.go, `VMList` and the status that it derives for each container.
pub mod Items
pub mod Created
use matrisea.Common.{
  Str, text, Bool, true, false, Option, none, some, List, [], ◌∷◌, Result, ok, err, panic, wrapped,
  Action, ◌>>=◌, pure, lift, wrap, attempt, if◌then◌else◌,
}
use matrisea.Common.Int.{ℤ}
use matrisea.Go.Strings.{has_prefix, contains, split}
use matrisea.Go.Strconv.{itoa, atoi_value}
use matrisea.Docker.{Container, lookup}
use matrisea.Kvstore.{get_container_value_or_empty}
use matrisea.Vmm.Host.{
  Vmm, Host, World, default_network, config_key_device_name, config_key_cpu, config_key_ram,
  config_key_aosp_version, config_key_tags, config_key_cmdline,
}
use matrisea.Vmm.Find.{list_cuttlefish_containers}
use matrisea.Vmm.Exec.{ExecResult, container_exec}
use matrisea.Vmm.Remove.{first_name}

pub data VmStatus : Type 0 where
  ready running container_error : VmStatus

pub record VmItem : Type 0 where
  pub id : Str
  pub name : Str
  pub created : Str
  pub device : Str
  pub ip : Str
  pub status : VmStatus
  pub tags : List Str
  pub cf_instance : Str
  pub cpu : ℤ
  pub ram : ℤ
  pub os_version : Str
  pub cmdline : Str

-- The answer of `ps`, if it came before the deadline.
abbrev status_of : Bool → Result ExecResult → Result VmStatus
status_of true answer = ok ready
status_of false (ok resp) =
    if contains resp.out_buffer (text "launch_cvd") then ok running else ok ready
status_of false (err e) = err (wrapped (text "getVMStatus failed to top") e)
status_of false panic = panic

-- A missing entry of a Go map reads as the zero value.
abbrev or_zero : Option Str → Str
or_zero none = []
or_zero (some s) = s

module _ (H : Host) where
  -- Whether the context ended first.
  abbrev pub late_answer : Action (World H) Bool
  late_answer w = (ok (H.engine.deadline_passed w.engine), w)

  unfoldable pub get_vm_status : Container → Action (World H) VmStatus
  get_vm_status c = do
    container_name ← lift (first_name c.names)
    if has_prefix c.status (text "Up")
        then (do
          answer ← attempt (
              container_exec H container_name (text "ps aux|grep \"[l]aunch_cvd\"")
                (text "vsoc-01"))
          late ← late_answer
          lift (status_of late answer))
        else pure container_error

  -- `c.NetworkSettings.Networks[DefaultNetwork].IPAddress` goes through a nil pointer if the
  -- container is not in that network.
  abbrev pub bridge_ip : Option Str → Result Str
  bridge_ip none = panic
  bridge_ip (some ip) = ok ip

  -- The element that the loop appends, from the address.
  abbrev pub item_of : Container → Str → VmStatus → H.database.Db → Str → VmItem
  item_of c container_name status db ip =
      let value = λ (key : Str). get_container_value_or_empty H.database container_name key db in
      record {
        id = c.id;
        name = value config_key_device_name;
        created = itoa c.created;
        device = [];
        ip = ip;
        status = status;
        tags = split b',' (value config_key_tags);
        cf_instance = or_zero (lookup (text "cf_instance") c.labels);
        cpu = atoi_value (value config_key_cpu);
        ram = atoi_value (value config_key_ram);
        os_version = value config_key_aosp_version;
        cmdline = value config_key_cmdline;
      }

  abbrev pub with_ip : (Str → VmItem) → Result Str → Result VmItem
  with_ip f (ok ip) = ok (f ip)
  with_ip f (err e) = err e
  with_ip f panic = panic

  unfoldable pub vm_item : Container → Str → VmStatus → H.database.Db → Result VmItem
  vm_item c container_name status db =
      with_ip (item_of c container_name status db) (bridge_ip (lookup default_network c.networks))

  abbrev pub append_item : Container → Str → VmStatus → Action (World H) VmItem
  append_item c container_name status w = (vm_item c container_name status w.db, w)

  unfoldable pub list_items : List Container → Action (World H) (List VmItem)
  list_items [] = pure []
  list_items (c ∷ cs) = do
    status ← wrap (text "getVMStatus") (get_vm_status c)
    container_name ← lift (first_name c.names)
    item ← append_item c container_name status
    items ← list_items cs
    pure (item ∷ items)

module _ (H : Host) (v : Vmm) where
  unfoldable pub vm_list : Action (World H) (List VmItem)
  vm_list = do
    cf_list ← wrap (text "listCuttlefishContainers") (list_cuttlefish_containers H v)
    list_items H cf_list
