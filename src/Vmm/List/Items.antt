-- ===== src/Vmm/List/Items.antt =====
-- The list of VMs shows what the engine lists and what the store holds.
use matrisea.Common.{
  Str, text, ◌≡◌, refl, ap, none, some, List, [], ◌∷◌, Result, ok, err, panic, lift, arith,
}
use matrisea.Common.Steps.{bind-inv_next, wrap-inv}
use matrisea.Go.Strconv.{atoi_value}
use matrisea.Docker.{Container, lookup}
use matrisea.Kvstore.{get_container_value_or_empty}
use matrisea.Kvstore.Values.{stored}
use matrisea.Vmm.Host.{
  Vmm, Host, World, on_engine, default_network, config_key_device_name, config_key_cpu,
  config_key_ram, config_key_aosp_version, config_key_cmdline,
}
use matrisea.Vmm.Find.{managed, list_cuttlefish_containers}
use matrisea.Vmm.Remove.{first_name}
use matrisea.Vmm.Frames.{db-IsBeside, Keeps-get_vm_status, Keeps-list_cuttlefish_containers}
use matrisea.Vmm.List.{VmStatus, VmItem, bridge_ip, item_of, with_ip, vm_item, list_items, vm_list}

module _ (H : Host) where
  -- The stored value of a key, and the empty string for none.
  abbrev pub value_or_empty : Str → Str → H.database.Db → Str
  value_or_empty name key db = elim (stored H.database name key db) [ none ↦ [] | some s ↦ s ]

  get_container_value_or_empty-eq :
      (name key : Str) (db : H.database.Db)
      → get_container_value_or_empty H.database name key db ≡ value_or_empty name key db
  unfolding get_container_value_or_empty
  get_container_value_or_empty-eq name key db = ground arith

  -- An item with a container's identifier, and what the store holds for the container.
  pub record Shows (db : H.database.Db) (c : Container) (item : VmItem) : Type 0 where
    pub name : Str
    pub named : first_name c.names ≡ ok name
    pub same_id : item.id ≡ c.id
    pub device : item.name ≡ value_or_empty name config_key_device_name db
    pub cpu : item.cpu ≡ atoi_value (value_or_empty name config_key_cpu db)
    pub ram : item.ram ≡ atoi_value (value_or_empty name config_key_ram db)
    pub version : item.os_version ≡ value_or_empty name config_key_aosp_version db
    pub cmdline : item.cmdline ≡ value_or_empty name config_key_cmdline db

  abbrev pub ShowsAll : H.database.Db → List Container → List VmItem → Type 0
  ShowsAll db [] [] = Unit
  ShowsAll db (c ∷ cs) (item ∷ items) = Shows db c item × ShowsAll db cs items
  ShowsAll db _ _ = ⊥

  with_ip-inv :
      (f : Str → VmItem) (r : Result Str) (item : VmItem)
      → with_ip H f r ≡ ok item
      → (ip : Str) × (f ip ≡ item)
  with_ip-inv f (ok ip) item h = (ip, ground arith)
  with_ip-inv f (err e) item h = absurd (cc)
  with_ip-inv f panic item h = absurd (cc)

  vm_item-Shows :
      (c : Container) (name : Str) (status : VmStatus) (db : H.database.Db) (item : VmItem)
      → first_name c.names ≡ ok name
      → vm_item H c name status db ≡ ok item
      → Shows db c item
  unfolding vm_item
  vm_item-Shows c name status db item named h =
      let (ip, e) =
        with_ip-inv (item_of H c name status db) (bridge_ip H (lookup default_network c.networks))
          item h in
      let value = λ (key : Str). get_container_value_or_empty-eq name key db in
      rw (← e) (record {
        name = name;
        named = named;
        same_id = refl;
        device = value config_key_device_name;
        cpu = ap atoi_value (value config_key_cpu);
        ram = ap atoi_value (value config_key_ram);
        version = value config_key_aosp_version;
        cmdline = value config_key_cmdline;
      })

  list_items-ShowsAll :
      (cs : List Container) (w : World H) (items : List VmItem)
      → (list_items H cs w).0 ≡ ok items
      → ShowsAll w.db cs items
  unfolding list_items
  list_items-ShowsAll [] w [] h = tt
  list_items-ShowsAll [] w (item ∷ items) h = absurd (cc)
  list_items-ShowsAll (c ∷ cs) w items h =
      let (status, _, h1) = bind-inv_next _ _ w items h in
      let (name, named, h2) = bind-inv_next _ _ _ items h1 in
      let (item, made, h3) = bind-inv_next _ _ _ items h2 in
      let (rest, listed, h4) = bind-inv_next _ _ _ items h3 in
      let whole : item ∷ rest ≡ items = ground arith in
      let same = (Keeps-get_vm_status H _ (db-IsBeside H) c).same w in
      rw (← whole) (
        vm_item-Shows c name status w.db item named (rw same at made),
        rw same at (list_items-ShowsAll cs _ rest listed),
      )

module _ (H : Host) (v : Vmm) where
  -- When VMList succeeds, it gives one item for each managed container that the engine listed, in
  -- its order, with the container's identifier and with the device name, CPUs, RAM, version and
  -- command line that the store holds for the container's first name, less its slash.
  pub vm_list-ShowsAll :
      (w : World H) (items : List VmItem)
      → (vm_list H v w).0 ≡ ok items
      → (cs : List Container) × (ms : List Container) × ((H.engine.container_list w.engine).0
          ≡ ok cs)
        × (managed v cs ≡ ok ms)
        × ShowsAll H w.db ms items
  unfolding vm_list list_cuttlefish_containers
  vm_list-ShowsAll w items h =
      let list = list_cuttlefish_containers H v in
      let (ms, found, h1) = bind-inv_next _ _ w items h in
      let (cs, listed, kept) =
        bind-inv_next (on_engine H H.engine.container_list) (λ cs. lift (managed v cs)) w ms
          (wrap-inv (text "listCuttlefishContainers") list w ms found) in
      let same : (list w).1.db ≡ w.db =
        (Keeps-list_cuttlefish_containers H v _ (db-IsBeside H)).same w in
      (cs, ms, listed, kept, rw same at (list_items-ShowsAll H ms _ items h1))
