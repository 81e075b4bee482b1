-- ===== src/Vmm/Frames.antt =====
-- The calls of the manager that reach the host only through the engine, and what they leave alone.
use matrisea.Common.{Str, refl, Result, Action, List, [], ◌∷◌}
use matrisea.Common.Keeps.{Keeps, Keeps-bind, Keeps-wrap, Keeps-lift, Keeps-pure, keeps}
use matrisea.Docker.{Container}
use matrisea.Kvstore.{get_container_value}
use matrisea.Vmm.Host.{Vmm, Host, World, on_engine, on_db}
use matrisea.Vmm.Find.{
  list_cuttlefish_containers, get_container_id_by_name, get_container_json, get_container_ip,
  get_container_cf_instance_number, is_managed_container, is_managed_running_container,
}
use matrisea.Vmm.Exec.{container_exec, start_adb_daemon}
use matrisea.Vmm.List.{VmStatus, get_vm_status, vm_item, append_item, list_items, vm_list}
use matrisea.Vmm.Start.{vm_launch, vm_stop}
use matrisea.Vmm.Transfer.{container_list_files, container_read_file}

-- A view of the world that calls of the engine and reads of the configuration store do not change.
pub record IsBeside (H : Host) {V : Type 0} (view : World H → V) : Type 1 where
  pub engine : (A : Type 0) (m : Action H.engine.State A) → Keeps view (on_engine H m)
  pub reads : (c k : Str) → Keeps view (on_db H (get_container_value H.database c k))
  pub whole : (A : Type 0) (f : World H → Result A) → Keeps view (λ w. (f w, w))

module _ (H : Host) {V : Type 0} (view : World H → V) (B : IsBeside H view) where
  pub Keeps-container_exec : (c cmd user : Str) → Keeps view (container_exec H c cmd user)
  unfolding container_exec
  Keeps-container_exec c cmd user = search (keeps, B.engine) depth 14

  pub Keeps-get_vm_status : (c : Container) → Keeps view (get_vm_status H c)
  unfolding get_vm_status
  Keeps-get_vm_status c = search (keeps, Keeps-container_exec, B.whole) depth 12

  Keeps-append_item :
      (c : Container) (name : Str) (s : VmStatus) → Keeps view (append_item H c name s)
  Keeps-append_item c name s = B.whole _ (λ w. vm_item H c name s w.db)

  Keeps-list_items : (cs : List Container) → Keeps view (list_items H cs)
  unfolding list_items
  Keeps-list_items [] = search (keeps)
  Keeps-list_items (c ∷ cs) =
      Keeps-bind view _ _ (Keeps-wrap view _ _ (Keeps-get_vm_status c)) (λ s.
        Keeps-bind view _ _ (Keeps-lift view _) (λ name.
          Keeps-bind view _ _ (Keeps-append_item c name s)
            (λ item. Keeps-bind view _ _ (Keeps-list_items cs) (λ items. Keeps-pure view _))))

module _ (H : Host) (v : Vmm) {V : Type 0} (view : World H → V) (B : IsBeside H view) where
  pub Keeps-list_cuttlefish_containers : Keeps view (list_cuttlefish_containers H v)
  unfolding list_cuttlefish_containers
  Keeps-list_cuttlefish_containers = search (keeps, B.engine)

  pub Keeps-get_container_id_by_name : (name : Str) → Keeps view (get_container_id_by_name H v name)
  unfolding get_container_id_by_name
  Keeps-get_container_id_by_name name = search (keeps, Keeps-list_cuttlefish_containers)

  Keeps-get_container_json : (name : Str) → Keeps view (get_container_json H v name)
  unfolding get_container_json
  Keeps-get_container_json name = search (keeps, Keeps-get_container_id_by_name, B.engine)

  Keeps-get_container_ip : (name : Str) → Keeps view (get_container_ip H v name)
  unfolding get_container_ip
  Keeps-get_container_ip name = search (keeps, Keeps-get_container_json)

  Keeps-get_container_cf_instance_number :
      (name : Str) → Keeps view (get_container_cf_instance_number H v name)
  unfolding get_container_cf_instance_number
  Keeps-get_container_cf_instance_number name = search (keeps, Keeps-get_container_json)

  pub Keeps-is_managed_container : (name : Str) → Keeps view (is_managed_container H v name)
  unfolding is_managed_container
  Keeps-is_managed_container name = search (keeps, Keeps-get_container_id_by_name, B.engine) depth 8

  pub Keeps-is_managed_running_container :
      (name : Str) → Keeps view (is_managed_running_container H v name)
  unfolding is_managed_running_container
  Keeps-is_managed_running_container name = search (keeps, Keeps-is_managed_container)

  pub Keeps-start_adb_daemon : (name : Str) → Keeps view (start_adb_daemon H v name)
  unfolding start_adb_daemon
  Keeps-start_adb_daemon name =
      search
        (
          keeps,
          Keeps-get_container_cf_instance_number,
          Keeps-get_container_ip,
          Keeps-container_exec H view B,
        )
        depth 10

  pub Keeps-vm_list : Keeps view (vm_list H v)
  unfolding vm_list
  Keeps-vm_list = search (keeps, Keeps-list_cuttlefish_containers, Keeps-list_items H view B)

  pub Keeps-vm_launch : (name : Str) → Keeps view (vm_launch H v name)
  unfolding vm_launch
  Keeps-vm_launch name =
      search
        (
          keeps, Keeps-is_managed_running_container, Keeps-get_container_cf_instance_number,
          B.engine, B.reads,
        )
        depth 30

  pub Keeps-vm_stop : (name : Str) → Keeps view (vm_stop H v name)
  unfolding vm_stop
  Keeps-vm_stop name = search (keeps, Keeps-is_managed_running_container, B.engine) depth 12

  pub Keeps-container_list_files :
      (name folder : Str) → Keeps view (container_list_files H v name folder)
  unfolding container_list_files
  Keeps-container_list_files name folder =
      search
        (
          keeps,
          Keeps-is_managed_running_container,
          Keeps-get_container_id_by_name,
          Keeps-container_exec H view B,
          B.engine,
        )
        depth 16

  pub Keeps-container_read_file : (name path : Str) → Keeps view (container_read_file H v name path)
  unfolding container_read_file
  Keeps-container_read_file name path =
      search (keeps, Keeps-is_managed_running_container, Keeps-get_container_id_by_name, B.engine)
        depth 10

-- The configuration store, and the host's files.
pub db-IsBeside : (H : Host) → IsBeside H (λ w. w.db)
unfolding get_container_value
db-IsBeside H = record {
  engine = λ A m. record { same = λ w. refl };
  reads = λ c k. record { same = λ w. refl };
  whole = λ A f. record { same = λ w. refl };
}

pub files-IsBeside : (H : Host) → IsBeside H (λ w. w.files)
files-IsBeside H = record {
  engine = λ A m. record { same = λ w. refl };
  reads = λ c k. record { same = λ w. refl };
  whole = λ A f. record { same = λ w. refl };
}
