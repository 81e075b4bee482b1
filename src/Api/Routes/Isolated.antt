-- ===== src/Api/Routes/Isolated.antt =====
-- A request about one device leaves the configuration of all others alone.
use matrisea.Common.{Str, str_eq, false, ◌≡◌, refl, Option, none, some, List, ◌++◌, Action}
use matrisea.Common.Keeps.{Keeps, keeps}
use matrisea.Kvstore.{KeyValue, put_container_value, get_container_value, remove_container_configs}
use matrisea.Kvstore.Bolt.{IsLawful}
use matrisea.Kvstore.Values.{stored}
use matrisea.Kvstore.Others.{RollsBack, stored-put_other, stored-remove_other}
use matrisea.Vmm.Host.{Vmm, Host, World, on_files, on_db}
use matrisea.Vmm.Frames.{
  IsBeside, Keeps-is_managed_container, Keeps-is_managed_running_container,
  Keeps-get_container_id_by_name,
}
use matrisea.Vmm.Remove.{vm_remove}
use matrisea.Vmm.Transfer.{container_update_config}
use matrisea.Api.Env.{cf_prefix}
use matrisea.Api.Handlers.{
  Response, remove_vm, update_vm_config, upload_file, upload_device_file, upload_image_file,
}
use matrisea.Api.Routes.{
  answered, Route, vm, start, stop, upload, apks, dir, workspace_files, config, remove,
  system_images, cvd_images, upload_image, ips, main_ws, terminal_ws, log_ws, get, method_of,
  Request, Surroundings, serve,
}
use matrisea.Api.Routes.Frames.{
  Keeps-respond, Keeps-start_vm, Keeps-stop_vm, Keeps-answered, Keeps-serve_get,
}

module _ (H : Host) (L : IsLawful H.database) (P : RollsBack H.database) (v : Vmm) (d k : Str) where
  -- The value of one key of one container.
  abbrev value_of : World H → Option Str
  value_of w = stored H.database d k w.db

  value-IsBeside : IsBeside H value_of
  unfolding get_container_value
  value-IsBeside = record {
    engine = λ A m. record { same = λ w. refl };
    reads = λ c key. record { same = λ w. refl };
    whole = λ A f. record { same = λ w. refl };
  }

  value-on_files : {A : Type 0} (m : Action H.files.State A) → Keeps value_of (on_files H m)
  value-on_files m = record { same = λ w. refl }

  module _ (name : Str) (other : str_eq name d ≡ false) where
    value-put :
        (kvs : List KeyValue) → Keeps value_of (on_db H (put_container_value H.database name kvs))
    value-put kvs = record { same = λ w. stored-put_other H.database L P name w.db d k other kvs }

    value-remove : Keeps value_of (on_db H (remove_container_configs H.database name))
    value-remove = record { same = λ w. stored-remove_other H.database L P name w.db d k other }

    value-container_update_config :
        (key value : Str) → Keeps value_of (container_update_config H v name key value)
    unfolding container_update_config
    value-container_update_config key value =
        search (keeps, Keeps-is_managed_running_container H v value_of value-IsBeside, value-put)

    value-vm_remove : Keeps value_of (vm_remove H v name)
    unfolding vm_remove
    value-vm_remove =
        search
          (
            keeps,
            Keeps-is_managed_container H v value_of value-IsBeside,
            Keeps-get_container_id_by_name H v value_of value-IsBeside,
            value-IsBeside.engine,
            value-on_files,
            value-remove,
          )
          depth 16

  value-upload_file :
      (save : Str → Action H.files.State (Unit {0})) (file : Option Str) (allowed : List Str)
      (folder : Str)
      → Keeps value_of (upload_file H v save file allowed folder)
  unfolding upload_file
  value-upload_file save none allowed folder = search (keeps)
  value-upload_file save (some f) allowed folder =
      search (keeps, Keeps-respond H v value_of, value-on_files)

  asks :
      (e : Surroundings H) (r : Route) (q : Request)
      → method_of r ≡ get
      → Keeps value_of (serve H v e r q)
  asks = Keeps-serve_get H v value_of value-IsBeside

  done :
      (e : Surroundings H) (m : Action (World H) Response)
      → Keeps value_of m
      → Keeps value_of (answered H v e m)
  done = Keeps-answered H v value_of value-IsBeside

  Keeps-serve :
      (e : Surroundings H) (r : Route) (q : Request)
      → str_eq (cf_prefix ++ q.name) d ≡ false
      → Keeps value_of (serve H v e r q)
  unfolding serve method_of
  Keeps-serve e start q h = done e _ (Keeps-start_vm H v value_of value-IsBeside q.name)
  Keeps-serve e stop q h = done e _ (Keeps-stop_vm H v value_of value-IsBeside q.name)
  Keeps-serve e upload q h = done e _ (unfold upload_device_file in value-upload_file _ _ _ _)
  Keeps-serve e config q h = done e _ (
      unfold update_vm_config in
      search (keeps, Keeps-respond H v value_of, value-container_update_config _ h))
  Keeps-serve e remove q h =
      done e _
        (unfold remove_vm in record { same = (value-vm_remove (cf_prefix ++ q.name) h).same })
  Keeps-serve e upload_image q h = done e _ (unfold upload_image_file in value-upload_file _ _ _ _)
  Keeps-serve e vm q h = asks e vm q refl
  Keeps-serve e apks q h = asks e apks q refl
  Keeps-serve e dir q h = asks e dir q refl
  Keeps-serve e workspace_files q h = asks e workspace_files q refl
  Keeps-serve e system_images q h = asks e system_images q refl
  Keeps-serve e cvd_images q h = asks e cvd_images q refl
  Keeps-serve e ips q h = asks e ips q refl
  Keeps-serve e main_ws q h = asks e main_ws q refl
  Keeps-serve e terminal_ws q h = asks e terminal_ws q refl
  Keeps-serve e log_ws q h = asks e log_ws q refl

-- Over a lawful database that rolls back, a request for one device, of any of the routes, answered
-- or not, leaves every configuration value of every container of another name as it was when its
-- handler returns; what the messages of the main WebSocket do after that is not part of it.
pub serve-isolated :
    (H : Host) (v : Vmm) (e : Surroundings H) (r : Route) (q : Request) (w : World H)
    → IsLawful H.database
    → RollsBack H.database
    → (d k : Str) → str_eq (cf_prefix ++ q.name) d ≡ false
    → stored H.database d k (serve H v e r q w).1.db ≡ stored H.database d k w.db
serve-isolated H v e r q w L P d k other = (Keeps-serve H L P v d k e r q other).same w
