-- ===== src/Vmm/Find/Guards.antt =====
-- The guards read the engine and change nothing.
use matrisea.Common.{
  Str, ◌≡◌, refl, Action, ◌>>=◌, ap, List, [], some, ok, true, arith, pure, catch,
}
use matrisea.Go.Strings.{has_prefix}
use matrisea.Common.Keeps.{ReadsOnly, Keeps-bind, Keeps-lift, keeps}
use matrisea.Docker.{Container, ContainerJson, Engine}
use matrisea.Vmm.Host.{Vmm, Host, World, on_engine}
use matrisea.Vmm.Find.{
  name_prefix, managed, find_id, list_cuttlefish_containers, get_container_id_by_name,
  is_managed_container, is_managed_running_container,
}

-- The two queries of the engine change nothing.
pub record AreQueries (E : Engine) : Type 0 where
  pub list : ReadsOnly E.container_list
  pub inspect : (id : Str) → ReadsOnly (E.container_inspect id)

pub ReadsOnly-on_engine :
    (H : Host) {A : Type 0} (m : Action H.engine.State A) → ReadsOnly m → ReadsOnly (on_engine H m)
ReadsOnly-on_engine H m h = record {
  same = λ w. ap (λ (s : H.engine.State). record w { engine = s }) (h.same w.engine);
}

module _ (H : Host) (v : Vmm) (Q : AreQueries H.engine) where
  pub ReadsOnly-list_cuttlefish_containers : ReadsOnly (list_cuttlefish_containers H v)
  unfolding list_cuttlefish_containers
  ReadsOnly-list_cuttlefish_containers =
      Keeps-bind (λ w. w) _ _ (ReadsOnly-on_engine H H.engine.container_list Q.list)
        (λ cs. Keeps-lift (λ w. w) _)

  pub ReadsOnly-get_container_id_by_name :
      (name : Str) → ReadsOnly (get_container_id_by_name H v name)
  unfolding get_container_id_by_name
  ReadsOnly-get_container_id_by_name name = search (keeps, ReadsOnly-list_cuttlefish_containers)

  pub ReadsOnly-is_managed_container : (name : Str) → ReadsOnly (is_managed_container H v name)
  unfolding is_managed_container
  ReadsOnly-is_managed_container name =
      search (keeps, ReadsOnly-get_container_id_by_name, ReadsOnly-on_engine H, Q.inspect) depth 8

  pub ReadsOnly-is_managed_running_container :
      (name : Str) → ReadsOnly (is_managed_running_container H v name)
  unfolding is_managed_running_container
  ReadsOnly-is_managed_running_container name = search (keeps, ReadsOnly-is_managed_container)

module _ (H : Host) (v : Vmm) (w : World H) (cs ms : List Container) where
  -- What the lookup gives on the containers that the engine lists.
  pub get_container_id_by_name-eq :
      (name id : Str)
      → H.engine.container_list w.engine ≡ (ok cs, w.engine)
      → managed v cs ≡ ok ms
      → find_id v name ms ≡ some id
      → get_container_id_by_name H v name w ≡ (ok id, w)
  unfolding get_container_id_by_name list_cuttlefish_containers ◌>>=◌
  get_container_id_by_name-eq name id listed kept found = ground arith

  -- Where an error of the listing is dropped, the managed containers come out.
  pub list_cuttlefish_containers-caught :
      H.engine.container_list w.engine ≡ (ok cs, w.engine)
      → managed v cs ≡ ok ms
      → catch (list_cuttlefish_containers H v) (λ e. pure []) w ≡ (ok ms, w)
  unfolding catch list_cuttlefish_containers ◌>>=◌
  list_cuttlefish_containers-caught listed kept = rw listed (rw kept refl)

  pub is_managed_container-eq :
      (name id : Str) (json : ContainerJson)
      → H.engine.container_list w.engine ≡ (ok cs, w.engine)
      → managed v cs ≡ ok ms
      → find_id v name ms ≡ some id
      → H.engine.container_inspect id w.engine ≡ (ok json, w.engine)
      → has_prefix json.name (name_prefix v) ≡ true
      → is_managed_container H v name w ≡ (ok json, w)
  unfolding is_managed_container ◌>>=◌
  is_managed_container-eq name id json listed kept found inspected prefixed =
      ground (arith, get_container_id_by_name-eq name id)
