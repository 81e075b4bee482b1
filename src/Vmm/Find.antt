-- ===== src/Vmm/Find.antt =====
-- vmm/vmm.go: finding a container by its name, and the guards that most methods begin with.
pub mod Managed
pub mod Guards
pub mod First
use matrisea.Common.{
  Str, text, str_eq, Bool, false, ◌&&◌, ◌||◌, Option, none, some, List, [], ◌∷◌, ◌++◌, Result, ok,
  err, panic, Error, message, Action, ◌>>=◌, pure, fail, lift, wrap, if◌then◌else◌,
}
use matrisea.Common.Int.{ℤ}
use matrisea.Go.Strings.{has_prefix, contains}
use matrisea.Go.Strconv.{atoi}
use matrisea.Docker.{Container, ContainerJson, lookup}
use matrisea.Vmm.Host.{Vmm, Host, World, on_engine}

-- `"/" + v.CFPrefix`: docker container names all start with "/".
abbrev pub name_prefix : Vmm → Str
name_prefix v = text "/" ++ v.cf_prefix

-- The loop of `listCuttlefishContainers`. `c.Names[0]` panics on a container with no name.
abbrev pub keep_managed :
    Vmm → Container → List Str → Result (List Container) → Result (List Container)
keep_managed v c [] rest = panic
keep_managed v c (name ∷ names) (ok cs) =
    if has_prefix name (name_prefix v) then ok (c ∷ cs) else ok cs
keep_managed v c (name ∷ names) (err e) = err e
keep_managed v c (name ∷ names) panic = panic

unfoldable pub managed : Vmm → List Container → Result (List Container)
managed v [] = ok []
managed v (c ∷ cs) = keep_managed v c c.names (managed v cs)

-- The test of `getContainerIDByName`, on one name and on the names of a container.
unfoldable pub is_target : Vmm → Str → Str → Bool
is_target v target name = has_prefix name (name_prefix v) && contains name target

unfoldable pub has_target : Vmm → Str → List Str → Bool
has_target v target [] = false
has_target v target (name ∷ names) = is_target v target name || has_target v target names

unfoldable pub find_id : Vmm → Str → List Container → Option Str
find_id v target [] = none
find_id v target (c ∷ cs) = if has_target v target c.names then some c.id else find_id v target cs

abbrev found_id : Option Str → Result Str
found_id none = err (message (text "container not found"))
found_id (some id) = ok id

module _ (H : Host) (v : Vmm) where
  unfoldable pub list_cuttlefish_containers : Action (World H) (List Container)
  list_cuttlefish_containers = do
    containers ← on_engine H H.engine.container_list
    lift (managed v containers)

  unfoldable pub get_container_id_by_name : Str → Action (World H) Str
  get_container_id_by_name target = do
    cf_list ← list_cuttlefish_containers
    lift (found_id (find_id v target cf_list))

  unfoldable pub get_container_json : Str → Action (World H) ContainerJson
  get_container_json container_name = do
    cid ← get_container_id_by_name container_name
    on_engine H (H.engine.container_inspect cid)

  -- A missing label reads as the empty string.
  abbrev label_or_empty : Option Str → Str
  label_or_empty none = []
  label_or_empty (some s) = s

  unfoldable pub get_container_cf_instance_number : Str → Action (World H) ℤ
  get_container_cf_instance_number container_name = do
    json ← get_container_json container_name
    lift (atoi (label_or_empty (lookup (text "cf_instance") json.labels)))

  unfoldable pub get_container_ip : Str → Action (World H) Str
  get_container_ip container_name = do
    json ← get_container_json container_name
    pure json.ip_address

  -- `isManagedContainer`: both calls wrap their error by `%w`.
  unfoldable pub is_managed_container : Str → Action (World H) ContainerJson
  is_managed_container container_name = do
    cid ← wrap (text "invalid contaienr name") (get_container_id_by_name container_name)
    cjson ←
        wrap (text "invalid container, error reading container JSON")
          (on_engine H (H.engine.container_inspect cid))
    if has_prefix cjson.name (name_prefix v)
        then pure cjson
        else fail (message (text "invalid container: non-cuttlefish found"))

  unfoldable pub is_managed_running_container : Str → Action (World H) (Unit {0})
  is_managed_running_container container_name = do
    cjson ← is_managed_container container_name
    if str_eq cjson.state_status (text "running")
        then pure tt
        else fail (message (text "invalid container: container not running"))
