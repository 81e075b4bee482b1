-- ===== src/Vmm/Sheriff.antt =====
-- vmm/vmm.go, `diskSheriff`: the rounds of its endless loop.
pub mod Volume
pub mod Spares
pub mod Measured
use matrisea.Common.{
  ℕ, zero, suc, ◌*◌, ◌^◌, Str, text, str_eq, Bool, true, false, Option, none, some, List, [], ◌∷◌,
  ◌++◌, Result, ok, err, message, Action, ◌>>=◌, ◌>>◌, pure, lift, catch, not, if◌then◌else◌,
}
use matrisea.Common.Int.{ℤ, pos, leb_ℤ}
use matrisea.Docker.{Container, StrMap, lookup}
use matrisea.Vmm.Host.{Vmm, Host, World, on_engine, home_dir, home_dir_size_limit}
use matrisea.Vmm.Find.{list_cuttlefish_containers, get_container_json}
use matrisea.Vmm.List.{VmStatus, ready, running, container_error, get_vm_status}
use matrisea.Vmm.Remove.{first_name}
use matrisea.Vmm.Start.{vm_stop}

-- The two loops of `getContainerHomeDirUsage`, over the mounts (destination and volume) and over the
-- volumes (name and size).
unfoldable pub home_volume : StrMap ℤ → StrMap Str → Option ℤ
home_volume volumes [] = none
home_volume volumes ((destination, name) ∷ mounts) =
    let rest = home_volume volumes mounts in
    if str_eq destination home_dir
    then (elim (lookup name volumes) [ some size ↦ some size | none ↦ rest ])
    else rest

abbrev found_size : Str → Option ℤ → Result ℤ
found_size container_name (some size) = ok size
found_size container_name none = err (
    message
      (text "couldn't find " ++ (home_dir ++ (text " volume in container " ++ container_name))))

-- `float64(volSize)/(math.Pow(1024, 3)) > float64(HomeDirSizeLimit)`: both sides are exact near the
-- limit.
unfoldable pub exceeds_limit : ℤ → Bool
exceeds_limit vol_size = not (leb_ℤ vol_size (pos (home_dir_size_limit * 2 ^ 30)))

abbrev is_running : VmStatus → Bool
is_running running = true
is_running ready = false
is_running container_error = false

module _ (H : Host) (v : Vmm) where
  unfoldable pub get_container_home_dir_usage : Str → Action (World H) ℤ
  get_container_home_dir_usage container_name = do
    volumes ← on_engine H H.engine.disk_usage
    json ← get_container_json H v container_name
    lift (found_size container_name (home_volume volumes json.mounts))

  -- Errors are logged only; a failed reading counts as a size of 0, a failed status as no status.
  unfoldable pub inspect_usage : Container → Action (World H) (Unit {0})
  inspect_usage c = do
    container_name ← lift (first_name c.names)
    is_up ← catch (get_vm_status H c >>= λ s. pure (is_running s)) (λ e. pure false)
    if is_up
        then (do
          vol_size ← catch (get_container_home_dir_usage container_name) (λ e. pure (pos 0))
          if exceeds_limit vol_size
              then catch (vm_stop H v container_name) (λ e. pure tt)
              else pure tt)
        else pure tt

  unfoldable pub inspect_each : List Container → Action (World H) (Unit {0})
  inspect_each [] = pure tt
  inspect_each (c ∷ cs) = inspect_usage c >> inspect_each cs

  unfoldable pub disk_sheriff_round : Action (World H) (Unit {0})
  disk_sheriff_round = do
    containers ← catch (list_cuttlefish_containers H v) (λ e. pure [])
    inspect_each containers

  -- The loop of the goroutine, for a number of rounds.
  unfoldable pub disk_sheriff : ℕ → Action (World H) (Unit {0})
  disk_sheriff zero = pure tt
  disk_sheriff (suc rounds) = disk_sheriff_round >> disk_sheriff rounds
