-- ===== src/Docker.antt =====
-- The records of the Docker Engine API (`github.com/docker/docker/api/types`), with the fields that
-- the program reads.
use matrisea.Common.{
  ℕ, Str, str_eq, Bool, Result, Action, List, [], ◌∷◌, Option, none, some, if◌then◌else◌,
}
use matrisea.Common.Int.{ℤ}

-- A Go map from strings: its pairs.
abbrev pub StrMap : Type 0 → Type 0
StrMap V = List (Str × V)

unfoldable pub lookup : {V : Type 0} → Str → StrMap V → Option V
lookup k [] = none
lookup k ((j, v) ∷ m) = if str_eq j k then some v else lookup k m

-- An entry of `ContainerList`. A nil entry of a network is not kept.
pub record Container : Type 0 where
  pub id : Str
  pub names : List Str
  pub labels : StrMap Str
  pub status : Str
  pub created : ℤ
  pub networks : StrMap Str

-- The answer of `ContainerInspect`: `Name`, `State.Status`, `Config.Labels`,
-- `NetworkSettings.IPAddress`, and the destination and volume name of each mount.
pub record ContainerJson : Type 0 where
  pub name : Str
  pub state_status : Str
  pub labels : StrMap Str
  pub ip_address : Str
  pub mounts : StrMap Str

pub record PortBinding : Type 0 where
  pub host_ip : Str
  pub host_port : Str

-- `container.Config`, `container.HostConfig` and the network of a new container.
pub record CreateConfig : Type 0 where
  pub image : Str
  pub hostname : Str
  pub labels : StrMap Str
  pub env : List Str
  pub exposed_ports : List Str
  pub privileged : Bool
  -- source and target of each bind mount
  pub binds : StrMap Str
  pub port_bindings : StrMap PortBinding
  pub network : Str

pub record ExecConfig : Type 0 where
  pub user : Str
  pub attach_stdin : Bool
  pub cmd : List Str
  pub tty : Bool
  pub env : List Str

pub record RemoveOptions : Type 0 where
  pub force : Bool
  pub remove_volumes : Bool

-- The client of the engine (`client.Client`, `stdcopy`, `nat`): calls with an effect on a state that
-- is not known here.
pub record Engine : Type 1 where
  pub State : Type 0
  -- with `All: true`
  pub container_list : Action State (List Container)
  pub container_inspect : Str → Action State ContainerJson
  -- the configuration and the name; it returns the ID
  pub container_create : CreateConfig → Str → Action State Str
  pub container_start : Str → Action State (Unit {0})
  pub container_remove : Str → RemoveOptions → Action State (Unit {0})
  pub exec_create : Str → ExecConfig → Action State Str
  -- the stream of the attached process, up to its end
  pub exec_attach : Str → Bool → Action State Str
  pub exec_inspect : Str → Action State ℤ
  pub exec_resize : Str → ℕ → ℕ → Action State (Unit {0})
  pub stat_path : Str → Str → Action State (Unit {0})
  -- the container, the folder there, and the bytes of the archive
  pub copy_to_container : Str → Str → Str → Action State (Unit {0})
  pub copy_from_container : Str → Str → Action State Str
  -- name and size of each volume
  pub disk_usage : Action State (StrMap ℤ)
  -- `stdcopy.StdCopy`: standard output and standard error of a stream
  pub std_copy : Str → Result (Str × Str)
  -- `nat.NewPort("tcp", port)`
  pub new_port : Str → Result Str
  -- whether a context with a timeout has ended before the call that it was given to has answered
  pub deadline_passed : State → Bool
