-- ===== src/Vmm/Host.antt =====
-- vmm/vmm.go, the manager's constants and fields, and what it runs on: the Docker engine, the host's
-- files and the configuration database.
use matrisea.Common.{ℕ, Str, text, Bool, ok, Action}
use matrisea.Docker.{Engine}
use matrisea.Kvstore.Bolt.{Database}

-- `DefaultNetwork`, `CFImage`, `HomeDir` and `HomeDirSizeLimit`
abbrev pub default_network : Str
default_network = text "bridge"

abbrev pub cf_image : Str
cf_image = text "cuttlefish"

abbrev pub home_dir : Str
home_dir = text "/home/vsoc-01"

abbrev pub home_dir_size_limit : ℕ
home_dir_size_limit = 50

-- Keys of per-container configs in KVStorage
abbrev pub config_key_device_name : Str
config_key_device_name = text "device_name"

abbrev pub config_key_cpu : Str
config_key_cpu = text "cpu"

abbrev pub config_key_ram : Str
config_key_ram = text "ram"

abbrev pub config_key_aosp_version : Str
config_key_aosp_version = text "aosp_version"

abbrev pub config_key_tags : Str
config_key_tags = text "tags"

abbrev pub config_key_cmdline : Str
config_key_cmdline = text "cmdline"

-- The fields of `VMM` that are text. Its clients are the parts of the host below, and `createMu` is
-- in `Instance.Creation`.
pub record Vmm : Type 0 where
  pub data_dir : Str
  pub devices_dir : Str
  pub db_dir : Str
  pub upload_dir : Str
  pub cf_prefix : Str

-- The host's files, by package `os` and its kin.
pub record Files : Type 1 where
  pub State : Type 0
  -- `!os.IsNotExist(err)` of `os.Stat`
  pub stat : Str → State → Bool
  pub mkdir : Str → Action State (Unit {0})
  pub mkdir_all : Str → Action State (Unit {0})
  pub remove_all : Str → Action State (Unit {0})
  -- `ioutil.TempDir("", pattern)`
  pub temp_dir : Str → Action State Str
  -- `os.Open` and a read to the end
  pub read_file : Str → Action State Str
  -- `exec.Command("sh", "-c", line).Run()`
  pub run_shell : Str → Action State (Unit {0})

pub record Host : Type 1 where
  pub engine : Engine
  pub files : Files
  pub database : Database

pub record World (H : Host) : Type 0 where
  pub engine : H.engine.State
  pub files : H.files.State
  pub db : H.database.Db

module _ (H : Host) {A : Type 0} where
  abbrev pub on_engine : Action H.engine.State A → Action (World H) A
  on_engine m w = let (r, s) = m w.engine in (r, record w { engine = s })

  abbrev pub on_files : Action H.files.State A → Action (World H) A
  on_files m w = let (r, s) = m w.files in (r, record w { files = s })

  abbrev pub on_db : Action H.database.Db A → Action (World H) A
  on_db m w = let (r, s) = m w.db in (r, record w { db = s })

-- `os.Stat`, with the question whether the file is there.
abbrev pub stat : (H : Host) → Str → Action (World H) Bool
stat H path w = (ok (H.files.stat path w.files), w)
