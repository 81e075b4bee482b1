-- ===== src/Vmm/Tests/Sample.antt =====
-- A Docker engine that keeps a list of containers, a host around it, and two devices.
use matrisea.Common.{
  Str, text, str_eq, true, false, refl, List, [], ◌∷◌, ◌++◌, Result, ok, err, message,
  if◌then◌else◌,
}
use matrisea.Common.Int.{pos}
use matrisea.Docker.{Container, ContainerJson, CreateConfig, Engine}
use matrisea.Kvstore.Memory.{memory, empty}
use matrisea.Vmm.Host.{Vmm, Files, Host, World}
use matrisea.Vmm.Find.Guards.{AreQueries}

abbrev pub first_or_empty : List Str → Str
first_or_empty [] = []
first_or_empty (n ∷ ns) = n

abbrev pub json_of : Container → ContainerJson
json_of c = record {
  name = first_or_empty c.names;
  state_status = text "running";
  labels = c.labels;
  ip_address = text "172.17.0.2";
  mounts = (text "/home/vsoc-01", c.id) ∷ [];
}

abbrev pub inspect : Str → List Container → Result ContainerJson
inspect id [] = err (message (text "No such container"))
inspect id (c ∷ cs) = let rest = inspect id cs in if str_eq c.id id then ok (json_of c) else rest

abbrev pub without : Str → List Container → List Container
without id [] = []
without id (c ∷ cs) = let rest = without id cs in if str_eq c.id id then rest else c ∷ rest

abbrev pub new_container : CreateConfig → Str → Container
new_container config name = record {
  id = text "id-" ++ name;
  names = (text "/" ++ name) ∷ [];
  labels = config.labels;
  status = text "Up 1 second";
  created = pos 2;
  networks = (text "bridge", text "172.17.0.2") ∷ [];
}

abbrev daemon : Engine
daemon = record {
  State = List Container;
  container_list = λ s. (ok s, s);
  container_inspect = λ id s. (inspect id s, s);
  container_create = λ config name s. (ok (text "id-" ++ name), new_container config name ∷ s);
  container_start = λ id s. (ok tt, s);
  container_remove = λ id o s. (ok tt, without id s);
  exec_create = λ c o s. (ok (text "exec"), s);
  exec_attach = λ id t s. (ok [], s);
  exec_inspect = λ id s. (ok (pos 0), s);
  exec_resize = λ id h w s. (ok tt, s);
  stat_path = λ c p s. (ok tt, s);
  copy_to_container = λ c p a s. (ok tt, s);
  copy_from_container = λ c p s. (ok [], s);
  disk_usage = λ s. (ok [], s);
  std_copy = λ s. ok (s, []);
  new_port = λ p. ok (p ++ text "/tcp");
  deadline_passed = λ s. false;
}

-- A disk on which every file is there.
abbrev disk : Files
disk = record {
  State = Unit {0};
  stat = λ p s. true;
  mkdir = λ p s. (ok tt, s);
  mkdir_all = λ p s. (ok tt, s);
  remove_all = λ p s. (ok tt, s);
  temp_dir = λ p s. (ok (text "/tmp/x"), s);
  read_file = λ p s. (ok [], s);
  run_shell = λ l s. (ok tt, s);
}

abbrev pub host : Host
host = record { engine = daemon; files = disk; database = memory }

pub host-AreQueries : AreQueries host.engine
host-AreQueries = record {
  list = record { same = λ s. refl };
  inspect = λ id. record { same = λ s. refl };
}

abbrev pub manager : Vmm
manager = record {
  data_dir = text "/data";
  devices_dir = text "/data/devices";
  db_dir = text "/data/db";
  upload_dir = text "/data/upload";
  cf_prefix = text "matrisea-cvd-";
}

abbrev box : Str → Str → Str → Container
box id name instance_number = record {
  id = id;
  names = name ∷ [];
  labels = (text "cf_instance", instance_number) ∷ [];
  status = text "Up 2 days";
  created = pos 1;
  networks = (text "bridge", text "172.17.0.2") ∷ [];
}

abbrev pub box_a : Container
box_a = box (text "id-0000000a") (text "/matrisea-cvd-a") (text "1")

abbrev pub box_ab : Container
box_ab = box (text "id-000000ab") (text "/matrisea-cvd-ab") (text "2")

abbrev pub both : List Container
both = box_ab ∷ box_a ∷ []

abbrev pub boxed : List Container → World host
boxed cs = record { engine = cs; files = tt; db = empty }

abbrev pub only : World host
only = boxed (box_a ∷ [])

-- A container that is not the manager's.
abbrev pub box_other : Container
box_other = box (text "id-0000000o") (text "/matrisea-test-a") (text "3")
