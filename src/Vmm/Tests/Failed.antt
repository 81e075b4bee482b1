-- ===== src/Vmm/Tests/Failed.antt =====
-- A creation on a host where no container starts.
use matrisea.Common.{
  text, Str, ok, ◌≡◌, refl, inl, ◌∷◌, [], ◌++◌, err, message, Error, wrapped, ◌>>=◌,
}
use matrisea.Common.Int.{pos}
use matrisea.Go.Path.{join}
use matrisea.Go.Strconv.{itoa}
use matrisea.Docker.{Container}
use matrisea.Instance.{next_number}
use matrisea.Instance.Ports.{websockify_port, adb_port}
use matrisea.Kvstore.Memory.{memory-IsLawful, empty}
use matrisea.Vmm.Host.{Host, World}
use matrisea.Vmm.Create.{
  create_config, vm_create, make_device_dir, create_container, get_next_cf_instance_number,
}
use matrisea.Vmm.Create.Failed.{vm_create-failed}
use matrisea.Vmm.Tests.Sample.{host, manager, new_container}

abbrev faulty : Host
faulty = record host {
  engine = record host.engine { container_start = λ id s. (err (message (text "no image")), s) };
}

abbrev idle : World faulty
idle = record { engine = []; files = tt; db = empty }

abbrev no_start : Error
no_start = wrapped (text "ContainerStart") (message (text "no image"))

create-no_start :
    (vm_create faulty manager (text "a") (pos 4) (pos 8) (text "Android 12") (text "-gpu") idle).0
    ≡ err no_start
unfolding vm_create make_device_dir create_container get_next_cf_instance_number next_number itoa
    text ◌>>=◌
create-no_start = refl

abbrev name_a : Str
name_a = text "matrisea-cvd-" ++ text "a"

abbrev dir_a : Str
dir_a = join (text "/data/devices" ∷ name_a ∷ [])

abbrev not_started : Container
not_started =
    new_container (create_config name_a dir_a 1 (text "6080/tcp") (text "6520/tcp")) name_a

number-idle : next_number [] ≡ ok 1
unfolding next_number
number-idle = refl

port-idle : faulty.engine.new_port (itoa (pos (websockify_port 1))) ≡ ok (text "6080/tcp")
unfolding itoa text
port-idle = refl

adb-idle : faulty.engine.new_port (itoa (pos (adb_port 1))) ≡ ok (text "6520/tcp")
unfolding itoa text
adb-idle = refl

-- The container stays, with its name and its number.
vm_create-failed_example :
    let after =
      (vm_create faulty manager
        (text "a")
        (pos 4)
        (pos 8)
        (text "Android 12")
        (text "-gpu")
        idle).1 in
    (after.db ≡ empty) × (after.files ≡ tt) × (after.engine ≡ not_started ∷ [])
vm_create-failed_example =
    vm_create-failed faulty manager memory-IsLawful (text "a") (pos 4) (pos 8) (text "Android 12")
      (text "-gpu") idle no_start tt [] [] (not_started ∷ []) 1 (text "6080/tcp") (text "6520/tcp")
      (text "id-" ++ name_a) create-no_start (inl (refl, refl)) refl number-idle port-idle adb-idle
      refl
