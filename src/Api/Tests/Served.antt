-- ===== src/Api/Tests/Served.antt =====
-- Requests that are served on a small host, and the theorems at them.
use matrisea.Common.{text, str_eq, ◌≡◌, refl, false, true, none, some, [], ◌++◌, ok, arith}
use matrisea.Kvstore.Memory.{memory-IsLawful, memory-RollsBack}
use matrisea.Kvstore.Values.{stored}
use matrisea.Vmm.Host.{config_key_cmdline}
use matrisea.Vmm.Tests.Sample.{host, manager, only}
use matrisea.Go.Path.{clean}
use matrisea.Go.Path.Join.{IsFolder}
use matrisea.Go.Strings.Split.{Lacks}
use matrisea.Api.Handlers.{upload_image_file, upload_device_file}
use matrisea.Api.Handlers.Upload.{SavedAs, upload-SavedAs}
use matrisea.Api.Env.{cf_prefix}
use matrisea.Api.Routes.{config, Request, Surroundings, serve}
use matrisea.Api.Routes.Isolated.{serve-isolated}

abbrev around : Surroundings host
around = record {
  walk = λ folder s. [];
  save_uploaded = λ path s. (ok tt, s);
  first_entry = λ archive. ok archive;
  interfaces = ok [];
  installed = false;
  tailscale_ip = ok [];
  upgrades = true;
  socket = record {
    State = Unit {0};
    write_message = λ t m s. (ok tt, s);
    Input = Unit {0};
    write_process = λ p i. (none, i);
    close_process = λ i. i;
  };
  conn = tt;
  input = tt;
  client = [];
  error_text = λ e. [];
}

abbrev about_a : Request
about_a = record {
  name = text "a";
  source = text "kernel";
  path = [];
  key = some config_key_cmdline;
  value = text "-x";
  file = none;
}

not_a : str_eq (cf_prefix ++ text "a") (text "matrisea-cvd-b") ≡ false
unfolding str_eq text
not_a = refl

serve-isolated_example :
    stored host.database
      (text "matrisea-cvd-b")
      config_key_cmdline
      (serve host manager around config about_a only).1.db
    ≡ stored host.database (text "matrisea-cvd-b") config_key_cmdline only.db
serve-isolated_example =
    serve-isolated host manager around config about_a only memory-IsLawful memory-RollsBack
      (text "matrisea-cvd-b") config_key_cmdline not_a

devices-IsFolder : IsFolder manager.devices_dir
unfolding clean str_eq text
devices-IsFolder = record { shortest = refl; some_path = refl; not_root = refl; not_here = refl }

uploads-IsFolder : IsFolder manager.upload_dir
unfolding clean str_eq text
uploads-IsFolder = record { shortest = refl; some_path = refl; not_root = refl; not_here = refl }

plain-apk : Lacks b'/' (text "x.apk")
unfolding text
plain-apk = ground arith

plain-a : Lacks b'/' (text "a")
unfolding text
plain-a = ground arith

upload-SavedAs_example :
    SavedAs host manager around.save_uploaded
      (manager.upload_dir ++ (text "/" ++ text "x.apk"))
      (upload_image_file host manager around.save_uploaded (some (text "x.apk")))
      only
    × SavedAs host manager around.save_uploaded
        (manager.devices_dir ++ (text "/" ++ (cf_prefix ++ text "a")) ++ (text "/" ++ text "x.apk"))
        (upload_device_file host manager around.save_uploaded (text "a") (some (text "x.apk")))
        only
upload-SavedAs_example =
    upload-SavedAs host manager around.save_uploaded (text "a") (text "x.apk") only uploads-IsFolder
      devices-IsFolder plain-a plain-apk
