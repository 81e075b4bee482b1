-- ===== src/Vmm/Start/Configured.antt =====
-- The launcher of a device runs with what the device was created with.
use matrisea.Common.{
  ℕ, ◌*◌, ◌^◌, ◌<◌, Str, text, false, true, ◌≡◌, inl, inr, refl, sym, ap, Option, some, ◌∙◌, List,
  [], ◌∷◌, ◌++◌, Result, ok, Action, ◌>>=◌, ◌>>◌, pure, wrap, lift, arith,
}
use matrisea.Common.Int.{ℤ, pos, add_int, mul_int, wrap64}
use matrisea.Common.Among.{Among}
use matrisea.Common.Steps.{bind-eq, wrap-eq}
use matrisea.Go.Strconv.{itoa, atoi}
use matrisea.Go.Strconv.RoundTrip.{atoi-itoa}
use matrisea.Kvstore.{get_container_value}
use matrisea.Kvstore.Bolt.{IsLawful}
use matrisea.Vmm.Host.{
  Vmm, Host, World, on_engine, on_db, config_key_cpu, config_key_ram, config_key_aosp_version,
  config_key_cmdline,
}
use matrisea.Vmm.Find.{is_managed_running_container, get_container_cf_instance_number}
use matrisea.Kvstore.Values.{override}
use matrisea.Vmm.Create.{initial_configs, vm_create}
use matrisea.Vmm.Create.Configured.{vm_create-put, get_created, override-configs}
use matrisea.Vmm.Start.{launch_cmd, vm_launch}

module _ (H : Host) where
  -- The command is created in the container with the device's number, and attached to.
  abbrev pub run_launcher : Str → ℤ → List Str → Action (World H) (Unit {0})
  run_launcher container_name cf_instance cmd =
      wrap (text "docker: failed to create an exec config") (
        on_engine H (
          H.engine.exec_create container_name (record {
            user = text "vsoc-01";
            attach_stdin = false;
            cmd = cmd;
            tty = true;
            env = (text "CUTTLEFISH_INSTANCE=" ++ itoa cf_instance) ∷ [];
          })))
      >>= λ id.
          wrap (text "docker: failed to execute/attach to launch_cvd")
            (on_engine H (H.engine.exec_attach id true))
          >> pure tt

  module _ (v : Vmm) (name : Str) (w : World H) where
    -- A key of the container as the store has it.
    abbrev Reads : Str → Str → Type 0
    Reads key value = get_container_value H.database name key w.db ≡ (ok value, w.db)

    read-eq :
        (msg key value : Str)
        → Reads key value
        → wrap msg (on_db H (get_container_value H.database name key)) w ≡ (ok value, w)
    read-eq msg key value h =
        wrap-eq msg (on_db H (get_container_value H.database name key)) w w value
          (ap (λ (r : Result Str × H.database.Db). (r.0, record w { db = r.1 })) h)

    vm_launch-eq :
        (n ram_gb : ℤ) (ram cpu version cmdline : Str)
        → is_managed_running_container H v name w ≡ (ok tt, w)
        → get_container_cf_instance_number H v name w ≡ (ok n, w)
        → Reads config_key_ram ram
        → atoi ram ≡ ok ram_gb
        → Reads config_key_cpu cpu
        → Reads config_key_aosp_version version
        → Reads config_key_cmdline cmdline
        → vm_launch H v name w ≡ run_launcher name n (launch_cmd n cpu ram_gb cmdline version) w
    unfolding vm_launch
    vm_launch-eq n ram_gb ram cpu version cmdline guard number has_ram parsed has_cpu has_version
          has_cmdline =
        bind-eq _ _ w w tt guard
        ∙ bind-eq _ _ w w n (wrap-eq _ (get_container_cf_instance_number H v name) w w n number)
        ∙ bind-eq _ _ w w ram (read-eq _ config_key_ram ram has_ram)
        ∙ bind-eq _ _ w w ram_gb (wrap-eq _ (lift (atoi ram)) w w ram_gb (rw parsed refl))
        ∙ bind-eq _ _ w w cpu (read-eq _ config_key_cpu cpu has_cpu)
        ∙ bind-eq _ _ w w version (read-eq _ config_key_aosp_version version has_version)
        ∙ bind-eq _ _ w w cmdline (read-eq _ config_key_cmdline cmdline has_cmdline)

-- Gigabytes in megabytes do not overflow.
megabytes : (r : ℕ) → r < 2 ^ 53 → mul_int (pos r) (pos 1024) ≡ pos (r * 1024)
unfolding mul_int wrap64
megabytes r h = ground arith

module _ (H : Host) (v : Vmm) (L : IsLawful H.database) where
  -- For a device that VMCreate has created over a lawful database, while the store is as the
  -- creation left it: where the guard passes and the container has the number, VMStart runs the
  -- launcher with the device's CPUs, RAM, version and options, and, with fewer than 2^53 gigabytes,
  -- the arguments say the guest's identifier, the CPUs, the options, and the memory in megabytes
  -- without an overflow.
  pub vm_launch-configured :
      (device : Str) (cpu : ℤ) (ram : ℕ) (version cmdline name : Str) (n : ℤ) (w u : World H)
      → (vm_create H v device cpu (pos ram) version cmdline w).0 ≡ ok name
      → u.db ≡ (vm_create H v device cpu (pos ram) version cmdline w).1.db
      → is_managed_running_container H v name u ≡ (ok tt, u)
      → get_container_cf_instance_number H v name u ≡ (ok n, u)
      → ram < 2 ^ 53
      → let cmd = launch_cmd n (itoa cpu) (pos ram) cmdline version in
        (vm_launch H v name u ≡ run_launcher H name n cmd u)
        × Among (text "--memory_mb=" ++ itoa (pos (ram * 1024))) cmd
        × Among (text "--cpus=" ++ itoa cpu) cmd
        × Among (text "--vsock_guest_cid=" ++ itoa (add_int n (pos 2))) cmd
        × Among cmdline cmd
  vm_launch-configured device cpu ram version cmdline name n w u created same guard number small =
      let (named, _, _) = vm_create-put H v device cpu (pos ram) version cmdline w name created in
      let reads =
        λ (key value : Str)
            (written : (old : Option Str)
              → override (initial_configs device cpu (pos ram) version cmdline) key old
                ≡ some value).
          let e : get_container_value H.database name key u.db ≡ (ok value, u.db) = rw same (
            rw named (
              get_created H v device cpu (pos ram) version cmdline w L name created key value
                written)) in
          e in
      let configs = override-configs H v device cpu (pos ram) version cmdline w in
      (
        vm_launch-eq H v name u n (pos ram) (itoa (pos ram)) (itoa cpu) version cmdline guard number
            (reads config_key_ram (itoa (pos ram)) (λ o. (configs o).2))
            (atoi-itoa (pos ram) (omega arith, omega arith))
            (reads config_key_cpu (itoa cpu) (λ o. (configs o).1))
            (reads config_key_aosp_version version (λ o. (configs o).3))
            (reads config_key_cmdline cmdline (λ o. (configs o).5)),
        unfold launch_cmd in
            inr (
              inr (
                inr (
                  inr (
                    inl (
                      ap (λ (m : ℤ). text "--memory_mb=" ++ itoa m)
                        (sym (megabytes ram small))))))),
        unfold launch_cmd in inr (inr (inr (inl refl))),
        unfold launch_cmd in inr (inr (inl refl)),
        unfold launch_cmd in inr (inr (inr (inr (inr (inl refl))))),
      )
