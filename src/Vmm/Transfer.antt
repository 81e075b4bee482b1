-- ===== src/Vmm/Transfer.antt =====
-- vmm/vmm.go: files into and out of a container.
pub mod Outcomes
use matrisea.Common.{
  Str, text, Bool, ◌||◌, List, [], ◌∷◌, ◌++◌, Result, ok, err, panic, Error, message, Action, ◌>>=◌,
  ◌>>◌, pure, fail, lift, wrap, catch, attempt, if◌then◌else◌,
}
use matrisea.Common.Int.{pos, eqb_ℤ}
use matrisea.Go.Path.{join, clean, split_folder, split_file}
use matrisea.Go.Regexp.{is_zip_name}
use matrisea.Go.Strings.{has_suffix, split}
use matrisea.Kvstore.{put_container_value, get_container_value}
use matrisea.Vmm.Host.{
  Vmm, Host, World, on_engine, on_files, on_db, home_dir, config_key_aosp_version,
}
use matrisea.Vmm.Find.{is_managed_running_container, get_container_id_by_name}
use matrisea.Vmm.Exec.{ExecResult, container_exec}

-- `strings.HasSuffix(srcPath, ".tar") || strings.HasSuffix(srcPath, ".tar.gz")`
unfoldable pub is_archive : Str → Bool
is_archive src_path = has_suffix src_path (text ".tar") || has_suffix src_path (text ".tar.gz")

-- `lines[:len(lines)-1]`
unfoldable pub all_but_last : List Str → List Str
all_but_last [] = []
all_but_last (l ∷ []) = []
all_but_last (l ∷ m ∷ ls) = l ∷ all_but_last (m ∷ ls)

-- The end of `ContainerListFiles`. `errors.Wrap` of a nil error is nil.
abbrev listed : Result ExecResult → Result (List Str)
listed (ok resp) =
    if eqb_ℤ resp.exit_code (pos 0) then ok (all_but_last (split 10 resp.out_buffer)) else ok []
listed (err e) = err (Error.wrapped (text "containerExec find") e)
listed panic = panic

module _ (H : Host) (v : Vmm) where
  unfoldable pub container_copy_tar_file : Str → Str → Str → Action (World H) (Unit {0})
  container_copy_tar_file src_path container_name dst_path = do
    container_id ← get_container_id_by_name H v container_name
    archive ← on_files H (H.files.read_file src_path)
    wrap (text "docker: CopyToContainer")
        (on_engine H (H.engine.copy_to_container container_id dst_path archive))

  -- The command that packs the file: `cd F && tar -cvzf "T/f.tar" "f"`.
  unfoldable pub tar_command : Str → Str → Str → Str
  tar_command src_folder tmpdir src_file =
      text "cd "
      ++ (src_folder
          ++ (text " && tar -cvzf \""
              ++ (tmpdir
                  ++ (text "/" ++ (src_file ++ (text ".tar\" \"" ++ (src_file ++ text "\"")))))))

  -- The part of `containerCopyFile` under `defer os.RemoveAll(tmpdir)`.
  abbrev pub pack_and_copy : Str → Str → Str → Str → Action (World H) (Unit {0})
  pack_and_copy tmpdir src_path container_name dst_path = do
    let src_file = split_file src_path
    wrap (text "error during tar")
        (on_files H (H.files.run_shell (tar_command (split_folder src_path) tmpdir src_file)))
    wrap (text "containerCopyTarFile") (
        container_copy_tar_file (tmpdir ++ (text "/" ++ (src_file ++ text ".tar"))) container_name
          dst_path)

  -- An archive is copied as it is first, and then packed and copied like any other file.
  unfoldable pub container_copy_file : Str → Str → Str → Action (World H) (Unit {0})
  container_copy_file src_path container_name dst_path = do
    if is_archive src_path
        then wrap (text "containerCopyTarFile")
            (container_copy_tar_file src_path container_name dst_path)
        else pure tt
    tmpdir ← wrap (text "cannot create tmp dir") (on_files H (H.files.temp_dir (text "matrisea")))
    done ← attempt (pack_and_copy tmpdir src_path container_name dst_path)
    catch (on_files H (H.files.remove_all tmpdir)) (λ e. pure tt)
    lift done

  unfoldable pub vm_load_file : Str → Str → Action (World H) (Unit {0})
  vm_load_file container_name src_path = do
    is_managed_running_container H v container_name
    container_copy_file src_path container_name home_dir

  -- The exit code of `unzip` is not looked at.
  unfoldable pub vm_unzip_image : Str → Str → Action (World H) (Unit {0})
  vm_unzip_image container_name image_file = do
    is_managed_running_container H v container_name
    if is_zip_name image_file
        then wrap (text "containerExec") (
            container_exec H container_name (text "unzip " ++ join (home_dir ∷ image_file ∷ []))
              (text "vsoc-01")
            >> pure tt)
        else fail (
            message
              (text "Failed to unzip due to invalid zip filename \"" ++ (image_file ++ text "\"")))

  -- The error of the lookup is dropped, and leaves the identifier empty.
  abbrev id_or_empty : Str → Action (World H) Str
  id_or_empty container_name = catch (get_container_id_by_name H v container_name) (λ e. pure [])

  unfoldable pub container_list_files : Str → Str → Action (World H) (List Str)
  container_list_files container_name folder = do
    is_managed_running_container H v container_name
    cid ← id_or_empty container_name
    on_engine H (H.engine.stat_path cid (clean folder))
    answer ← attempt (
        container_exec H container_name
          (text "find "
            ++ (clean folder
                ++ text " -maxdepth 1 -printf \"%M|%u|%g|%s|%A@|%P\n\" | sort -t '|' -k6"))
          (text "vsoc-01"))
    lift (listed answer)

  unfoldable pub container_file_exists : Str → Str → Action (World H) (Unit {0})
  container_file_exists container_name file_path = do
    cid ← id_or_empty container_name
    on_engine H (H.engine.stat_path cid file_path)

  unfoldable pub container_read_file : Str → Str → Action (World H) Str
  container_read_file container_name file_path = do
    is_managed_running_container H v container_name
    id ← get_container_id_by_name H v container_name
    on_engine H (H.engine.copy_from_container id file_path)

  unfoldable pub container_update_config : Str → Str → Str → Action (World H) (Unit {0})
  container_update_config container_name key value = do
    is_managed_running_container H v container_name
    on_db H
        (put_container_value H.database container_name (record { key = key; value = value } ∷ []))

  unfoldable pub vm_get_aosp_version : Str → Action (World H) Str
  vm_get_aosp_version container_name =
      on_db H (get_container_value H.database container_name config_key_aosp_version)
