-- ===== src/Vmm/Transfer/Outcomes.antt =====
-- Outcomes of the file calls that the code does not tell apart.
use matrisea.Common.{Str, text, true, ◌≡◌, ok, attempt, catch, wrap, arith}
use matrisea.Common.Steps.{bind-inv_next, wrap-inv}
use matrisea.Vmm.Host.{Vmm, Host, World, on_files}
use matrisea.Vmm.Transfer.{is_archive, container_copy_tar_file, pack_and_copy, container_copy_file}

module _ (H : Host) (v : Vmm) where
  -- A successful containerCopyFile of a file whose name ends in .tar or .tar.gz has copied it as it
  -- is, and then has packed it into another archive and copied that too.
  pub container_copy_file_twice :
      (src_path container_name dst_path : Str) (w : World H)
      → is_archive src_path ≡ true
      → (container_copy_file H v src_path container_name dst_path w).0 ≡ ok tt
      → let copied = container_copy_tar_file H v src_path container_name dst_path w in
        let made = on_files H (H.files.temp_dir (text "matrisea")) copied.1 in
        (tmpdir : Str) × (copied.0 ≡ ok tt)
        × (made.0 ≡ ok tmpdir)
        × ((pack_and_copy H v tmpdir src_path container_name dst_path made.1).0 ≡ ok tt)
  unfolding container_copy_file
  container_copy_file_twice src_path container_name dst_path w archive h =
      let copy = container_copy_tar_file H v src_path container_name dst_path in
      let temp = on_files H (H.files.temp_dir (text "matrisea")) in
      let (_, copied, h1) =
        bind-inv_next (wrap (text "containerCopyTarFile") copy) _ w tt (rw archive at h) in
      let (tmpdir, made, h2) =
        bind-inv_next (wrap (text "cannot create tmp dir") temp) _ (copy w).1 tt h1 in
      let u = (temp (copy w).1).1 in
      let (done, ran, h3) =
        bind-inv_next (attempt (pack_and_copy H v tmpdir src_path container_name dst_path)) _ u tt
          h2 in
      let (_, _, h4) = bind-inv_next (catch _ _) _ _ tt h3 in
      let done-eq : done ≡ ok tt = h4 in
      (
        tmpdir,
        wrap-inv (text "containerCopyTarFile") copy w tt (ground arith),
        wrap-inv (text "cannot create tmp dir") temp (copy w).1 tmpdir made,
        ground arith,
      )
