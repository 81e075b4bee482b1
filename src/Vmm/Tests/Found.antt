-- ===== src/Vmm/Tests/Found.antt =====
-- Lookups by a name, and the wait for the launcher.
use matrisea.Common.{text, ◌≡◌, refl, some, List, [], ◌∷◌, err, ◌>>=◌}
use matrisea.Go.Strings.{has_prefix, contains}
use matrisea.Vmm.Find.{
  managed, is_target, has_target, find_id, list_cuttlefish_containers, get_container_id_by_name,
  is_managed_container,
}
use matrisea.Vmm.Find.First.{IsFirst, find_id-IsFirst}
use matrisea.Vmm.Start.{BootEvent, line, deadline, await_boot}
use matrisea.Vmm.Start.Boot.{Ends, await_boot-Ends}
use matrisea.Vmm.Refused.{not_found}
use matrisea.Vmm.Tests.Sample.{manager, host, both, only}

find_id-both : find_id manager (text "matrisea-cvd-a") both ≡ some (text "id-000000ab")
unfolding find_id has_target is_target has_prefix contains text
find_id-both = refl

find_id-IsFirst_example :
    IsFirst manager (text "matrisea-cvd-a") both (find_id manager (text "matrisea-cvd-a") both)
find_id-IsFirst_example = find_id-IsFirst manager (text "matrisea-cvd-a") both

guard-missing : (is_managed_container host manager (text "zzz") only).0 ≡ err not_found
unfolding is_managed_container get_container_id_by_name list_cuttlefish_containers managed find_id
    has_target is_target has_prefix contains text ◌>>=◌
guard-missing = refl

abbrev boot_log : List BootEvent
boot_log =
    line (text "launch_cvd started") ∷ line (text "VIRTUAL_DEVICE_BOOT_COMPLETED") ∷ deadline ∷ []

await_boot-Ends_example : Ends boot_log (await_boot boot_log)
await_boot-Ends_example = await_boot-Ends boot_log
