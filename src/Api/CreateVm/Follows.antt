-- ===== src/Api/CreateVm/Follows.antt =====
-- `wsCreateVM` follows the protocol.
use matrisea.Common.{◌⊎◌, Result, ok, err, panic, ◌≡◌}
use matrisea.Vmm.Host.{Vmm, Host}
use matrisea.Api.Session.{Session}
use matrisea.Api.CreateVm.Protocol.{begun, finished, refused, failed, phase_after}

module _ (H : Host) (v : Vmm) where
  -- The end of the handler: all has completed, or a step has failed; a failure of the checks means
  -- that the host's files and the configuration store are as they were.
  abbrev pub Follows : Session H → Result (Unit {0}) → Session H → Type 0
  Follows s (ok a) t = phase_after begun t.sent ≡ finished
  Follows s (err e) t =
      (phase_after begun t.sent ≡ failed)
      ⊎ ((phase_after begun t.sent ≡ refused)
          × (t.world.files ≡ s.world.files)
          × (t.world.db ≡ s.world.db))
  Follows s panic t = Unit
