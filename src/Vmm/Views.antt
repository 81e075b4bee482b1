-- ===== src/Vmm/Views.antt =====
-- Actions that leave the configuration store as it was.
use matrisea.Common.{Str, refl, Action}
use matrisea.Common.Keeps.{Keeps}
use matrisea.Vmm.Host.{Host, World, on_engine, on_files, stat}

module _ (H : Host) where
  abbrev pub db_of : World H → H.database.Db
  db_of w = w.db

  pub db-on_engine : {A : Type 0} (m : Action H.engine.State A) → Keeps db_of (on_engine H m)
  db-on_engine m = record { same = λ w. refl }

  pub db-on_files : {A : Type 0} (m : Action H.files.State A) → Keeps db_of (on_files H m)
  db-on_files m = record { same = λ w. refl }

  pub db-stat : (path : Str) → Keeps db_of (stat H path)
  db-stat path = record { same = λ w. refl }
