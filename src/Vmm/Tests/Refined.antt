-- ===== src/Vmm/Tests/Refined.antt =====
-- A creation on the small host beside a device that is there, as a run of steps.
use matrisea.Common.{text, str_eq, ◌≡◌, refl, inr, none, [], ◌∷◌, ok}
use matrisea.Common.Int.{pos}
use matrisea.Go.Strconv.{atoi}
use matrisea.Docker.{lookup}
use matrisea.Instance.{collect_indexes}
use matrisea.Instance.Creation
use matrisea.Instance.Creation.{idle}
use matrisea.Vmm.Create.Added.{IsCreating, held}
use matrisea.Vmm.Create.Refines.{Shows}
use matrisea.Vmm.Tests.Sample.{host, box_a, new_container}

abbrev host-IsCreating : IsCreating host.engine
host-IsCreating = record {
  held = λ s. s;
  lists = λ s. refl;
  creates = λ config name s. inr (new_container config name, refl, refl);
  starts = λ id. record { same = λ s. refl };
}

abbrev before : Creation.World
before = record { pc = λ t. idle; create_mu = λ m. none; labels = pos 1 ∷ [] }

collected_a :
    collect_indexes (box_a ∷ []) ≡ ok (record { cf_list = box_a ∷ []; indexes = pos 1 ∷ [] })
unfolding collect_indexes atoi lookup text str_eq
collected_a = refl

abbrev shows_a : Shows (box_a ∷ []) before
shows_a = record {
  read = record { cf_list = box_a ∷ []; indexes = pos 1 ∷ [] };
  collected = collected_a;
  labels = refl;
}
