-- ===== src/Vmm/Tests/Refused.antt =====
-- A name that no container of the manager has, on a host with a device and another manager's container.
use matrisea.Common.{Str, text, false, ◌≡◌, refl, sym, ◌∙◌, inl, inr, List, [], ◌∷◌, ok}
use matrisea.Common.Among.{Among}
use matrisea.Go.Strings.{has_prefix, contains}
use matrisea.Docker.{Container}
use matrisea.Vmm.Find.{managed, is_target, has_target}
use matrisea.Vmm.Find.First.{HasName, HasName-has_target}
use matrisea.Vmm.Refused.{RefusesAll, not_found, vmm-RefusesAll}
use matrisea.Vmm.Tests.Sample.{host, manager, boxed, box_a, box_other}

abbrev name_b : Str
name_b = text "matrisea-cvd-b"

abbrev mixed : List Container
mixed = box_other ∷ box_a ∷ []

managed-mixed : managed manager mixed ≡ ok (box_a ∷ [])
unfolding managed has_prefix text
managed-mixed = refl

has_target-a : has_target manager name_b box_a.names ≡ false
unfolding has_target is_target has_prefix contains text
has_target-a = refl

no_b : (c : Container) → Among c (box_a ∷ []) → ¬ HasName manager name_b c
no_b c (inl e) = λ n.
    let found = HasName-has_target manager name_b box_a (rw e at n) in cc (sym has_target-a ∙ found)
no_b c (inr m) = absurd m

vmm-RefusesAll_example : RefusesAll host manager name_b (boxed mixed) not_found
vmm-RefusesAll_example =
    vmm-RefusesAll host manager name_b (boxed mixed) mixed (box_a ∷ []) refl managed-mixed no_b
