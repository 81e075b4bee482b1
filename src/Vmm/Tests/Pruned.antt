-- ===== src/Vmm/Tests/Pruned.antt =====
-- `VMPrune` on the small host: its engine serves, and a container of another manager is left.
use matrisea.Common.{
  Str, text, str_eq, str_eq_refl, str_eq_iff, false, ◌≡◌, refl, ap, inl, inr, List, [], ◌∷◌, ok,
  panic, arith, ◌≢◌, ◌≤◌, length,
}
use matrisea.Common.Among.{Among}
use matrisea.Go.Strings.{has_prefix}
use matrisea.Docker.{Container}
use matrisea.Kvstore.{remove_configs, remove_container_configs}
use matrisea.Kvstore.Memory.{Memory, delete_in}
use matrisea.Vmm.Find.{managed}
use matrisea.Vmm.Remove.{vm_prune}
use matrisea.Vmm.Remove.Lists
use matrisea.Vmm.Remove.Lists.{IsFresh, AreIdsDistinct, unmanaged}
use matrisea.Vmm.Remove.Prune.{IsServing, IsCalm, vm_prune-leaves}
use matrisea.Vmm.Tests.Sample.{
  manager, host, boxed, json_of, inspect, without, first_or_empty, box_a, box_other,
}

IsFresh-Among :
    (id : Str) (c : Container) (cs : List Container)
    → IsFresh id cs
    → Among c cs
    → str_eq c.id id ≡ false
IsFresh-Among id c [] f m = absurd m
IsFresh-Among id c (x ∷ cs) f (inl e) = rw e f.0
IsFresh-Among id c (x ∷ cs) f (inr m) = IsFresh-Among id c cs f.1 m

inspect-Among :
    (c : Container) (cs : List Container)
    → AreIdsDistinct cs
    → Among c cs
    → inspect c.id cs ≡ ok (json_of c)
inspect-Among c [] d m = absurd m
inspect-Among c (x ∷ cs) d (inl e) = rw e (rw (str_eq_refl x.id) refl)
inspect-Among c (x ∷ cs) d (inr m) =
    let apart : str_eq x.id c.id ≡ false =
      ground (arith, str_eq_iff x.id c.id, str_eq_iff c.id x.id, IsFresh-Among x.id c cs d.0 m) in
    rw apart (inspect-Among c cs d.1 m)

without-eq : (id : Str) (cs : List Container) → without id cs ≡ Lists.without id cs
unfolding Lists.without
without-eq id [] = refl
without-eq id (c ∷ cs) = rw (without-eq id cs) refl

host-IsServing : IsServing host.engine
host-IsServing = record {
  held = λ s. s;
  lists = λ s. refl;
  inspects = λ s c name more d m e.
      (json_of c, ap (λ r. (r, s)) (inspect-Among c s d m), ap first_or_empty e);
  removes = λ s c d m. (without c.id s, refl, without-eq c.id s);
}

remove-calm : (name : Str) (s : Memory) → (remove_container_configs host.database name s).0 ≢ panic
unfolding remove_container_configs remove_configs delete_in
remove-calm name s = λ p. ground arith

host-IsCalm : IsCalm host
host-IsCalm = record { calm_db = remove-calm; calm_files = λ path s p. cc }

-- A device of this manager, and a container of another one.
abbrev mixed : List Container
mixed = box_other ∷ box_a ∷ []

managed-mixed : managed manager mixed ≡ ok (box_a ∷ [])
unfolding managed has_prefix text
managed-mixed = refl

mixed-AreIdsDistinct : AreIdsDistinct mixed
unfolding str_eq text
mixed-AreIdsDistinct = ((refl, tt), (tt, tt))

long_ids : (c : Container) → Among c (box_a ∷ []) → 10 ≤ length c.id
unfolding text
long_ids c (inl e) = rw e (omega arith)
long_ids c (inr m) = absurd m

vm_prune-leaves_example :
    ((vm_prune host manager (boxed mixed)).0 ≡ ok tt)
    × ((vm_prune host manager (boxed mixed)).1.engine ≡ unmanaged manager mixed)
unfolding host-IsServing
vm_prune-leaves_example =
    vm_prune-leaves host host-IsServing host-IsCalm manager (boxed mixed) (box_a ∷ []) managed-mixed
      mixed-AreIdsDistinct long_ids

unmanaged-mixed : unmanaged manager mixed ≡ box_other ∷ []
unfolding unmanaged has_prefix text
unmanaged-mixed = refl
