-- ===== src/Vmm/Tests/Watched.antt =====
-- `diskSheriff` beside devices within the limit, and on two devices, the first of them over it.
use matrisea.Common.{
  Str, true, ◌≤◌, ap, ◌^◌, ◌*◌, text, str_eq, ◌≡◌, refl, inl, inr, some, List, [], ◌∷◌, ◌++◌, ok,
  ◌>>=◌, arith,
}
use matrisea.Common.Among.{Among}
use matrisea.Common.Int.{ℤ, pos, pos_part}
use matrisea.Go.Strings.{has_prefix, contains}
use matrisea.Docker.{Container, StrMap, lookup}
use matrisea.Vmm.Host.{Host, World, home_dir}
use matrisea.Vmm.Find.{name_prefix, managed}
use matrisea.Vmm.Exec.{container_exec}
use matrisea.Vmm.List.{running, get_vm_status}
use matrisea.Vmm.Sheriff.{inspect_usage, disk_sheriff}
use matrisea.Vmm.Find.First.{HasName}
use matrisea.Vmm.Sheriff.Spares.{AreSteady, IsSmall, IsAsBefore, disk_sheriff-spares}
use matrisea.Vmm.Sheriff.Volume.{limit}
use matrisea.Vmm.Sheriff.Measured.{inspect_usage_takes_longer}
use matrisea.Vmm.Tests.Sample.{host, manager, boxed, json_of, box_a, box_ab, both}

-- One GiB, and sixty.
abbrev sizes : StrMap ℤ
sizes = (text "id-0000000a", pos (2 ^ 30)) ∷ (text "id-000000ab", pos (60 * 2 ^ 30)) ∷ []

-- Every process writes that the launcher runs.
abbrev busy : Host
busy = record host {
  engine = record host.engine {
    exec_attach = λ id t s. (ok (text "launch_cvd"), s);
    disk_usage = λ s. (ok sizes, s);
  };
}

abbrev on_busy : List Container → World busy
on_busy cs = record { engine = cs; files = tt; db = (boxed []).db }

abbrev alone : List Container
alone = box_a ∷ []

-- The engine is as it was.
abbrev IsAlone : List Container → Type 0
IsAlone s = s ≡ alone

managed-a : managed manager alone ≡ ok alone
unfolding managed has_prefix text
managed-a = refl

inspect-a : busy.engine.container_inspect (text "id-0000000a") alone ≡ (ok (json_of box_a), alone)
unfolding text str_eq
inspect-a = refl

inspect-alone :
    (s : List Container) (c : Container)
    → IsAlone s
    → Among c alone
    → busy.engine.container_inspect c.id s ≡ (ok (json_of c), s)
inspect-alone s c h (inl e) = rw h (rw e inspect-a)
inspect-alone s c h (inr m) = absurd m

busy-AreSteady : AreSteady busy.engine manager alone alone json_of sizes IsAlone
busy-AreSteady = record {
  manages = managed-a;
  lists = λ s h. ap (λ (cs : List Container). (ok cs, s)) h;
  measures = λ s h. refl;
  inspects = inspect-alone;
  prepares = λ s name h. h;
  runs = λ s name id h e. h;
  finishes = λ s id h. h;
}

only_a :
    (d : Container)
    → Among d alone
    → HasName manager (text "matrisea-cvd-" ++ text "a") d
    → d ≡ box_a
only_a d (inl e) n = e
only_a d (inr m) n = absurd m

within_a :
    (volume : Str) (size : ℤ)
    → Among (home_dir, volume) (json_of box_a).mounts
    → Among (volume, size) sizes
    → pos_part size ≤ limit
unfolding text
within_a volume size (inl e) (inl p) =
    let q : size ≡ pos (2 ^ 30) = ap (λ (x : Str × ℤ). x.1) p in rw q (omega arith)
within_a volume size (inl e) (inr (inl p)) =
    let a : volume ≡ text "id-0000000a" = ap (λ (x : Str × Str). x.1) e in
    let b : volume ≡ text "id-000000ab" = ap (λ (x : Str × ℤ). x.0) p in ground arith
within_a volume size (inl e) (inr (inr m)) = absurd m
within_a volume size (inr m) n = absurd m

a-IsSmall : (c : Container) → Among c alone → IsSmall manager alone (json_of c) sizes c
a-IsSmall c (inl e) =
    rw e
      (record { device = text "a"; names = unfold text in refl; alone = only_a; within = within_a })
a-IsSmall c (inr m) = absurd m

disk_sheriff-spares_example :
    IsAsBefore busy manager alone alone json_of sizes IsAlone
      (on_busy alone).db
      (on_busy alone).files
      (disk_sheriff busy manager 3 (on_busy alone)).1
disk_sheriff-spares_example =
    disk_sheriff-spares busy manager alone alone json_of sizes IsAlone 3 (on_busy alone)
      busy-AreSteady a-IsSmall refl

managed-both : managed manager both ≡ ok both
unfolding managed has_prefix text
managed-both = refl

status-a : get_vm_status busy box_a (on_busy both) ≡ (ok running, on_busy both)
unfolding get_vm_status container_exec has_prefix contains text ◌>>=◌
status-a = refl

inspect-ab : busy.engine.container_inspect (text "id-000000ab") both ≡ (ok (json_of box_ab), both)
unfolding text str_eq
inspect-ab = refl

prefix-ab : has_prefix (json_of box_ab).name (name_prefix manager) ≡ true
unfolding has_prefix text
prefix-ab = refl

mounts-ab : (json_of box_ab).mounts ≡ (home_dir, text "id-000000ab") ∷ []
unfolding text
mounts-ab = refl

size-ab : lookup (text "id-000000ab") sizes ≡ some (pos (60 * 2 ^ 30))
unfolding lookup str_eq text
size-ab = refl

inspect_usage_takes_longer_example :
    (inspect_usage busy manager box_a (on_busy both)).1
    ≡ record (on_busy both) { engine = (busy.engine.exec_attach (text "exec") true both).1 }
inspect_usage_takes_longer_example =
    inspect_usage_takes_longer busy manager (text "a") (text "b") (text "exec") both (box_a ∷ [])
      box_ab box_a (json_of box_ab) [] [] (text "id-000000ab") sizes (pos (60 * 2 ^ 30))
      (on_busy both) (on_busy both) both (unfold text in refl) status-a refl managed-both
      (unfold text in refl) inspect-ab prefix-ab refl refl mounts-ab (λ m i. absurd i) size-ab
      (omega arith) refl

-- The other order.
abbrev a_first : List Container
a_first = box_a ∷ box_ab ∷ []
