-- ===== src/Vmm/Find/Managed.antt =====
-- Which container a name finds.
use mathlib.Core.List.{append-nil, append_assoc}
use matrisea.Common.{
  Str, text, true, ◌≡◌, ◌⊎◌, inl, inr, refl, ◌∙◌, none, some, List, [], ◌∷◌, ◌++◌, arith,
  Bool-cases,
}
use matrisea.Common.Among.{Among}
use matrisea.Go.Strings.{has_prefix, contains}
use matrisea.Go.Strings.Prefix.{has_prefix-append, contains-append, has_prefix-append_cancel}
use matrisea.Docker.{Container}
use matrisea.Vmm.Host.{Vmm}
use matrisea.Vmm.Find.{name_prefix, is_target, has_target, find_id}

-- One of the names begins with the manager's prefix, and holds the target.
abbrev pub Named : Vmm → Str → List Str → Type 0
Named v target [] = ⊥
Named v target (name ∷ names) =
    ((has_prefix name (name_prefix v) ≡ true) × (contains name target ≡ true))
    ⊎ Named v target names

has_target-Named :
    (v : Vmm) (target : Str) (names : List Str)
    → has_target v target names ≡ true
    → Named v target names
unfolding has_target is_target
has_target-Named v target [] h = absurd (cc)
has_target-Named v target (name ∷ names) h = elim (Bool-cases (is_target v target name)) [
  | inl this ↦ inl (ground arith)
  | inr other ↦ inr (has_target-Named v target names (ground arith))
]

-- A container that getContainerIDByName finds is one of the list, and one of its names begins with
-- the manager's prefix and holds the target.
pub find_id-Named :
    (v : Vmm) (target id : Str) (cs : List Container)
    → find_id v target cs ≡ some id
    → (c : Container) × Among c cs × (c.id ≡ id) × Named v target c.names
unfolding find_id
find_id-Named v target id [] h = absurd (cc)
find_id-Named v target id (c ∷ cs) h = elim (Bool-cases (has_target v target c.names)) [
  | inl this ↦ (c, inl refl, ground arith, has_target-Named v target c.names this)
  | inr other ↦
      let (d, among, e, n) = find_id-Named v target id cs (ground arith) in (d, inr among, e, n)
]

-- The name that Docker gives to the container `c` of a manager.
abbrev pub docker_name : Str → Str
docker_name container_name = text "/" ++ container_name

is_target-longer :
    (v : Vmm) (device more : Str)
    → is_target v (v.cf_prefix ++ device) (docker_name (v.cf_prefix ++ (device ++ more))) ≡ true
unfolding is_target
is_target-longer v device more =
    let p : has_prefix (docker_name (v.cf_prefix ++ (device ++ more))) (name_prefix v) ≡ true =
      has_prefix-append_cancel (text "/") (v.cf_prefix ++ (device ++ more)) v.cf_prefix
      ∙ has_prefix-append v.cf_prefix (device ++ more) in
    let q : contains (docker_name (v.cf_prefix ++ (device ++ more))) (v.cf_prefix ++ device)
        ≡ true =
      rw (← append_assoc v.cf_prefix device more)
        (contains-append (text "/") (v.cf_prefix ++ device) more) in
    rw p q

-- If no container before it has a name that holds the target, the container of exactly that name
-- is found.
pub find_id_exact :
    (v : Vmm) (device : Str) (before : List Container) (c : Container) (after : List Container)
    → find_id v (v.cf_prefix ++ device) before ≡ none
    → c.names ≡ docker_name (v.cf_prefix ++ device) ∷ []
    → find_id v (v.cf_prefix ++ device) (before ++ (c ∷ after)) ≡ some c.id
unfolding find_id has_target
find_id_exact v device [] c after none_before named =
    let whole : is_target v (v.cf_prefix ++ device) (docker_name (v.cf_prefix ++ device)) ≡ true =
      rw (append-nil device) at (is_target-longer v device []) in
    let hit : has_target v (v.cf_prefix ++ device) c.names ≡ true = rw named (ground arith) in
    rw hit
find_id_exact v device (b ∷ before) c after none_before named =
    ground (arith, find_id_exact v device before c after)

-- A device whose name extends another's and that is listed before it takes its place: the shorter
-- name finds the container of the longer one.
pub find_id-longer_name :
    (v : Vmm) (device more : Str) (c : Container) (after : List Container)
    → c.names ≡ docker_name (v.cf_prefix ++ (device ++ more)) ∷ []
    → find_id v (v.cf_prefix ++ device) (c ∷ after) ≡ some c.id
unfolding find_id has_target
find_id-longer_name v device more c after named =
    let hit : has_target v (v.cf_prefix ++ device) c.names ≡ true =
      rw named (ground (arith, is_target-longer v device more)) in
    rw hit
