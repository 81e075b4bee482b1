-- ===== src/Vmm/Sheriff/Volume.antt =====
-- The volume that `diskSheriff` measures, its limit, and the name that it searches.
use mathlib.Core.List.{append-nil, append_assoc}
use matrisea.Common.{
  sym, ◌<◌, ◌≤◌, ◌*◌, ◌^◌, ℕ, Str, text, true, false, not, ◌≡◌, refl, ap, inl, inr, ◌∙◌, Option,
  some, [], ◌∷◌, ◌++◌, ok, str_eq, str_eq_refl, arith, none, Bool-cases, str_eq_iff,
}
use matrisea.Common.Among.{Among}
use matrisea.Common.Int.{ℤ, pos, negsuc, pos_part, leb_ℤ}
use matrisea.Docker.{Container, StrMap, lookup}
use matrisea.Vmm.Host.{Vmm, home_dir, home_dir_size_limit}
use matrisea.Vmm.Find.First.{HasName}
use matrisea.Vmm.Find.Managed.{docker_name}
use matrisea.Vmm.Remove.{first_name}
use matrisea.Vmm.Sheriff.{home_volume, exceeds_limit}

-- The limit in bytes.
abbrev pub limit : ℕ
limit = home_dir_size_limit * 2 ^ 30

at_most : (size : ℤ) (l : ℕ) → pos_part size ≤ l → not (leb_ℤ size (pos l)) ≡ false
at_most (pos n) l h = ground arith
at_most (negsuc n) l h = ground arith

beyond : (size : ℤ) (l : ℕ) → l < pos_part size → not (leb_ℤ size (pos l)) ≡ true
beyond (pos n) l h = ground arith
beyond (negsuc n) l h = ground arith

pub exceeds_limit-within : (size : ℤ) → pos_part size ≤ limit → exceeds_limit size ≡ false
unfolding exceeds_limit
exceeds_limit-within size h = at_most size limit h

pub exceeds_limit-over : (size : ℤ) → limit < pos_part size → exceeds_limit size ≡ true
unfolding exceeds_limit
exceeds_limit-over size h = beyond size limit h

-- The volume of the first mount at the home folder is the one that is measured.
pub home_volume-mounted :
    (volumes : StrMap ℤ) (before after : StrMap Str) (volume : Str) (size : ℤ)
    → ((m : Str × Str) → Among m before → str_eq m.0 home_dir ≡ false)
    → lookup volume volumes ≡ some size
    → home_volume volumes (before ++ ((home_dir, volume) ∷ after)) ≡ some size
unfolding home_volume
home_volume-mounted volumes [] after volume size h sized = rw (str_eq_refl home_dir) (rw sized refl)
home_volume-mounted volumes (m ∷ before) after volume size h sized =
    rw (h m (inl refl))
      (home_volume-mounted volumes before after volume size (λ n i. h n (inr i)) sized)

lookup-inv : (k : Str) (m : StrMap ℤ) (n : ℤ) → lookup k m ≡ some n → Among (k, n) m
unfolding lookup
lookup-inv k [] n h = absurd (cc)
lookup-inv k ((j, x) ∷ m) n h = elim (Bool-cases (str_eq j k)) [
  | inl same ↦
      let key : k ≡ j = sym ((str_eq_iff j k).0 same) in
      let value : n ≡ x = ground arith in inl (λ i. (key i, value i))
  | inr other ↦ inr (lookup-inv k m n (ground arith))
]

-- The size that the loops find is that of a volume mounted at the home folder.
pub home_volume-inv :
    (volumes : StrMap ℤ) (mounts : StrMap Str) (size : ℤ)
    → home_volume volumes mounts ≡ some size
    → (volume : Str) × Among (home_dir, volume) mounts × Among (volume, size) volumes
unfolding home_volume
home_volume-inv volumes [] size h = absurd (cc)
home_volume-inv volumes ((destination, name) ∷ mounts) size h =
    elim (Bool-cases (str_eq destination home_dir)) [
      | inl home ↦
          let key : home_dir ≡ destination = sym ((str_eq_iff destination home_dir).0 home) in
          at_home (lookup name volumes) refl key (home_volume-inv volumes mounts size)
            (rw home at h)
      | inr other ↦
          let (volume, m, s) = home_volume-inv volumes mounts size (rw other at h) in
          (volume, inr m, s)
    ]
  where
    at_home :
        (o : Option ℤ)
        → lookup name volumes ≡ o
        → home_dir ≡ destination
        → (home_volume volumes mounts ≡ some size
            → (volume : Str) × Among (home_dir, volume) mounts × Among (volume, size) volumes)
        → elim o [ some x ↦ some x | none ↦ home_volume volumes mounts ] ≡ some size
        → (volume : Str) × Among (home_dir, volume) ((destination, name) ∷ mounts)
          × Among (volume, size) volumes
    at_home none e key later k = let (volume, m, s) = later k in (volume, inr m, s)
    at_home (some x) e key later k =
        (name, inl (λ i. (key i, name)), lookup-inv name volumes size (e ∙ k))

module _ (v : Vmm) (device : Str) (c : Container)
    (named : c.names ≡ docker_name (v.cf_prefix ++ device) ∷ []) where
  -- A container with a device's name has it in the sense of the search, and gives it.
  pub HasName-own : HasName v (v.cf_prefix ++ device) c
  HasName-own =
      let name = v.cf_prefix ++ device in
      record {
        name = docker_name name;
        own = rw named (inl refl);
        named = record {
          rest = device;
          left = text "/";
          right = [];
          prefixed = sym (append_assoc (text "/") v.cf_prefix device);
          holds = ap (λ (x : Str). text "/" ++ x) (sym (append-nil name));
        };
      }

  pub first_name-own : first_name c.names ≡ ok (v.cf_prefix ++ device)
  first_name-own = rw named (unfold text in refl)
