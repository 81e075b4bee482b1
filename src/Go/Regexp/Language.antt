-- ===== src/Go/Regexp/Language.antt =====
-- The languages of the two patterns.
use matrisea.Common.{
  ℕ, Str, text, str_eq, str_eq_iff, true, ◌≤◌, ◌≡◌, ◌≢◌, ◌↔◌, ◌⊎◌, inl, inr, refl, ap, [], ◌∷◌,
  ◌++◌, arith, Bool-cases,
}
use matrisea.Go.Regexp.{in_class, class_star, class_plus, is_device_name, is_zip_name}

abbrev pub InClass : Str → Type 0
InClass [] = Unit
InClass (c ∷ s) = (in_class c ≡ true) × InClass s

class_star_sound :
    (suffix s : Str)
    → class_star suffix s ≡ true
    → (stem : Str) × InClass stem × (s ≡ stem ++ suffix)
unfolding class_star
class_star_sound suffix [] h = ([], tt, ground (arith, str_eq_iff [] suffix))
class_star_sound suffix (c ∷ s) h = elim (Bool-cases (str_eq (c ∷ s) suffix)) [
  | inl end ↦ ([], tt, ground (arith, str_eq_iff (c ∷ s) suffix))
  | inr more ↦
      let (stem, ok, e) = class_star_sound suffix s (ground arith) in
      (c ∷ stem, (ground arith, ok), ap (λ (t : Str). c ∷ t) e)
]

class_star_complete : (suffix stem : Str) → InClass stem → class_star suffix (stem ++ suffix) ≡ true
unfolding class_star
class_star_complete [] [] h = unfold str_eq in refl
class_star_complete (d ∷ suffix) [] h = ground (arith, str_eq_iff (d ∷ suffix) (d ∷ suffix))
class_star_complete suffix (c ∷ stem) h = ground (arith, class_star_complete suffix stem h.1)

-- A stem of one or more bytes of the class, and then the suffix.
pub record IsNamed (suffix s : Str) : Type 0 where
  pub stem : Str
  pub non_empty : stem ≢ []
  pub allowed : InClass stem
  pub whole : s ≡ stem ++ suffix

class_plus_sound : (suffix s : Str) → class_plus suffix s ≡ true → IsNamed suffix s
unfolding class_plus
class_plus_sound suffix [] h = absurd (cc)
class_plus_sound suffix (c ∷ s) h =
    let (stem, ok, e) = class_star_sound suffix s (ground arith) in
    record {
      stem = c ∷ stem;
      non_empty = λ q. cc;
      allowed = (ground arith, ok);
      whole = ap (λ (t : Str). c ∷ t) e;
    }

class_plus_complete : (suffix s : Str) → IsNamed suffix s → class_plus suffix s ≡ true
class_plus_complete suffix s n = rw n.whole (go n.stem n.non_empty n.allowed)
  where
    go : (stem : Str) → stem ≢ [] → InClass stem → class_plus suffix (stem ++ suffix) ≡ true
    go [] ne h = absurd (ne refl)
    go (c ∷ stem) ne h = unfold class_plus in ground (arith, class_star_complete suffix stem h.1)

-- VMUnzipImage's pattern accepts a name exactly if it is one or more bytes of the class and then
-- ".zip".
pub is_zip_name_iff : (s : Str) → (is_zip_name s ≡ true) ↔ IsNamed (text ".zip") s
unfolding is_zip_name
is_zip_name_iff s = (class_plus_sound (text ".zip") s, class_plus_complete (text ".zip") s)

pub is_device_name_iff : (s : Str) → (is_device_name s ≡ true) ↔ IsNamed [] s
unfolding is_device_name
is_device_name_iff s = (class_plus_sound [] s, class_plus_complete [] s)

abbrev pub IsAlphanumeric : ℕ → Type 0
IsAlphanumeric c =
    ((b'a' ≤ c) × (c ≤ b'z')) ⊎ (((b'A' ≤ c) × (c ≤ b'Z')) ⊎ ((b'0' ≤ c) × (c ≤ b'9')))

-- The class of the two name patterns holds the alphanumerics, the dash, and all six bytes from the
-- opening bracket to the backtick, and no other byte.
pub in_class_iff :
    (c : ℕ) → (in_class c ≡ true) ↔ (IsAlphanumeric c ⊎ ((c ≡ b'-') ⊎ ((b'[' ≤ c) × (c ≤ b'`'))))
unfolding in_class
in_class_iff c = ground arith
