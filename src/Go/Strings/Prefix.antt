-- ===== src/Go/Strings/Prefix.antt =====
-- Prefixes and occurrences as equations.
use matrisea.Common.{Str, true, [], ◌∷◌, ◌++◌, ◌≡◌, refl, arith}
use matrisea.Go.Strings.{has_prefix, contains}

pub has_prefix-append : (p s : Str) → has_prefix (p ++ s) p ≡ true
unfolding has_prefix
has_prefix-append [] s = refl
has_prefix-append (c ∷ p) s = ground (arith, has_prefix-append p s)

pub has_prefix-append_cancel : (q s p : Str) → has_prefix (q ++ s) (q ++ p) ≡ has_prefix s p
unfolding has_prefix
has_prefix-append_cancel [] s p = refl
has_prefix-append_cancel (c ∷ q) s p = ground (arith, has_prefix-append_cancel q s p)

contains_of_prefix : (s t : Str) → has_prefix s t ≡ true → contains s t ≡ true
unfolding contains
contains_of_prefix [] t h = h
contains_of_prefix (c ∷ s) t h = ground arith

pub contains-append_right : (a s t : Str) → contains s t ≡ true → contains (a ++ s) t ≡ true
unfolding contains
contains-append_right [] s t h = h
contains-append_right (c ∷ a) s t h = ground (arith, contains-append_right a s t)

pub contains-append : (a t b : Str) → contains (a ++ (t ++ b)) t ≡ true
contains-append a t b =
    contains-append_right a (t ++ b) t (contains_of_prefix (t ++ b) t (has_prefix-append t b))
