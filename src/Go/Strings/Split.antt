-- ===== src/Go/Strings/Split.antt =====
-- Splitting undoes joining, and removing a byte works piece by piece.
use matrisea.Common.{ℕ, Str, [], ◌∷◌, ◌++◌, ◌≡◌, ◌≢◌, refl, arith}
use matrisea.Go.Strings.{remove_byte, split}

-- No byte of the string is `c`.
abbrev pub Lacks : ℕ → Str → Type 0
Lacks c [] = Unit
Lacks c (a ∷ s) = (a ≢ c) × Lacks c s

pub Lacks-append : (c : ℕ) (s t : Str) → Lacks c s → Lacks c t → Lacks c (s ++ t)
Lacks-append c [] t h k = k
Lacks-append c (a ∷ s) t h k = (h.0, Lacks-append c s t h.1 k)

pub split-append_sep :
    (sep : ℕ) (w s : Str) → Lacks sep w → split sep (w ++ (sep ∷ s)) ≡ w ∷ split sep s
unfolding split
split-append_sep sep [] s h = ground arith
split-append_sep sep (c ∷ w) s h = ground (arith, split-append_sep sep w s h.1)

pub split_single : (sep : ℕ) (w : Str) → Lacks sep w → split sep w ≡ w ∷ []
unfolding split
split_single sep [] h = refl
split_single sep (c ∷ w) h = ground (arith, split_single sep w h.1)

pub remove_byte-append :
    (c : ℕ) (s t : Str) → remove_byte c (s ++ t) ≡ remove_byte c s ++ remove_byte c t
unfolding remove_byte
remove_byte-append c [] t = refl
remove_byte-append c (a ∷ s) t = ground (arith, remove_byte-append c s t)
