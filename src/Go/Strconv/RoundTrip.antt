-- ===== src/Go/Strconv/RoundTrip.antt =====
-- Reading a printed number gives the number back.
use matrisea.Common.{
  ℕ, zero, suc, ◌+◌, ◌-◌, ◌*◌, ◌/◌, ◌%◌, ◌≤◌, ◌<◌, Str, [], ◌∷◌, ◌++◌, ◌≡◌, ◌∙◌, refl, ltb, arith,
  Bool-cases, ok, inl, inr, ◌⊎◌,
}
use matrisea.Common.Int.{ℤ, pos, negsuc, pos_part, neg_part}
use matrisea.Go.Strings.Split.{Lacks, Lacks-append}
use matrisea.Go.Strconv.{
  decimal_fuel, decimal, itoa, value, digits_onto, parse_uint, unsigned, atoi, max_uint64,
  max_int64,
}

digits_onto-digit :
    (n d : ℕ)
    → d < 10
    → n * 10 + d ≤ max_uint64
    → digits_onto n ((48 + d) ∷ []) ≡ value (n * 10 + d)
unfolding digits_onto
digits_onto-digit n d small fits = ground arith

digits_onto-append :
    (n : ℕ) (s t : Str) (m : ℕ)
    → digits_onto n s ≡ value m
    → digits_onto n (s ++ t) ≡ digits_onto m t
unfolding digits_onto
digits_onto-append n [] t m h = ground arith
digits_onto-append n (c ∷ s) t m h = ground (arith, digits_onto-append (n * 10 + (c - 48)) s t m)

-- The digits are read back, on any fuel above the number.
digits_onto-decimal_fuel :
    (f n : ℕ) → n < f → n ≤ max_uint64 → digits_onto 0 (decimal_fuel f n) ≡ value n
unfolding decimal_fuel
digits_onto-decimal_fuel zero n lt fits = absurd (omega arith)
digits_onto-decimal_fuel (suc f) n lt fits = elim (Bool-cases (ltb n 10)) [
  | inl one ↦ ground (arith, digits_onto-digit 0 n)
  | inr more ↦ ground (
    arith,
    digits_onto-decimal_fuel f (n / 10),
    digits_onto-append 0 (decimal_fuel f (n / 10)) ((48 + n % 10) ∷ []) (n / 10),
    digits_onto-digit (n / 10) (n % 10),
  )
]

-- A printed number is not empty and begins with a digit.
abbrev StartsWithDigit : Str → Type 0
StartsWithDigit [] = ⊥
StartsWithDigit (c ∷ s) = (48 ≤ c) × (c < 58)

StartsWithDigit-append : (s t : Str) → StartsWithDigit s → StartsWithDigit (s ++ t)
StartsWithDigit-append [] t h = absurd h
StartsWithDigit-append (c ∷ s) t h = h

StartsWithDigit-decimal_fuel : (f n : ℕ) → n < f → StartsWithDigit (decimal_fuel f n)
unfolding decimal_fuel
StartsWithDigit-decimal_fuel zero n h = absurd (omega arith)
StartsWithDigit-decimal_fuel (suc f) n h = elim (Bool-cases (ltb n 10)) [
  | inl one ↦ rw one (ground arith)
  | inr more ↦ rw more (
      StartsWithDigit-append (decimal_fuel f (n / 10)) _
        (StartsWithDigit-decimal_fuel f (n / 10) (ground arith)))
]

unsigned-eq : (s : Str) → StartsWithDigit s → unsigned s ≡ digits_onto 0 s
unsigned-eq [] h = absurd h
unsigned-eq (c ∷ s) h = refl

unsigned-decimal : (n : ℕ) → n ≤ max_uint64 → unsigned (decimal n) ≡ value n
unfolding decimal
unsigned-decimal n fits =
    unsigned-eq _ (StartsWithDigit-decimal_fuel (suc n) n (omega arith))
    ∙ digits_onto-decimal_fuel (suc n) n (omega arith) fits

pub parse_uint-decimal : (n : ℕ) → n ≤ max_uint64 → parse_uint (decimal n) ≡ ok n
unfolding parse_uint
parse_uint-decimal n fits = rw (unsigned-decimal n fits, parse_uint)

atoi_of_digits :
    (s : Str) (n : ℕ)
    → StartsWithDigit s
    → digits_onto 0 s ≡ value n
    → n ≤ max_int64
    → atoi s ≡ ok (pos n)
unfolding atoi
atoi_of_digits [] n h e fits = absurd h
atoi_of_digits (c ∷ s) n h e fits = ground arith

-- The integers that a machine `int` holds.
abbrev pub IsInt64 : ℤ → Type 0
IsInt64 i = (pos_part i ≤ max_int64) × (neg_part i ≤ max_int64 + 1)

pub atoi-itoa : (i : ℤ) → IsInt64 i → atoi (itoa i) ≡ ok i
unfolding itoa
atoi-itoa (pos n) fits =
    atoi_of_digits (decimal n) n (StartsWithDigit-decimal_fuel (suc n) n (omega arith))
      (digits_onto-decimal_fuel (suc n) n (omega arith) (omega arith)) fits.0
atoi-itoa (negsuc n) fits = unfold atoi in ground (arith, unsigned-decimal (suc n))

Lacks-decimal_fuel : (c f n : ℕ) → (c < 48) ⊎ (57 < c) → Lacks c (decimal_fuel f n)
unfolding decimal_fuel
Lacks-decimal_fuel c zero n h = tt
Lacks-decimal_fuel c (suc f) n h = elim (Bool-cases (ltb n 10)) [
  | inl one ↦ rw one (ground arith)
  | inr more ↦ rw more (
      Lacks-append c (decimal_fuel f (n / 10)) _ (Lacks-decimal_fuel c f (n / 10) h)
        (ground arith, tt))
]

-- A printed number holds no byte but digits.
pub decimal-Lacks : (c n : ℕ) → (c < 48) ⊎ (57 < c) → Lacks c (decimal n)
unfolding decimal
decimal-Lacks c n h = Lacks-decimal_fuel c (suc n) n h
