-- ===== src/Go/Strconv.antt =====
-- Package `strconv`: decimal numbers.
pub mod RoundTrip
use matrisea.Common.{
  ℕ, zero, suc, ◌+◌, ◌-◌, ◌*◌, ◌/◌, ◌%◌, ◌^◌, ◌≤◌, ◌<◌, Str, text, Bool, ◌&&◌, List, [], ◌∷◌, ◌++◌,
  ◌≡◌, refl, ◌∙◌, ltb, leb, ◌==◌, arith, if◌then◌else◌, Result, ok, err, Error, invalid_syntax,
  out_of_range,
}
use matrisea.Common.Int.{ℤ, pos, negsuc}

-- The decimal digits of `n`, on fuel above `n`.
unfoldable pub decimal_fuel : ℕ → ℕ → Str
decimal_fuel zero n = []
decimal_fuel (suc f) n =
    let rest = decimal_fuel f (n / 10) ++ ((48 + n % 10) ∷ []) in
    if ltb n 10 then (48 + n) ∷ [] else rest

unfoldable pub decimal : ℕ → Str
unfolding decimal_fuel
decimal n = decimal_fuel (suc n) n

-- `strconv.Itoa` and `strconv.FormatInt(i, 10)`.
unfoldable pub itoa : ℤ → Str
unfolding decimal
itoa (pos n) = decimal n
itoa (negsuc n) = b'-' ∷ decimal (suc n)

pub data Parsed : Type 0 where
  value : ℕ → Parsed
  bad_digit too_large : Parsed

abbrev pub max_uint64 : ℕ
max_uint64 = 2 ^ 64 - 1

abbrev pub max_int64 : ℕ
max_int64 = 2 ^ 63 - 1

unfoldable pub is_digit : ℕ → Bool
is_digit c = leb b'0' c && leb c b'9'

-- The loop of `ParseUint`: it stops at the first byte that is no digit or passes the range.
unfoldable pub digits_onto : ℕ → Str → Parsed
unfolding is_digit
digits_onto n [] = value n
digits_onto n (c ∷ s) =
    let m = n * 10 + (c - 48) in
    let rest = digits_onto m s in
    if is_digit c then (if ltb max_uint64 m then too_large else rest) else bad_digit

abbrev unsigned : Str → Parsed
unsigned [] = bad_digit
unsigned (c ∷ s) = digits_onto 0 (c ∷ s)

-- `strconv.ParseUint(s, 10, 64)`.
unfoldable pub parse_uint : Str → Result ℕ
unfolding digits_onto
parse_uint s = elim (unsigned s) [
  | value n ↦ ok n
  | bad_digit ↦ err (invalid_syntax (text "ParseUint") s)
  | too_large ↦ err (out_of_range (text "ParseUint") s)
]

-- `strconv.Atoi`, on a machine whose `int` has 64 bits. A sign may come first.
abbrev non_negative : Str → Parsed → Result ℤ
non_negative s (value n) =
    if ltb max_int64 n then err (out_of_range (text "Atoi") s) else ok (pos n)
non_negative s bad_digit = err (invalid_syntax (text "Atoi") s)
non_negative s too_large = err (out_of_range (text "Atoi") s)

abbrev negated : Str → Parsed → Result ℤ
negated s (value zero) = ok (pos 0)
negated s (value (suc n)) =
    if ltb max_int64 n then err (out_of_range (text "Atoi") s) else ok (negsuc n)
negated s bad_digit = err (invalid_syntax (text "Atoi") s)
negated s too_large = err (out_of_range (text "Atoi") s)

unfoldable pub atoi : Str → Result ℤ
unfolding digits_onto
atoi [] = err (invalid_syntax (text "Atoi") [])
atoi (c ∷ s) =
    if c == b'-'
    then negated (c ∷ s) (unsigned s)
    else if c == b'+'
    then non_negative (c ∷ s) (unsigned s)
    else non_negative (c ∷ s) (digits_onto 0 (c ∷ s))

-- The number that `Atoi` returns, also beside an error.
abbrev extreme : Str → ℤ
extreme [] = pos max_int64
extreme (c ∷ s) = if c == b'-' then negsuc max_int64 else pos max_int64

abbrev value_beside : Result ℤ → ℤ
value_beside (ok i) = i
value_beside (err (out_of_range f s)) = extreme s
value_beside _ = pos 0

unfoldable pub atoi_value : Str → ℤ
unfolding atoi
atoi_value s = value_beside (atoi s)
