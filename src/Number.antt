-- ===== src/Number.antt =====
-- The decimal numbers of the standard streams: `operator<<` of `uint64_t` and `int`, and
-- `std::stoull` and `std::stoi`, whose exceptions are `none`.
pub mod RoundTrip
use p2p_distributed_file_sha.Prelude.{
  ℕ, zero, suc, ◌+◌, ◌-◌, ◌*◌, ◌/◌, ◌%◌, ◌^◌, ℤ, pos, negsuc, Bool, true, false, ◌&&◌, ◌||◌, Option,
  none, some, [], ◌∷◌, ltb, leb, eqb, if◌then◌else◌,
}
use p2p_distributed_file_sha.Text.{Text}

abbrev pub u64_max : ℕ
u64_max = 2 ^ 64 - 1

-- The largest `int`.
abbrev pub int_max : ℕ
int_max = 2 ^ 31 - 1

-- The digits of `n` in front of `out`. The fuel is more than `n`, and `n` falls by each round.
digits : ℕ → ℕ → Text → Text
digits zero n out = out
digits (suc fuel) n out =
    let rest = digits fuel (n / 10) ((b'0' + n % 10) ∷ out) in
    if ltb n 10 then (b'0' + n) ∷ out else rest

unfoldable pub show_nat : ℕ → Text
unfolding digits
show_nat n = digits (suc n) n []

unfoldable pub show_int : ℤ → Text
show_int (pos n) = show_nat n
show_int (negsuc n) = b'-' ∷ show_nat (suc n)

-- `isspace` of the C locale
unfoldable pub is_space : ℕ → Bool
is_space c = eqb c b' ' || (leb 9 c && leb c 13)

is_digit : ℕ → Bool
is_digit c = leb b'0' c && leb c b'9'

skip_space : Text → Text
skip_space [] = []
skip_space (c ∷ s) = let rest = skip_space s in if is_space c then rest else c ∷ s

-- An optional sign: whether it is a minus, and what follows it.
take_sign : Text → Bool × Text
take_sign [] = (false, [])
take_sign (c ∷ s) =
    if eqb c b'-' then (true, s) else if eqb c b'+' then (false, s) else (false, c ∷ s)

-- The value of the digits up to the first byte that is none.
scan : ℕ → Text → ℕ
scan n [] = n
scan n (c ∷ s) = let rest = scan (n * 10 + (c - b'0')) s in if is_digit c then rest else n

-- At least one digit is wanted.
magnitude : Text → Option ℕ
magnitude [] = none
magnitude (c ∷ s) = if is_digit c then some (scan 0 (c ∷ s)) else none

-- `strtoull` negates behind a minus sign, modulo 2^64.
fit_u64 : Bool → Option ℕ → Option ℕ
fit_u64 minus none = none
fit_u64 minus (some n) =
    if leb n u64_max then some (if minus then (2 ^ 64 - n) % 2 ^ 64 else n) else none

unfoldable pub stoull : Text → Option ℕ
unfolding skip_space take_sign is_space is_digit scan magnitude fit_u64
stoull s = let (minus, rest) = take_sign (skip_space s) in fit_u64 minus (magnitude rest)

negate : ℕ → ℤ
negate zero = pos zero
negate (suc n) = negsuc n

fit_int : Bool → Option ℕ → Option ℤ
fit_int minus none = none
fit_int true (some n) = if leb n (int_max + 1) then some (negate n) else none
fit_int false (some n) = if leb n int_max then some (pos n) else none

unfoldable pub stoi : Text → Option ℤ
unfolding skip_space take_sign is_space is_digit scan magnitude fit_int negate
stoi s = let (minus, rest) = take_sign (skip_space s) in fit_int minus (magnitude rest)
