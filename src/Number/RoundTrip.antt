-- ===== src/Number/RoundTrip.antt =====
-- `operator<<` and `std::stoull` or `std::stoi` together.
use p2p_distributed_file_sha.Prelude.{
  ℕ, zero, suc, ◌+◌, ◌/◌, ◌%◌, ◌≤◌, ◌<◌, ℤ, pos, negsuc, ◌≡◌, refl, ap, ◌∙◌, ◌≢◌, false, some, [],
  ◌∷◌, arith, All,
}
use p2p_distributed_file_sha.Text.{Text}
use p2p_distributed_file_sha.Number.{
  u64_max, int_max, digits, show_nat, show_int, is_space, is_digit, skip_space, take_sign, scan,
  magnitude, stoull, stoi,
}

abbrev pub IsDigit : ℕ → Type 0
IsDigit c = (b'0' ≤ c) × (c ≤ b'9')

-- The digits of `n` are read as `n`, whatever was read in front of them is shifted.
scan-digits : (fuel n : ℕ) (out : Text) → n < fuel → scan 0 (digits fuel n out) ≡ scan n out
unfolding digits scan is_digit
scan-digits zero n out h = absurd (omega arith)
scan-digits (suc fuel) n out h = ground (arith, scan-digits fuel (n / 10) ((b'0' + n % 10) ∷ out))

digits-IsDigit : (fuel n : ℕ) (out : Text) → All IsDigit out → All IsDigit (digits fuel n out)
unfolding digits
digits-IsDigit zero n out h = h
digits-IsDigit (suc fuel) n out h =
    ground (arith, digits-IsDigit fuel (n / 10) ((b'0' + n % 10) ∷ out))

pub show_nat-IsDigit : (n : ℕ) → All IsDigit (show_nat n)
unfolding show_nat
show_nat-IsDigit n = digits-IsDigit (suc n) n [] tt

digits-ne-nil : (fuel n : ℕ) (out : Text) → out ≢ [] → digits fuel n out ≢ []
unfolding digits
digits-ne-nil zero n out h = h
digits-ne-nil (suc fuel) n out h =
    ground (arith, digits-ne-nil fuel (n / 10) ((b'0' + n % 10) ∷ out))

pub show_nat-ne-nil : (n : ℕ) → show_nat n ≢ []
unfolding show_nat
show_nat-ne-nil n = ground (arith, digits-ne-nil n (n / 10) ((b'0' + n % 10) ∷ []))

skip_space_digits : (s : Text) → All IsDigit s → skip_space s ≡ s
unfolding skip_space is_space
skip_space_digits [] h = refl
skip_space_digits (c ∷ s) h = ground arith

take_sign_digits : (s : Text) → All IsDigit s → take_sign s ≡ (false, s)
unfolding take_sign
take_sign_digits [] h = refl
take_sign_digits (c ∷ s) h = ground arith

magnitude_digits : (s : Text) → s ≢ [] → All IsDigit s → magnitude s ≡ some (scan 0 s)
unfolding magnitude is_digit
magnitude_digits [] n h = absurd (n refl)
magnitude_digits (c ∷ s) n h = ground arith

magnitude-show_nat : (n : ℕ) → magnitude (show_nat n) ≡ some n
unfolding show_nat
magnitude-show_nat n =
    magnitude_digits _ (show_nat-ne-nil n) (show_nat-IsDigit n)
    ∙ ap some (scan-digits (suc n) n [] (omega arith) ∙ unfold scan in refl)

-- Every unsigned 64-bit number is read back by stoull from its print.
pub stoull-show_nat : (n : ℕ) → n ≤ u64_max → stoull (show_nat n) ≡ some n
unfolding stoull
stoull-show_nat n h =
    rw
      (
        skip_space_digits (show_nat n) (show_nat-IsDigit n),
        take_sign_digits (show_nat n) (show_nat-IsDigit n),
        magnitude-show_nat n,
      )
      (ground arith)

abbrev pub IsInt : ℤ → Type 0
IsInt (pos n) = n ≤ int_max
IsInt (negsuc n) = n ≤ int_max

-- Every 32-bit int is read back by stoi from its print.
pub stoi-show_int : (z : ℤ) → IsInt z → stoi (show_int z) ≡ some z
unfolding stoi show_int
stoi-show_int (pos n) h =
    rw
      (
        skip_space_digits (show_nat n) (show_nat-IsDigit n),
        take_sign_digits (show_nat n) (show_nat-IsDigit n),
        magnitude-show_nat n,
      )
      (ground arith)
stoi-show_int (negsuc n) h = rw (magnitude-show_nat (suc n)) (ground arith)
