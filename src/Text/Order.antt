-- ===== src/Text/Order.antt =====
-- The order of texts.
use p2p_distributed_file_sha.Prelude.{◌≡◌, refl, true, false, [], ◌∷◌, arith}
use p2p_distributed_file_sha.Text.{Text, ◌==◌, before}

pub before_irrefl : (s : Text) → before s s ≡ false
unfolding before
before_irrefl [] = refl
before_irrefl (x ∷ xs) = ground (arith, before_irrefl xs)

pub before_asymm : (s t : Text) → before s t ≡ true → before t s ≡ false
unfolding before
before_asymm s [] h = cc
before_asymm [] (y ∷ ys) h = refl
before_asymm (x ∷ xs) (y ∷ ys) h = ground (arith, before_asymm xs ys)

pub before_trans : (s t u : Text) → before s t ≡ true → before t u ≡ true → before s u ≡ true
unfolding before
before_trans s [] u h k = cc
before_trans s (y ∷ ys) [] h k = cc
before_trans [] (y ∷ ys) (z ∷ zs) h k = refl
before_trans (x ∷ xs) (y ∷ ys) (z ∷ zs) h k = ground (arith, before_trans xs ys zs)

pub before_total : (s t : Text) → (s == t) ≡ false → before s t ≡ false → before t s ≡ true
unfolding before ◌==◌
before_total [] [] h k = cc
before_total [] (y ∷ ys) h k = cc
before_total (x ∷ xs) [] h k = refl
before_total (x ∷ xs) (y ∷ ys) h k = ground (arith, before_total xs ys)

pub ==_of_before : (s t : Text) → before s t ≡ true → (s == t) ≡ false
unfolding before ◌==◌
==_of_before s [] h = cc
==_of_before [] (y ∷ ys) h = refl
==_of_before (x ∷ xs) (y ∷ ys) h = ground (arith, ==_of_before xs ys)
