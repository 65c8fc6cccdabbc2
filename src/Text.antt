-- ===== src/Text.antt =====
-- Text as the program walks it: a list of bytes, with the equality and the order of `std::string`.
pub mod Order
use Prim.Native.Char.{code}
use p2p_distributed_file_sha.Prelude.{
  ℕ, ◌≡◌, refl, subst, ◌↔◌, Bool, true, false, not, ◌&&◌, ◌||◌, List, [], ◌∷◌, ◌++◌, String, arith,
  ltb, eqb, if◌then◌else◌,
}

abbrev pub Text : Type 0
Text = List ℕ

-- The bytes of an ASCII literal.
abbrev pub codes : String → Text
codes String.[] = []
codes (String.◌∷◌ c s) = code c ∷ codes s

infix 50 ◌==◌
unfoldable pub ◌==◌ : Text → Text → Bool
[] == [] = true
[] == (y ∷ ys) = false
(x ∷ xs) == [] = false
(x ∷ xs) == (y ∷ ys) = eqb x y && xs == ys

eq_of_== : (s t : Text) → (s == t) ≡ true → s ≡ t
unfolding ◌==◌
eq_of_== [] [] h = refl
eq_of_== [] (y ∷ ys) h = cc
eq_of_== (x ∷ xs) [] h = cc
eq_of_== (x ∷ xs) (y ∷ ys) h = ground (arith, eq_of_== xs ys)

pub ==_refl : (s : Text) → (s == s) ≡ true
unfolding ◌==◌
==_refl [] = refl
==_refl (x ∷ xs) = ground (arith, ==_refl xs)

pub ==_iff : (s t : Text) → ((s == t) ≡ true) ↔ (s ≡ t)
==_iff s t = (eq_of_== s t, λ e. subst (λ u. (s == u) ≡ true) e (==_refl s))

-- `operator<` of `std::string`: lexicographic, by unsigned bytes.
unfoldable pub before : Text → Text → Bool
before s [] = false
before [] (y ∷ ys) = true
before (x ∷ xs) (y ∷ ys) = ltb x y || (eqb x y && before xs ys)

-- `find(v.begin(), v.end(), a) != v.end()` and `s.count(a)`
unfoldable pub mem : Text → List Text → Bool
mem a [] = false
mem a (b ∷ l) = b == a || mem a l

-- `v.erase(find(v.begin(), v.end(), a))`
unfoldable pub erase_first : Text → List Text → List Text
erase_first a [] = []
erase_first a (b ∷ l) = let rest = erase_first a l in if b == a then l else b ∷ rest

-- No text stands twice in the list.
abbrev pub Distinct : List Text → Type 0
Distinct [] = Unit
Distinct (a ∷ l) = (mem a l ≡ false) × Distinct l

pub mem-nil : (a : Text) → mem a [] ≡ false
unfolding mem
mem-nil a = refl

pub mem-cons : (a b : Text) (l : List Text) → mem a (b ∷ l) ≡ (b == a || mem a l)
unfolding mem
mem-cons a b l = refl

pub mem-append : (a : Text) (l k : List Text) → mem a (l ++ k) ≡ (mem a l || mem a k)
unfolding mem
mem-append a [] k = refl
mem-append a (b ∷ l) k = ground (arith, mem-append a l k)

pub mem-erase_first :
    (a b : Text) (l : List Text) → Distinct l → mem b (erase_first a l) ≡ (not (a == b) && mem b l)
unfolding mem erase_first
mem-erase_first a b [] d = ground arith
mem-erase_first a b (c ∷ l) d =
    ground (arith, mem-erase_first a b l d.1, ==_iff a b, ==_iff c a, ==_iff c b)

pub erase_first-Distinct : (a : Text) (l : List Text) → Distinct l → Distinct (erase_first a l)
unfolding mem erase_first
erase_first-Distinct a [] d = tt
erase_first-Distinct a (c ∷ l) d =
    ground (arith, erase_first-Distinct a l d.1, mem-erase_first a c l d.1)

pub append-Distinct :
    (a : Text) (l : List Text) → Distinct l → mem a l ≡ false → Distinct (l ++ a ∷ [])
unfolding mem
append-Distinct a [] d h = (refl, tt)
append-Distinct a (c ∷ l) d h =
    ground (arith, append-Distinct a l d.1, mem-append c l (a ∷ []), ==_iff a c, ==_iff c a)
