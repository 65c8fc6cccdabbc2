-- ===== src/Map.antt =====
-- `std::map` and `std::unordered_map` with text keys, as an association list in key order, which is
-- the order of `std::map`.
pub mod Order
use p2p_distributed_file_sha.Prelude.{
  ◌≡◌, refl, Bool, true, false, Option, none, some, List, [], ◌∷◌, arith, is_some, if◌then◌else◌,
}
use p2p_distributed_file_sha.Text.{Text, ◌==◌, ==_iff, before, mem}

abbrev pub Map {ℓ} : Type ℓ → Type ℓ
Map V = List (Text × V)

module _ {ℓ} {V : Type ℓ} where
  -- m.find(k)
  unfoldable pub get : Text → Map V → Option V
  get k [] = none
  get k ((j, v) ∷ m) = if j == k then some v else get k m

  -- m.count(k) > 0
  abbrev pub contains : Text → Map V → Bool
  contains k m = is_some (get k m)

  -- m[k] = v
  unfoldable pub put : Text → V → Map V → Map V
  put k v [] = (k, v) ∷ []
  put k v ((j, w) ∷ m) =
      let rest = put k v m in
      if j == k then (k, v) ∷ m else if before k j then (k, v) ∷ (j, w) ∷ m else (j, w) ∷ rest

  -- m.erase(k)
  unfoldable pub remove : Text → Map V → Map V
  remove k [] = []
  remove k ((j, v) ∷ m) = let rest = remove k m in if j == k then rest else (j, v) ∷ rest

  -- the keys, in the order of iteration
  unfoldable pub keys : Map V → List Text
  keys [] = []
  keys ((k, v) ∷ m) = k ∷ keys m

  pub get-nil : (k : Text) → get k [] ≡ none
  unfolding get
  get-nil k = refl

  pub get-cons :
      (k j : Text) (v : V) (m : Map V) → get k ((j, v) ∷ m) ≡ (if j == k then some v else get k m)
  unfolding get
  get-cons k j v m = refl

  pub get-put :
      (k j : Text) (v : V) (m : Map V) → get j (put k v m) ≡ (if k == j then some v else get j m)
  unfolding get put
  get-put k j v [] = refl
  get-put k j v ((i, w) ∷ m) = ground (arith, ==_iff k j, ==_iff i k, ==_iff i j, get-put k j v m)

  pub get-remove :
      (k j : Text) (m : Map V) → get j (remove k m) ≡ (if k == j then none else get j m)
  unfolding get remove
  get-remove k j [] = ground arith
  get-remove k j ((i, v) ∷ m) = ground (arith, ==_iff k j, ==_iff i k, ==_iff i j, get-remove k j m)

  pub get-put_same : (k j : Text) (v : V) (m : Map V) → (k == j) ≡ true → get j (put k v m) ≡ some v
  get-put_same k j v m e = ground (arith, get-put k j v m)

  pub get-put_other :
      (k j : Text) (v : V) (m : Map V) → (k == j) ≡ false → get j (put k v m) ≡ get j m
  get-put_other k j v m e = ground (arith, get-put k j v m)

  pub get-remove_present :
      (k j : Text) (m : Map V) {v : V} → get j (remove k m) ≡ some v → get j m ≡ some v
  get-remove_present k j m e = ground (arith, get-remove k j m)

  pub mem-keys : (k : Text) (m : Map V) → mem k (keys m) ≡ contains k m
  unfolding keys get mem
  mem-keys k [] = refl
  mem-keys k ((j, v) ∷ m) = ground (arith, mem-keys k m)
