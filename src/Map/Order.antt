-- ===== src/Map/Order.antt =====
-- The key order of a map under its writes.
use p2p_distributed_file_sha.Prelude.{◌≡◌, refl, true, [], ◌∷◌, ◌++◌, arith, All}
use p2p_distributed_file_sha.Text.{Text, ==_iff, before}
use p2p_distributed_file_sha.Text.Order.{before_asymm, before_trans, before_total, ==_of_before}
use p2p_distributed_file_sha.Map.{Map, put, remove}

module _ {ℓ} {V : Type ℓ} where
  -- The key stands before every key of the map.
  abbrev pub Precedes : Text → Map V → Type 0
  Precedes k [] = Unit
  Precedes k ((j, v) ∷ m) = (before k j ≡ true) × Precedes k m

  abbrev pub Ascending : Map V → Type 0
  Ascending [] = Unit
  Ascending ((k, v) ∷ m) = Precedes k m × Ascending m

  Precedes-trans : (i j : Text) (m : Map V) → before i j ≡ true → Precedes j m → Precedes i m
  Precedes-trans i j [] h p = tt
  Precedes-trans i j ((k, v) ∷ m) h p = (before_trans i j k h p.0, Precedes-trans i j m h p.1)

  Precedes-put :
      (i k : Text) (v : V) (m : Map V) → before i k ≡ true → Precedes i m → Precedes i (put k v m)
  unfolding put
  Precedes-put i k v [] h p = (h, tt)
  Precedes-put i k v ((j, w) ∷ m) h p = ground (arith, Precedes-put i k v m h p.1, ==_iff j k)

  pub put-Ascending : (k : Text) (v : V) (m : Map V) → Ascending m → Ascending (put k v m)
  unfolding put
  put-Ascending k v [] h = (tt, tt)
  put-Ascending k v ((j, w) ∷ m) h = ground (
    arith,
    put-Ascending k v m h.1,
    Precedes-put j k v m,
    Precedes-trans k j m,
    ==_iff j k,
    ==_iff k j,
    before_total k j,
  )

  Precedes-remove : (i k : Text) (m : Map V) → Precedes i m → Precedes i (remove k m)
  unfolding remove
  Precedes-remove i k [] p = tt
  Precedes-remove i k ((j, w) ∷ m) p = ground (arith, Precedes-remove i k m p.1)

  pub remove-Ascending : (k : Text) (m : Map V) → Ascending m → Ascending (remove k m)
  unfolding remove
  remove-Ascending k [] h = tt
  remove-Ascending k ((j, w) ∷ m) h =
      ground (arith, remove-Ascending k m h.1, Precedes-remove j k m h.0)

  -- A key behind all others goes to the end.
  pub put_last :
      (k : Text) (v : V) (done : Map V)
      → All (λ (e : Text × V). before e.0 k ≡ true) done
      → put k v done ≡ done ++ (k, v) ∷ []
  unfolding put
  put_last k v [] h = refl
  put_last k v ((j, w) ∷ m) h =
      ground (arith, put_last k v m h.1, ==_of_before j k, before_asymm j k)
