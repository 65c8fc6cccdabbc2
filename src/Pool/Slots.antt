-- ===== src/Pool/Slots.antt =====
-- Which tasks have which threads.
use p2p_distributed_file_sha.Prelude.{
  ℕ, zero, suc, ◌+◌, ◌-◌, ◌<◌, ◌≤◌, ◌≡◌, refl, ap, sym, subst, ◌∙◌, inl, inr, Bool-cases, Bool,
  true, false, Option, none, some, is_some, List, [], ◌∷◌, eqb, eqb_iff, if◌then◌else◌, arith,
}
use p2p_distributed_file_sha.Pool.{
  Pool, is_any_thread_available, next_slot, get_available_thread, release_thread, all_available,
  take_slot, claim, spawn, detach, is_joinable, set_joinable, remove_one, end_task, count, Reached,
  starts, claims, spawns, detaches, ends,
}

-- 1 for an index whose flag says that it is taken.
unfoldable pub taken : ℕ → List Bool → ℕ
taken i [] = 0
taken zero (b ∷ l) = if b then 0 else 1
taken (suc i) (b ∷ l) = taken i l

taken-all_available : (i n : ℕ) → taken i (all_available n) ≡ 0
unfolding taken all_available
taken-all_available i zero = refl
taken-all_available zero (suc n) = refl
taken-all_available (suc i) (suc n) = taken-all_available i n

taken_le : (i : ℕ) (l : List Bool) → taken i l ≤ 1
unfolding taken
taken_le i [] = omega arith
taken_le zero (b ∷ l) = ground arith
taken_le (suc i) (b ∷ l) = taken_le i l

taken-release_thread :
    (i j : ℕ) (l : List Bool) → taken j (release_thread i l) ≡ (if eqb i j then 0 else taken j l)
unfolding taken release_thread
taken-release_thread i j [] = ground arith
taken-release_thread zero zero (b ∷ l) = ground arith
taken-release_thread zero (suc j) (b ∷ l) = ground arith
taken-release_thread (suc i) zero (b ∷ l) = ground arith
taken-release_thread (suc i) (suc j) (b ∷ l) = taken-release_thread i j l ∙ ground arith

count-remove_one :
    (i j : ℕ) (l : List ℕ)
    → count j (remove_one i l) ≡ (if eqb i j then count j l - 1 else count j l)
unfolding count remove_one
count-remove_one i j [] = ground arith
count-remove_one i j (k ∷ l) = ground (arith, count-remove_one i j l)

-- The index was free, and is all that is taken.
record Claims (l : List Bool) (i : ℕ) (l' : List Bool) : Type 0 where
  was_free : taken i l ≡ 0
  now : (j : ℕ) → taken j l' ≡ (if eqb j i then 1 else taken j l)

first_now :
    (l : List Bool) (j : ℕ) → taken j (false ∷ l) ≡ (if eqb j 0 then 1 else taken j (true ∷ l))
unfolding taken
first_now l zero = ground arith
first_now l (suc j) = ground arith

first-Claims : (l : List Bool) → Claims (true ∷ l) 0 (false ∷ l)
unfolding taken
first-Claims l = record { was_free = refl; now = first_now l }

later_now :
    (l l' : List Bool) (i : ℕ)
    → ((j : ℕ) → taken j l' ≡ (if eqb j i then 1 else taken j l))
    → (j : ℕ) → taken j (false ∷ l') ≡ (if eqb j (suc i) then 1 else taken j (false ∷ l))
unfolding taken
later_now l l' i h zero = ground arith
later_now l l' i h (suc j) = h j ∙ ground arith

later-Claims :
    (l : List Bool) (i : ℕ) (l' : List Bool)
    → Claims l i l'
    → Claims (false ∷ l) (suc i) (false ∷ l')
unfolding taken
later-Claims l i l' c = record { was_free = c.was_free; now = later_now l l' i c.now }

next_slot-Claims :
    (l : List Bool) (m : Option (ℕ × List Bool)) (r : ℕ × List Bool)
    → ((q : ℕ × List Bool) → m ≡ some q → Claims l q.0 q.1)
    → next_slot false m ≡ some r
    → Claims (false ∷ l) r.0 r.1
unfolding next_slot
next_slot-Claims l none r f h = cc
next_slot-Claims l (some (i, l')) r f h =
    let e : (suc i, false ∷ l') ≡ r = cc in
    subst (λ q. Claims (false ∷ l) q.0 q.1) e (later-Claims l i l' (f (i, l') refl))

get_available_thread-Claims :
    (l : List Bool) (r : ℕ × List Bool) → get_available_thread l ≡ some r → Claims l r.0 r.1
unfolding get_available_thread
get_available_thread-Claims [] r h = cc
get_available_thread-Claims (true ∷ l) r h =
    let e : (0, false ∷ l) ≡ r = cc in subst (λ q. Claims (true ∷ l) q.0 q.1) e (first-Claims l)
get_available_thread-Claims (false ∷ l) r h =
    next_slot-Claims l (get_available_thread l) r (λ q e. get_available_thread-Claims l q e) h

is_some-next_slot : (m : Option (ℕ × List Bool)) → is_some (next_slot false m) ≡ is_some m
unfolding next_slot
is_some-next_slot none = refl
is_some-next_slot (some (i, l)) = refl

-- The wait is over exactly when there is an index to get.
pub is_any_thread_available-get_available_thread :
    (l : List Bool) → is_any_thread_available l ≡ is_some (get_available_thread l)
unfolding is_any_thread_available get_available_thread next_slot
is_any_thread_available-get_available_thread [] = refl
is_any_thread_available-get_available_thread (true ∷ l) = refl
is_any_thread_available-get_available_thread (false ∷ l) =
    is_any_thread_available-get_available_thread l
    ∙ sym (is_some-next_slot (get_available_thread l))

-- Each index is in use as often as its flag says, by a thread that is about to start a task with it
-- or by a task that runs: once if it is taken, and not at all if not.
abbrev pub Exclusive : Pool → Type 0
Exclusive p = (i : ℕ) → count i p.claimed + count i p.running ≡ taken i p.thread_available

take_slot-Exclusive :
    (p q : Pool) (m : Option (ℕ × List Bool))
    → Exclusive p
    → get_available_thread p.thread_available ≡ m
    → take_slot p m ≡ some q
    → Exclusive q
unfolding take_slot count
take_slot-Exclusive p q none ex got h = cc
take_slot-Exclusive p q (some (i, l)) ex got h =
    let c = get_available_thread-Claims p.thread_available (i, l) got in
    let e : record p { thread_available = l; claimed = i ∷ p.claimed } ≡ q = cc in
    subst Exclusive e (λ j. elim (Bool-cases (eqb j i)) [
      | inl same ↦
          let free = ap (λ k. taken k p.thread_available) ((eqb_iff j i).0 same) in
          ground (arith, ex j, c.now j, c.was_free, free)
      | inr other ↦ ground (arith, ex j, c.now j)
    ])

spawn-Exclusive :
    (p q : Pool) (i : ℕ) → Exclusive p → 0 < count i p.claimed → spawn i p ≡ some q → Exclusive q
unfolding spawn count
spawn-Exclusive p q i ex held h = elim (Bool-cases (is_joinable i p.joinable)) [
  | inl overwrites ↦ absurd (cc)
  | inr vacant ↦
      let e : record p {
        joinable = set_joinable i true p.joinable;
        claimed = remove_one i p.claimed;
        detaching = i ∷ p.detaching;
        running = i ∷ p.running;
      }
          ≡ q =
        cc in
      subst Exclusive e (λ j. elim (Bool-cases (eqb j i)) [
        | inl same ↦
            let at_i = ap (λ k. count k p.claimed) ((eqb_iff j i).0 same) in
            ground (arith, ex j, count-remove_one i j p.claimed, eqb_iff i j, eqb_iff j i, at_i)
        | inr other ↦ ground (arith, ex j, count-remove_one i j p.claimed, eqb_iff i j, eqb_iff j i)
      ])
]

end_task-Exclusive :
    (p : Pool) (i : ℕ) → Exclusive p → 0 < count i p.running → Exclusive (end_task i p)
unfolding end_task
end_task-Exclusive p i ex runs j = elim (Bool-cases (eqb i j)) [
  | inl same ↦
      let at_i = ap (λ k. count k p.running) ((eqb_iff i j).0 same) in
      ground (
        arith,
        ex j,
        at_i,
        taken_le j p.thread_available,
        count-remove_one i j p.running,
        taken-release_thread i j p.thread_available,
      )
  | inr other ↦
      ground
        (arith, ex j, count-remove_one i j p.running, taken-release_thread i j p.thread_available)
]

-- Whatever tasks are started and end, and in whatever order, each index of the pool is in use by
-- one task, which runs or is about to be started, if its flag says that it is taken, and by none if
-- the flag says that it is available.
pub Reached-Exclusive : (max_threads : ℕ) (p : Pool) → Reached max_threads p → Exclusive p
unfolding count claim detach
Reached-Exclusive n _ starts = λ i. sym (taken-all_available i n)
Reached-Exclusive n _ (claims p q r e) =
    take_slot-Exclusive p q (get_available_thread p.thread_available) (Reached-Exclusive n p r) refl
      e
Reached-Exclusive n _ (spawns p q i r held e) =
    spawn-Exclusive p q i (Reached-Exclusive n p r) held e
Reached-Exclusive n _ (detaches p i r h) = Reached-Exclusive n p r
Reached-Exclusive n _ (ends p i r h) = end_task-Exclusive p i (Reached-Exclusive n p r) h
