-- ===== src/Pool/Joins.antt =====
-- What `join_all_threads` waits for, and what ends the process.
use p2p_distributed_file_sha.Prelude.{ℕ, suc, ◌<◌, ◌≡◌, refl, true, false, none, [], ◌∷◌, arith}
use p2p_distributed_file_sha.Pool.{
  Pool, fresh_pool, no_threads, all_available, is_joinable, set_joinable, remove_one, take_slot,
  claim, spawn, get_available_thread, release_thread, end_task, count, Reached, starts, claims,
  spawns, ends,
}

-- An object holds only a thread that is not yet detached.
abbrev Watched : Pool → Type 0
Watched p = (j : ℕ) → is_joinable j p.joinable ≡ true → 0 < count j p.detaching

-- One index is claimed, and its object holds a thread that has ended.
abbrev overwriting : ℕ → Pool
overwriting n = record {
  thread_available = false ∷ all_available n;
  joinable = true ∷ no_threads n;
  claimed = 0 ∷ [];
  detaching = 0 ∷ [];
  running = [];
}

-- If a task ends before the thread that has started it detaches it, another thread can get its
-- index and then ends the process by starting a task there, with no task running at all.
pub overwrite_race :
    (n : ℕ)
    → (p : Pool) × Reached (suc n) p
      × (0 < count 0 p.claimed)
      × (p.running ≡ [])
      × (spawn 0 p ≡ none)
unfolding claim spawn end_task get_available_thread take_slot release_thread remove_one count
    all_available no_threads is_joinable set_joinable
overwrite_race n =
    let first : Pool = record (fresh_pool (suc n)) {
      thread_available = false ∷ all_available n;
      claimed = 0 ∷ [];
    } in
    let started : Pool = record {
      thread_available = false ∷ all_available n;
      joinable = true ∷ no_threads n;
      claimed = [];
      detaching = 0 ∷ [];
      running = 0 ∷ [];
    } in
    (
      overwriting n,
      claims (end_task 0 started) (overwriting n)
          (ends started 0
            (spawns first started 0 (claims (fresh_pool (suc n)) first starts refl) (omega arith)
              refl)
            (omega arith))
          refl,
      omega arith,
      refl,
      refl,
    )
