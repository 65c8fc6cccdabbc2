-- ===== src/Pool.antt =====
-- The pool of threads of tracker/headers/tracker_threads.cpp and client/headers/client_threads.cpp,
-- and the functions that give a thread to a task: `Tracker::assign_task_to_thread` and, in the
-- client, `assign_task_to_thread` and `assign_download_task`.
pub mod Slots
pub mod Joins
use p2p_distributed_file_sha.Prelude.{
  ℕ, zero, suc, ◌+◌, ◌<◌, ◌≡◌, Bool, true, false, ◌||◌, Option, none, some, List, [], ◌∷◌, eqb,
  if◌then◌else◌,
}

-- `thread_available`; what `joinable()` says of each object of `thread_pool`; the indexes that a
-- thread has got under the lock and has not yet given to a task; those of the tasks that are started
-- and not yet detached; and those with which a task runs.
pub record Pool : Type 0 where
  pub thread_available : List Bool
  pub joinable : List Bool
  pub claimed : List ℕ
  pub detaching : List ℕ
  pub running : List ℕ

unfoldable pub is_any_thread_available : List Bool → Bool
is_any_thread_available [] = false
is_any_thread_available (available ∷ l) = available || is_any_thread_available l

next_slot : Bool → Option (ℕ × List Bool) → Option (ℕ × List Bool)
next_slot b none = none
next_slot b (some (i, l)) = some (suc i, b ∷ l)

-- The first index that is available, with the flags after it is taken; none stands for -1.
unfoldable pub get_available_thread : List Bool → Option (ℕ × List Bool)
unfolding next_slot
get_available_thread [] = none
get_available_thread (true ∷ l) = some (0, false ∷ l)
get_available_thread (false ∷ l) = next_slot false (get_available_thread l)

-- `thread_available[idx] = true`
unfoldable pub release_thread : ℕ → List Bool → List Bool
release_thread idx [] = []
release_thread zero (b ∷ l) = true ∷ l
release_thread (suc idx) (b ∷ l) = b ∷ release_thread idx l

-- `MAX_THREADS` flags
unfoldable pub all_available : ℕ → List Bool
all_available zero = []
all_available (suc n) = true ∷ all_available n

-- Objects of `thread` that hold no thread, as `resize` makes them.
unfoldable pub no_threads : ℕ → List Bool
no_threads zero = []
no_threads (suc n) = false ∷ no_threads n

abbrev pub fresh_pool : ℕ → Pool
fresh_pool max_threads = record {
  thread_available = all_available max_threads;
  joinable = no_threads max_threads;
  claimed = [];
  detaching = [];
  running = [];
}

unfoldable pub any_joinable : List Bool → Bool
any_joinable [] = false
any_joinable (b ∷ l) = b || any_joinable l

-- `clear_thread_pool`: all flags are true and no object holds a thread, whatever runs; none stands
-- for the end of the process, when an object that holds a thread is destroyed.
unfoldable pub clear_thread_pool : ℕ → Pool → Option Pool
clear_thread_pool max_threads p =
    if any_joinable p.joinable
    then none
    else some (record p {
      thread_available = all_available max_threads;
      joinable = no_threads max_threads;
    })

unfoldable pub is_joinable : ℕ → List Bool → Bool
is_joinable idx [] = false
is_joinable zero (b ∷ l) = b
is_joinable (suc idx) (b ∷ l) = is_joinable idx l

unfoldable pub set_joinable : ℕ → Bool → List Bool → List Bool
set_joinable idx b [] = []
set_joinable zero b (c ∷ l) = b ∷ l
set_joinable (suc idx) b (c ∷ l) = c ∷ set_joinable idx b l

-- The indexes at which `join_all_threads` waits, from `idx` on.
unfoldable pub joins_from : ℕ → List Bool → List ℕ
joins_from idx [] = []
joins_from idx (b ∷ l) = let rest = joins_from (suc idx) l in if b then idx ∷ rest else rest

unfoldable pub join_all_threads : Pool → List ℕ
join_all_threads p = joins_from 0 p.joinable

unfoldable pub remove_one : ℕ → List ℕ → List ℕ
remove_one i [] = []
remove_one i (j ∷ l) = let rest = remove_one i l in if eqb i j then l else j ∷ rest

unfoldable pub take_slot : Pool → Option (ℕ × List Bool) → Option Pool
take_slot p none = none
take_slot p (some (i, l)) = some (record p { thread_available = l; claimed = i ∷ p.claimed })

-- What is done under the lock; none stands for the wait on the condition variable.
unfoldable pub claim : Pool → Option Pool
claim p = take_slot p (get_available_thread p.thread_available)

-- `thread_pool[idx] = thread(...)`, without the lock: the task runs. None stands for the end of the
-- process, when the object holds a thread.
unfoldable pub spawn : ℕ → Pool → Option Pool
spawn i p =
    if is_joinable i p.joinable
    then none
    else some (record p {
      joinable = set_joinable i true p.joinable;
      claimed = remove_one i p.claimed;
      detaching = i ∷ p.detaching;
      running = i ∷ p.running;
    })

-- `thread_pool[idx].detach()`
unfoldable pub detach : ℕ → Pool → Pool
detach i p = record p {
  joinable = set_joinable i false p.joinable;
  detaching = remove_one i p.detaching;
}

-- The end of a task: it calls `release_thread`.
unfoldable pub end_task : ℕ → Pool → Pool
end_task i p = record p {
  thread_available = release_thread i p.thread_available;
  running = remove_one i p.running;
}

-- How often the index is in use.
unfoldable pub count : ℕ → List ℕ → ℕ
count i [] = 0
count i (j ∷ l) = let rest = count i l in if eqb i j then suc rest else rest

-- The pools that come about: any number of threads assign tasks, one step at a time, and tasks end,
-- in any order.
pub data Reached (max_threads : ℕ) : Pool → Type 0 where
  starts : Reached max_threads (fresh_pool max_threads)
  claims : (p q : Pool) → Reached max_threads p → claim p ≡ some q → Reached max_threads q
  spawns :
      (p q : Pool) (i : ℕ)
      → Reached max_threads p
      → 0 < count i p.claimed
      → spawn i p ≡ some q
      → Reached max_threads q
  detaches :
      (p : Pool) (i : ℕ)
      → Reached max_threads p
      → 0 < count i p.detaching
      → Reached max_threads (detach i p)
  ends :
      (p : Pool) (i : ℕ)
      → Reached max_threads p
      → 0 < count i p.running
      → Reached max_threads (end_task i p)
