-- ===== src/Programs/Stopping.antt =====
-- How a tracker ends: `Tracker::input_listener` and `Tracker::stop` of
-- tracker/headers/tracker_sckelton.cpp.
use p2p_distributed_file_sha.Prelude.{
  ℕ, zero, suc, ◌≡◌, ◌⊎◌, inl, inr, Bool-cases, refl, ap, Bool, true, false, ◌||◌, Option, none,
  some, List, [], ◌∷◌, ◌++◌, All, map, if◌then◌else◌,
}
use p2p_distributed_file_sha.Text.{Text, codes, ◌==◌}
use p2p_distributed_file_sha.Pool.{
  Pool, clear_thread_pool, join_all_threads, joins_from, no_threads, all_available, any_joinable,
}
use p2p_distributed_file_sha.Programs.{Tracker}

-- How the thread that reads the console goes on: the process ends in `stop`, when an object that
-- holds a thread is destroyed, or the signal is raised that ends it, when `stop` has waited at these
-- indexes.
pub data Listener : Type 0 where
  runs_on : Listener
  terminates : Listener
  raises : Tracker → (waited : List ℕ) → Listener

cleared : Tracker → Option Pool → Listener
cleared t none = terminates
cleared t (some pool) = raises (record t { pool = pool }) (join_all_threads pool)

-- `stop`, and `raise` behind it.
unfoldable pub stop : ℕ → Tracker → Listener
unfolding cleared
stop max_threads t = cleared t (clear_thread_pool max_threads t.pool)

abbrev pub is_quit : Text → Bool
is_quit cmd = cmd == codes "quit" || cmd == codes "exit"

abbrev pub shutting_down : Text
shutting_down = codes "Shutting down...\n"

abbrev pub unknown_command : Text → Text
unknown_command cmd = codes "Unknown command: " ++ (cmd ++ codes "\n")

-- The words of the console, each with the tracker at the moment at which it is read, and what is
-- printed for them.
unfoldable pub input_listener : ℕ → List (Text × Tracker) → List Text × Listener
input_listener max_threads [] = ([], runs_on)
input_listener max_threads ((cmd, t) ∷ words) =
    let (printed, end) = input_listener max_threads words in
    if is_quit cmd
    then (shutting_down ∷ [], stop max_threads t)
    else (unknown_command cmd ∷ printed, end)

joins-no_threads : (n i : ℕ) → joins_from i (no_threads n) ≡ []
unfolding joins_from no_threads
joins-no_threads zero i = refl
joins-no_threads (suc n) i = joins-no_threads n (suc i)

stop_waits_none :
    (max_threads : ℕ) (t : Tracker)
    → any_joinable t.pool.joinable ≡ false
    → (stopped : Tracker) × (stop max_threads t ≡ raises stopped [])
unfolding stop cleared clear_thread_pool join_all_threads
stop_waits_none n t vacant =
    let pool : Pool = record t.pool {
      thread_available = all_available n;
      joinable = no_threads n;
    } in
    (
      record t { pool = pool },
      rw vacant (ap (raises (record t { pool = pool })) (joins-no_threads n 0)),
    )

stop_terminates :
    (max_threads : ℕ) (t : Tracker)
    → any_joinable t.pool.joinable ≡ true
    → stop max_threads t ≡ terminates
unfolding stop cleared clear_thread_pool
stop_terminates n t held = rw held refl

-- What is printed before the word, with the word's own line.
answered :
    (max_threads : ℕ) (before behind : List (Text × Tracker)) (cmd : Text) (t : Tracker)
    → All (λ w. is_quit w.0 ≡ false) before
    → is_quit cmd ≡ true
    → input_listener max_threads (before ++ (cmd, t) ∷ behind)
      ≡ (map (λ w. unknown_command w.0) before ++ shutting_down ∷ [], stop max_threads t)
unfolding input_listener
answered n [] behind cmd t others quits = rw quits refl
answered n (w ∷ before) behind cmd t others quits =
    let ends = answered n before behind cmd t others.1 quits in rw (others.0, ends) refl

-- The tracker ends at the first word that is quit or exit, whatever stands behind it, after it has
-- answered each word before that with a line: if an object of the pool holds a thread at that
-- moment, the process ends in the destruction of that object, and else the signal is raised after
-- it has waited for no task, whatever tasks run.
pub quit_waits_none :
    (max_threads : ℕ) (before behind : List (Text × Tracker)) (cmd : Text) (t : Tracker)
    → All (λ w. is_quit w.0 ≡ false) before
    → is_quit cmd ≡ true
    → (end : Listener) × (input_listener max_threads (before ++ (cmd, t) ∷ behind)
        ≡ (map (λ w. unknown_command w.0) before ++ shutting_down ∷ [], end))
      × (((any_joinable t.pool.joinable ≡ true) × (end ≡ terminates))
          ⊎ ((any_joinable t.pool.joinable ≡ false)
              × (stopped : Tracker) × (end ≡ raises stopped [])))
quit_waits_none n before behind cmd t others quits = (
  stop n t,
  answered n before behind cmd t others quits,
  elim (Bool-cases (any_joinable t.pool.joinable)) [
    | inl held ↦ inl (held, stop_terminates n t held)
    | inr vacant ↦ let (stopped, waits) = stop_waits_none n t vacant in inr (vacant, stopped, waits)
  ],
)
