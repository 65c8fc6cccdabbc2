-- ===== src/Programs.antt =====
-- `main` of tracker/tracker.cpp and of client/client.cpp, with the constructors, `Tracker::start`,
-- `Tracker::start_as_server` and `Tracker::start_sync` of tracker/headers/tracker_sckelton.cpp, and
-- `Client::start` and `start_as_listener` of client/headers/client_skelton.cpp.
pub mod Starting
pub mod Stopping
use p2p_distributed_file_sha.Prelude.{
  ℕ, ℤ, pos, negsuc, Bool, true, false, not, ◌&&◌, Option, none, some, List, [], ◌∷◌, map, eqb,
  if◌then◌else◌,
}
use p2p_distributed_file_sha.Text.{Text}
use p2p_distributed_file_sha.Number.{stoi}
use p2p_distributed_file_sha.Split.{split_at}
use p2p_distributed_file_sha.Result.{Result, ok, fault, uncaught_exception}
use p2p_distributed_file_sha.Address.{Address}
use p2p_distributed_file_sha.Pool.{Pool, fresh_pool}
use p2p_distributed_file_sha.Commands.{State}
use p2p_distributed_file_sha.Commands
use p2p_distributed_file_sha.TrackerFile.{
  tracker_argument_validation, client_argument_validation, set_tracker_address, init_sync,
}
use p2p_distributed_file_sha.Client.Commanding.{ClientState}
use p2p_distributed_file_sha.Client.Connecting.{connect_to_tracker}

-- What `socket` returns, and whether `bind` and `listen` succeed. (A `setsockopt` that fails is only
-- reported.)
pub record Listening : Type 0 where
  pub descriptor : ℤ
  pub binds : Bool
  pub listens : Bool

abbrev is_negative : ℤ → Bool
is_negative (pos n) = false
is_negative (negsuc n) = true

abbrev is_zero : ℤ → Bool
is_zero (pos n) = eqb n 0
is_zero (negsuc n) = false

-- `Tracker::start_as_server` up to its loop: whether it comes to accept connections.
unfoldable pub start_as_server : Listening → Bool
start_as_server l = not (is_negative l.descriptor) && (l.binds && l.listens)

-- `Client::start_as_listener`. (The test of the descriptor is `== 0`; a `bind` of -1 fails.)
unfoldable pub start_as_listener : Listening → Bool
start_as_listener l = not (is_zero l.descriptor) && (l.binds && l.listens)

-- The members of `Tracker` that are set at its start, with the shared managers.
pub record Tracker : Type 0 where
  pub address : Address
  pub other_trackers : List Address
  pub pool : Pool
  pub managers : State

-- The threads of `start_sync`, each with what it sends and where to.
unfoldable pub start_sync : Tracker → Text → List (Address × Text)
start_sync t message = map (λ address. (address, message)) t.other_trackers

-- How a program ends, or what it goes on with: a tracker in the loop on `accept`, or a client that
-- is connected to this tracker, in its loop on the commands.
pub data Program : Type 0 where
  exits : (code : ℕ) → Program
  serves : Tracker → Program
  commands : (own tracker : Address) → ClientState → Program

-- `Client::Client`
abbrev pub fresh_client : ClientState
fresh_client = record { username = []; password = []; logged_in = false; download_history = [] }

-- `max_threads` is `MAX_THREADS`, and `inet_pton` the C library's test of a dotted address. `files`
-- has the files that can be read, and `connects` says which trackers accept a connection.
module _ (inet_pton : Text → Bool) (max_threads : ℕ) (files : Text → Option Text) (l : Listening)
    (connects : Address → Bool) where
  with_others : Address → Result (List Address) → Result Program
  with_others own (fault f) = fault f
  with_others own (ok others) = ok (
      if start_as_server l
      then serves (record {
        address = own;
        other_trackers = others;
        pool = fresh_pool max_threads;
        managers = Commands.start;
      })
      else exits 1)

  at_address : Text → Result (Option Address) → Result Program
  unfolding with_others
  at_address file (fault f) = fault f
  at_address file (ok none) = ok (exits 1)
  at_address file (ok (some own)) = with_others own (init_sync inet_pton own file)

  -- `Tracker::start`, for a tracker of this number and the tracker file.
  unfoldable pub start_tracker : Option Text → Option ℤ → Result Program
  unfolding at_address
  start_tracker file none = fault uncaught_exception
  start_tracker none (some tracker_id) = ok (exits 1)
  start_tracker (some file) (some tracker_id) =
      at_address file (set_tracker_address inet_pton file tracker_id)

  if_valid : Result Bool → Result Program → Result Program
  if_valid (fault f) next = fault f
  if_valid (ok false) next = ok (exits 1)
  if_valid (ok true) next = next

  -- The arguments with the name of the program in front of them.
  unfoldable pub tracker_main : List Text → Result Program
  unfolding if_valid
  tracker_main (name ∷ tracker_file ∷ tracker_no ∷ []) =
      if_valid (tracker_argument_validation inet_pton (files tracker_file) tracker_no)
        (start_tracker (files tracker_file) (stoi tracker_no))
  tracker_main args = ok (exits 1)

  connected : Address → Result (Option Address) → Result Program
  connected own (fault f) = fault f
  connected own (ok none) = ok (exits 1)
  connected own (ok (some tracker)) = ok (commands own tracker fresh_client)

  tracker_of : Option Text → Result (Option Address)
  tracker_of none = ok none
  tracker_of (some file) = connect_to_tracker inet_pton connects file

  -- `Client::start`
  unfoldable pub start_client : Option Text → Address → Result Program
  unfolding connected tracker_of
  start_client file own =
      if start_as_listener l then connected own (tracker_of file) else ok (exits 1)

  with_port : Option Text → Text → Option ℤ → Result Program
  with_port file ip none = fault uncaught_exception
  with_port file ip (some port) = start_client file (record { ip = ip; port = port })

  with_address : Option Text → Option (Text × Text) → Result Program
  unfolding with_port
  with_address file none = ok (exits 1)
  with_address file (some (ip, port_str)) = with_port file ip (stoi port_str)

  unfoldable pub client_main : List Text → Result Program
  unfolding if_valid with_address
  client_main (name ∷ address ∷ tracker_file ∷ []) =
      if_valid (client_argument_validation inet_pton (files tracker_file) address)
        (with_address (files tracker_file) (split_at b':' address))
  client_main args = ok (exits 1)
