-- ===== src/Programs/Starting.antt =====
-- What the programs come to, on arguments that are valid.
use p2p_distributed_file_sha.Prelude.{
  ℕ, suc, ◌<◌, ◌≡◌, ◌⊎◌, refl, inl, inr, pos, Bool, true, false, Option, some, List, [], ◌∷◌,
  length, get_elem?, get_or, map, arith, zero,
}
use p2p_distributed_file_sha.Text.{Text}
use p2p_distributed_file_sha.Number.{stoi}
use p2p_distributed_file_sha.Split.{split_at}
use p2p_distributed_file_sha.Result.{ok}
use p2p_distributed_file_sha.Address.{Address}
use p2p_distributed_file_sha.Pool.{fresh_pool}
use p2p_distributed_file_sha.Commands
use p2p_distributed_file_sha.TrackerFile.{
  ip_address_validation, tracker_argument_validation, client_argument_validation, get_address,
  is_other,
}
use p2p_distributed_file_sha.TrackerFile.Lines.{lines}
use p2p_distributed_file_sha.TrackerFile.Start.{
  validated_start, client_arguments, tracker_file_valid,
}
use p2p_distributed_file_sha.TrackerFile.Others.{IsListed, init_sync-Finds}
use p2p_distributed_file_sha.Client.Connecting.{max_tracker, read_tracker}
use p2p_distributed_file_sha.Client.Connecting.Reaching.{validated_connect}
use p2p_distributed_file_sha.Programs.{
  Listening, start_as_server, start_as_listener, Tracker, start_sync, serves, commands,
  fresh_client, with_others, at_address, start_tracker, if_valid, tracker_main, connected,
  tracker_of, start_client, with_port, with_address, client_main,
}

get_elem?-map {ℓ κ} :
    {A : Type ℓ} {B : Type κ} (f : A → B) (l : List A) (j : ℕ) (a : A)
    → get_elem? l j ≡ some a
    → get_elem? (map f l) j ≡ some (f a)
get_elem?-map f [] j a e = cc
get_elem?-map f (x ∷ l) zero a e = cc
get_elem?-map f (x ∷ l) (suc j) a e = get_elem?-map f l j a e

module _ (inet_pton : Text → Bool) (max_threads : ℕ) (files : Text → Option Text) (l : Listening)
    (connects : Address → Bool) where
  -- A tracker that is started with a tracker file and a positive number that are valid, and whose
  -- socket can be bound and listens, comes to accept connections at a valid address with no member,
  -- group or file; it then sends what it has to tell to the address on every line of the file,
  -- unless that is its own address.
  pub tracker_tells :
      (name path tracker_no file : Text) (k : ℕ)
      → files path ≡ some file
      → tracker_argument_validation inet_pton (some file) tracker_no ≡ ok true
      → stoi tracker_no ≡ some (pos (suc k))
      → start_as_server l ≡ true
      → (message : Text) (j : ℕ) → j < length (lines file)
      → (t : Tracker) × (a : Address) × (tracker_main inet_pton max_threads files l connects
            (name ∷ path ∷ tracker_no ∷ [])
          ≡ ok (serves t))
        × (ip_address_validation inet_pton t.address.ip t.address.port ≡ true)
        × (t.managers ≡ Commands.start)
        × (get_address inet_pton (get_or (get_elem? (lines file) j) []) ≡ ok a)
        × ((is_other inet_pton t.address a ≡ false) ⊎ IsListed (a, message) (start_sync t message))
  unfolding tracker_main if_valid start_tracker at_address with_others start_sync
  tracker_tells name path tracker_no file k there valid number listens message j inside =
      let (own, set, good) = validated_start inet_pton file tracker_no k valid number in
      let (others, synced, finds) =
        init_sync-Finds inet_pton own file (tracker_file_valid inet_pton file tracker_no valid) in
      let (a, e, found) = finds.found j inside in
      (
        record {
          address = own;
          other_trackers = others;
          pool = fresh_pool max_threads;
          managers = Commands.start;
        },
        a,
        ground (arith, there, valid, number, set, synced, listens),
        good,
        refl,
        e,
        elim found [
          | inl itself ↦ inl itself
          | inr (i, at_i) ↦ inr (i, get_elem?-map (λ x. (x, message)) others i a at_i)
        ],
      )

  -- A client that is started with valid arguments, and whose socket can be bound and listens, goes
  -- on to its commands, not logged in, at the IP and the port that its argument has before and
  -- behind the colon, which are valid, and with a tracker that accepts the connection, if one of the first three of the file does.
  pub client_commands :
      (name path address file : Text) (k : ℕ) (a : Address)
      → files path ≡ some file
      → client_argument_validation inet_pton (some file) address ≡ ok true
      → start_as_listener l ≡ true
      → k < max_tracker
      → read_tracker inet_pton connects file k ≡ ok (some a)
      → connects a ≡ true
      → (own : Address) × (tracker : Address) × (port_str : Text) × (split_at b':' address
          ≡ some (own.ip, port_str))
        × (stoi port_str ≡ some own.port)
        × (client_main inet_pton max_threads files l connects (name ∷ address ∷ path ∷ [])
            ≡ ok (commands own tracker fresh_client))
        × (ip_address_validation inet_pton own.ip own.port ≡ true)
        × (connects tracker ≡ true)
  unfolding client_main if_valid with_address with_port start_client connected tracker_of
  client_commands name path address file k a there valid listens lt at_k accepts =
      let arguments = client_arguments inet_pton file address valid in
      let entries = arguments.0 in
      let (ip, port_str, port, split, known, good) = arguments.1 in
      let (b, reached, b_accepts) =
        validated_connect inet_pton connects file k a entries lt at_k accepts in
      (
        record { ip = ip; port = port },
        b,
        port_str,
        split,
        known,
        ground (arith, there, valid, split, known, listens, reached),
        good,
        b_accepts,
      )
