-- ===== src/Tests/Starting.antt =====
-- The start of the programs with a tracker file of two lines.
use p2p_distributed_file_sha.Prelude.{
  ◌<◌, length, ◌≡◌, ◌⊎◌, refl, pos, Bool, true, false, Option, some, [], ◌∷◌, get_elem?, get_or,
  ◌++◌, map, arith,
}
use p2p_distributed_file_sha.Text.{Text, codes, ◌==◌}
use p2p_distributed_file_sha.Number.{stoi}
use p2p_distributed_file_sha.Split.{split_at}
use p2p_distributed_file_sha.Result.{ok}
use p2p_distributed_file_sha.Address.{Address}
use p2p_distributed_file_sha.Commands
use p2p_distributed_file_sha.TrackerFile.{
  ip_address_validation, string_address_validation, tracker_argument_validation,
  tracker_file_entry_validation, client_argument_validation, and_then, port_in_range,
  read_file_by_line_number, read_parts, get_address, is_other,
}
use p2p_distributed_file_sha.TrackerFile.Lines.{lines}
use p2p_distributed_file_sha.TrackerFile.Others.{IsListed}
use p2p_distributed_file_sha.Client.Connecting.{read_tracker}
use p2p_distributed_file_sha.Pool.{any_joinable}
use p2p_distributed_file_sha.Programs.{
  Listening, start_as_server, start_as_listener, Tracker, start_sync, serves, commands,
  fresh_client, tracker_main, client_main,
}
use p2p_distributed_file_sha.Programs.Starting.{tracker_tells, client_commands}
use p2p_distributed_file_sha.Programs.Stopping.{
  is_quit, unknown_command, shutting_down, raises, terminates, Listener, input_listener,
  quit_waits_none,
}

-- Any text is an address here.
abbrev any_ip : Text → Bool
any_ip s = true

-- Two trackers, of which the second can be reached.
abbrev two_trackers : Text
two_trackers = codes "1.2:2000 1\n1.3:2001 2\n"

abbrev second : Address
second = record { ip = codes "1.3"; port = pos 2001 }

abbrev second_only : Address → Bool
second_only a = a.ip == codes "1.3"

arguments_valid : tracker_argument_validation any_ip (some two_trackers) (codes "2") ≡ ok true
unfolding tracker_argument_validation and_then tracker_file_entry_validation
    string_address_validation split_at stoi port_in_range
arguments_valid = refl

second_number : stoi (codes "2") ≡ some (pos 2)
unfolding stoi
second_number = refl

file_valid : tracker_file_entry_validation any_ip two_trackers ≡ ok true
unfolding tracker_file_entry_validation and_then string_address_validation split_at stoi
    port_in_range
file_valid = refl

second_read : read_tracker any_ip second_only two_trackers 1 ≡ ok (some second)
unfolding read_tracker read_file_by_line_number string_address_validation split_at stoi
    port_in_range read_parts
second_read = refl

second_accepts : second_only second ≡ true
unfolding ◌==◌
second_accepts = refl

-- The file is the only one that can be read.
abbrev the_file : Text → Option Text
the_file path = some two_trackers

abbrev socket_ok : Listening
socket_ok = record { descriptor = pos 3; binds = true; listens = true }

server_listens : start_as_server socket_ok ≡ true
unfolding start_as_server
server_listens = refl

listener_listens : start_as_listener socket_ok ≡ true
unfolding start_as_listener
listener_listens = refl

two_lines : 0 < length (lines two_trackers)
unfolding p2p_distributed_file_sha.TrackerFile.lines_from
two_lines = omega arith

tracker_tells_example :
    (t : Tracker) × (a : Address) × (tracker_main any_ip 2 the_file socket_ok second_only
        (codes "t" ∷ codes "f" ∷ codes "2" ∷ [])
      ≡ ok (serves t))
    × (ip_address_validation any_ip t.address.ip t.address.port ≡ true)
    × (t.managers ≡ Commands.start)
    × (get_address any_ip (get_or (get_elem? (lines two_trackers) 0) []) ≡ ok a)
    × ((is_other any_ip t.address a ≡ false)
        ⊎ IsListed (a, codes "SYNC") (start_sync t (codes "SYNC")))
tracker_tells_example =
    tracker_tells any_ip 2 the_file socket_ok second_only (codes "t") (codes "f") (codes "2")
      two_trackers 1 refl arguments_valid second_number server_listens (codes "SYNC") 0 two_lines

client_valid : client_argument_validation any_ip (some two_trackers) (codes "1.4:3000") ≡ ok true
unfolding client_argument_validation and_then tracker_file_entry_validation
    string_address_validation split_at stoi port_in_range
client_valid = refl

client_commands_example :
    (own : Address) × (tracker : Address) × (port_str : Text) × (split_at b':' (codes "1.4:3000")
      ≡ some (own.ip, port_str))
    × (stoi port_str ≡ some own.port)
    × (client_main any_ip 2 the_file socket_ok second_only
          (codes "c" ∷ codes "1.4:3000" ∷ codes "f" ∷ [])
        ≡ ok (commands own tracker fresh_client))
    × (ip_address_validation any_ip own.ip own.port ≡ true)
    × (second_only tracker ≡ true)
client_commands_example =
    client_commands any_ip 2 the_file socket_ok second_only (codes "c") (codes "f")
      (codes "1.4:3000") two_trackers 1 second refl client_valid listener_listens (omega arith)
      second_read second_accepts

-- A tracker with one thread, on which a task runs.
abbrev busy : Tracker
busy = record {
  address = second;
  other_trackers = [];
  pool = record {
    thread_available = false ∷ [];
    joinable = false ∷ [];
    claimed = [];
    detaching = [];
    running = 0 ∷ [];
  };
  managers = Commands.start;
}

no_quit : is_quit (codes "help") ≡ false
unfolding ◌==◌
no_quit = refl

exit_quits : is_quit (codes "exit") ≡ true
unfolding ◌==◌
exit_quits = refl

quit_waits_none_example :
    (end : Listener) × (input_listener 1
        (((codes "help", busy) ∷ []) ++ (codes "exit", busy) ∷ (codes "help", busy) ∷ [])
      ≡ (
        map (λ (w : Text × Tracker). unknown_command w.0) ((codes "help", busy) ∷ [])
            ++ shutting_down ∷ [],
        end,
      ))
    × (((any_joinable busy.pool.joinable ≡ true) × (end ≡ terminates))
        ⊎ ((any_joinable busy.pool.joinable ≡ false)
            × (stopped : Tracker) × (end ≡ raises stopped [])))
quit_waits_none_example =
    quit_waits_none 1 ((codes "help", busy) ∷ []) ((codes "help", busy) ∷ []) (codes "exit") busy
      (no_quit, tt) exit_quits
