-- ===== src/Logger.antt =====
-- `Logger` of tracker/headers/tracker_logger.cpp: the lines of the log file and of the console.
pub mod Colors
use p2p_distributed_file_sha.Prelude.{
  ℕ, ℤ, zero, suc, ◌-◌, pos, negsuc, Bool, true, false, not, ◌&&◌, Option, none, some, List, [],
  ◌∷◌, ◌++◌, length, eqb, ltb, if◌then◌else◌,
}
use p2p_distributed_file_sha.Text.{Text, codes, ◌==◌}
use p2p_distributed_file_sha.Number.{show_int}

-- The lines of the file, if it is open, and those on the console; the latest stands last.
pub record Logger : Type 0 where
  pub log_file : Option (List Text)
  pub console : List Text

-- Before `initialize`.
abbrev pub no_log : Logger
no_log = record { log_file = none; console = [] }

-- `open(filename, ios::app)`, with the lines that the file has, if it can be opened. (The line that
-- is printed if not is left out.)
abbrev pub initialize : Option (List Text) → Logger → Logger
initialize opened l = record l { log_file = opened }

abbrev pub color_timestamp : Text
color_timestamp = 27 ∷ codes "[1;32m"

abbrev pub color_ip : Text
color_ip = 27 ∷ codes "[1;34m"

abbrev pub color_info : Text
color_info = 27 ∷ codes "[1;32m"

abbrev pub color_error : Text
color_error = 27 ∷ codes "[1;31m"

abbrev pub color_failed : Text
color_failed = 27 ∷ codes "[1;33m"

abbrev pub color_sync : Text
color_sync = 27 ∷ codes "[1;35m"

abbrev pub color_reset : Text
color_reset = 27 ∷ codes "[0m"

-- `string(n, ' ')`
unfoldable pub blanks : ℕ → Text
blanks zero = []
blanks (suc n) = b' ' ∷ blanks n

-- `if (s.length() < width) s += string(width - s.length(), ' ')`
abbrev pub pad : ℕ → Text → Text
pad width s = if ltb (length s) width then s ++ blanks (width - length s) else s

-- `port != -1`
abbrev pub has_port : ℤ → Bool
has_port (pos n) = true
has_port (negsuc n) = not (eqb n 0)

abbrev pub address_info : Text → ℤ → Text
address_info ip port = pad 16 (
    if not (ip == []) && has_port port
    then b'[' ∷ (ip ++ b':' ∷ (show_int port ++ b']' ∷ []))
    else codes "[0.0.0.0:0]")

abbrev pub tag_display : Text → Text
tag_display tag = pad 8 (b'[' ∷ (tag ++ b']' ∷ []))

-- What stands before and behind a tag on the console.
abbrev pub tag_colors : Text → Text × Text
tag_colors tag =
    if tag == codes "INFO"
    then (color_info, color_reset)
    else if tag == codes "ERROR"
    then (color_error, color_reset)
    else if tag == codes "FAILED"
    then (color_failed, color_reset)
    else if tag == codes "SYNC"
    then (color_sync, color_reset)
    else ([], [])

abbrev pub colored_tag : Text → Text
colored_tag tag = let (before, behind) = tag_colors tag in before ++ (tag_display tag ++ behind)

-- `time_stamp` is what `current_time` gives.
unfoldable pub format_message : Text → Text → Text → ℤ → Text → Bool → Text
format_message time_stamp message ip port tag true =
    color_timestamp
    ++ (time_stamp
        ++ b' '
          ∷ (color_ip
              ++ (address_info ip port
                  ++ (color_reset ++ b' ' ∷ (colored_tag tag ++ b' ' ∷ message)))))
format_message time_stamp message ip port tag false =
    time_stamp ++ b' ' ∷ (address_info ip port ++ b' ' ∷ (tag_display tag ++ b' ' ∷ message))

append_line : Option (List Text) → Text → Option (List Text)
append_line none l = none
append_line (some lines) l = some (lines ++ l ∷ [])

-- `Logger::log`; the clock is read for the line of the file, and again for that of the console.
unfoldable pub log :
    Logger
    → (file_time console_time message ip : Text) (port : ℤ) (tag : Text) (to_console : Bool)
    → Logger
unfolding append_line
log l file_time console_time message ip port tag to_console =
    let in_file = append_line l.log_file (format_message file_time message ip port tag false) in
    record {
      log_file = in_file;
      console =
          if to_console
          then l.console ++ format_message console_time message ip port tag true ∷ []
          else l.console;
    }
