-- ===== src/Tests/Logging.antt =====
-- The logger with two entries.
use p2p_distributed_file_sha.Prelude.{
  ◌≡◌, refl, pos, negsuc, true, false, some, List, [], ◌∷◌, ◌++◌, map,
}
use p2p_distributed_file_sha.Text.{codes}
use p2p_distributed_file_sha.Logger.Colors.{
  uncolor, Entry, log_all, file_line, console_lines, log_all-lines,
}

abbrev entries : List Entry
entries =
    record {
      file_time = codes "t";
      console_time = codes "v";
      message = codes "m";
      ip = codes "1";
      port = pos 80;
      tag = codes "INFO";
      to_console = true;
    }
    ∷ record {
      file_time = codes "u";
      console_time = codes "u";
      message = codes "n";
      ip = [];
      port = negsuc 0;
      tag = codes "OK";
      to_console = false;
    }
    ∷ []

log_all-lines_example :
    ((log_all (record { log_file = some []; console = [] }) entries).log_file
      ≡ some ([] ++ map file_line entries))
    × (map (uncolor false) (log_all (record { log_file = some []; console = [] }) entries).console
        ≡ map (uncolor false) [] ++ console_lines entries)
log_all-lines_example = log_all-lines entries [] [] (
  ((refl, tt), (refl, tt), (refl, tt), (refl, (refl, (refl, (refl, tt))))),
  (((refl, tt), (refl, tt), tt, (refl, (refl, tt))), tt),
)
