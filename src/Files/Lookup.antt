-- ===== src/Files/Lookup.antt =====
-- What `find_file` returns after each write to the table of files.
use p2p_distributed_file_sha.Prelude.{◌≡◌, ◌&&◌, none, some, arith, if◌then◌else◌}
use p2p_distributed_file_sha.Text.{Text, ◌==◌, ==_iff}
use p2p_distributed_file_sha.Map
use p2p_distributed_file_sha.Map.{Map, get-nil, get-put, get-remove}
use p2p_distributed_file_sha.FileInfo.{FileInfo}
use p2p_distributed_file_sha.Files.{FileManager, files_of, find_file, set_files}

files_of-set_files :
    (fm : FileManager) (group g : Text) (files : Map FileInfo)
    → files_of (set_files fm group files) g ≡ (if group == g then files else files_of fm g)
unfolding set_files
files_of-set_files fm group g files = ground (arith, get-put group g files fm.group_files)

pub find_file-put :
    (fm : FileManager) (group g filename f : Text) (info : FileInfo)
    → find_file (set_files fm group (Map.put filename info (files_of fm group))) g f
      ≡ (if group == g && filename == f then some info else find_file fm g f)
find_file-put fm group g filename f info = ground (
  arith,
  files_of-set_files fm group g (Map.put filename info (files_of fm group)),
  get-put filename f info (files_of fm group),
  ==_iff group g,
)

pub find_file-remove :
    (fm : FileManager) (group g filename f : Text)
    → find_file (set_files fm group (Map.remove filename (files_of fm group))) g f
      ≡ (if group == g && filename == f then none else find_file fm g f)
find_file-remove fm group g filename f = ground (
  arith,
  files_of-set_files fm group g (Map.remove filename (files_of fm group)),
  get-remove filename f (files_of fm group),
  ==_iff group g,
)
