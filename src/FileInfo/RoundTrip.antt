-- ===== src/FileInfo/RoundTrip.antt =====
-- `FileInfo::toString` and `FileInfo::fromString` together.
use p2p_distributed_file_sha.Prelude.{
  ℕ, suc, ◌≤◌, ℤ, pos, negsuc, ◌≡◌, ◌≢◌, refl, ap, ◌∙◌, some, List, [], ◌∷◌, ◌++◌, map, append-nil,
  append_assoc, true, arith, All, All-append, All-imp,
}
use p2p_distributed_file_sha.Text.{Text, before}
use p2p_distributed_file_sha.Map
use p2p_distributed_file_sha.Map.{Map}
use p2p_distributed_file_sha.Map.Order.{Precedes, Ascending, put_last}
use p2p_distributed_file_sha.Address.{Address}
use p2p_distributed_file_sha.Number.{u64_max, show_nat, show_int, stoull}
use p2p_distributed_file_sha.Number.RoundTrip.{
  IsDigit, IsInt, show_nat-IsDigit, show_nat-ne-nil, stoull-show_nat, stoi-show_int,
}
use p2p_distributed_file_sha.Split.{join}
use p2p_distributed_file_sha.Split.RoundTrip.{
  Lacks, IsItem, getline-append, getline_whole, split_at-append, getlines-join, join-Lacks,
}
use p2p_distributed_file_sha.FileInfo.{FileInfo}
use p2p_distributed_file_sha.FileInfo.Print.{show_ip, show_seeder, show_path, to_string}
use p2p_distributed_file_sha.FileInfo.Parse.{
  read_size, keep_nonempty, add_seeder, add_seeders, add_path, add_paths, from_string,
}

-- A byte that separates nothing in the text of a file record.
abbrev pub IsWordByte : ℕ → Type 0
IsWordByte c = (c ≢ b':') × (c ≢ b';') × (c ≢ b'|')

abbrev pub IsWord : Text → Type 0
IsWord = All IsWordByte

abbrev pub IsPiece : Text → Type 0
IsPiece s = (s ≢ []) × Lacks b',' s × Lacks b'|' s

abbrev pub IsSeeder : Text × Address → Type 0
IsSeeder (user, addr) = IsWord user × (addr.ip ≢ []) × IsWord addr.ip × IsInt addr.port

abbrev pub IsPath : Text × Text → Type 0
IsPath (user, file) = IsWord user × Lacks b';' file × Lacks b'|' file

-- No field holds a byte that separates it from the next, and every number fits its type.
pub record IsPlain (f : FileInfo) : Type 0 where
  pub name : Lacks b'|' f.name
  pub path : Lacks b'|' f.path
  pub owner : Lacks b'|' f.owner
  pub group : Lacks b'|' f.group
  pub size : f.size ≤ u64_max
  pub piece_size : f.piece_size ≤ u64_max
  pub full_sha : Lacks b'|' f.full_sha
  pub piece_sha : All IsPiece f.piece_sha
  pub seeders : All IsSeeder f.seeder_users
  pub paths : All IsPath f.user_file_map
  pub seeder_order : Ascending f.seeder_users
  pub path_order : Ascending f.user_file_map

IsWord-colon : (s : Text) → IsWord s → Lacks b':' s
IsWord-colon s h = All-imp IsWordByte (λ c. c ≢ b':') s (λ c w. w.0) h

IsWord-semicolon : (s : Text) → IsWord s → Lacks b';' s
IsWord-semicolon s h = All-imp IsWordByte (λ c. c ≢ b';') s (λ c w. w.1) h

IsWord-bar : (s : Text) → IsWord s → Lacks b'|' s
IsWord-bar s h = All-imp IsWordByte (λ c. c ≢ b'|') s (λ c w. w.2) h

show_nat-IsWord : (n : ℕ) → IsWord (show_nat n)
show_nat-IsWord n =
    All-imp IsDigit IsWordByte (show_nat n) (λ c d. (omega arith, omega arith, omega arith))
      (show_nat-IsDigit n)

show_int-IsWord : (z : ℤ) → IsWord (show_int z)
unfolding show_int
show_int-IsWord (pos n) = show_nat-IsWord n
show_int-IsWord (negsuc n) = ((omega arith, omega arith, omega arith), show_nat-IsWord (suc n))

read_size-show_nat : (n : ℕ) → n ≤ u64_max → read_size (show_nat n) ≡ some n
read_size-show_nat n h = go (show_nat n) (show_nat-ne-nil n) (stoull-show_nat n h)
  where
    go : (s : Text) → s ≢ [] → stoull s ≡ some n → read_size s ≡ some n
    go [] ne e = absurd (ne refl)
    go (c ∷ s) ne e = unfold read_size in e

show_ip_lem : (ip : Text) → ip ≢ [] → show_ip ip ≡ ip
unfolding show_ip
show_ip_lem [] ne = absurd (ne refl)
show_ip_lem (c ∷ ip) ne = refl

add_seeder-show_seeder :
    (user : Text) (addr : Address) (seeders : Map Address)
    → IsSeeder (user, addr)
    → add_seeder (show_seeder (user, addr)) seeders ≡ some (Map.put user addr seeders)
unfolding add_seeder show_seeder
add_seeder-show_seeder user addr seeders h = rw (
  show_ip_lem addr.ip h.1,
  split_at-append b':' user (addr.ip ++ b':' ∷ show_int addr.port) (IsWord-colon user h.0),
  add_seeder,
  split_at-append b':' addr.ip (show_int addr.port) (IsWord-colon addr.ip h.2),
  stoi-show_int addr.port h.3,
)

add_path-show_path :
    (user file : Text) (paths : Map Text)
    → IsPath (user, file)
    → add_path (show_path (user, file)) paths ≡ Map.put user file paths
unfolding add_path show_path
add_path-show_path user file paths h =
    rw (split_at-append b':' user file (IsWord-colon user h.0), add_path)

-- The entries read so far stand before an entry that is read next, and before those behind it.
module _ {V : Type 0} (k : Text) (v : V) (rest done : Map V) where
  abbrev Before : Map V → Text × V → Type 0
  Before m e = Precedes e.0 m

  heads_before :
      All (Before ((k, v) ∷ rest)) done → All (λ (e : Text × V). before e.0 k ≡ true) done
  heads_before = All-imp (Before ((k, v) ∷ rest)) _ done (λ e p. p.0)

  next-Before :
      Precedes k rest
      → All (Before ((k, v) ∷ rest)) done
      → All (λ (e : Text × V). Precedes e.0 rest) (done ++ (k, v) ∷ [])
  next-Before first p =
      All-append (λ (e : Text × V). Precedes e.0 rest) done ((k, v) ∷ [])
        (All-imp (Before ((k, v) ∷ rest)) _ done (λ e q. q.1) p) (first, tt)

add_seeders-map :
    (entries done : Map Address)
    → All IsSeeder entries
    → Ascending entries
    → All (λ (e : Text × Address). Precedes e.0 entries) done
    → add_seeders (map show_seeder entries) done ≡ some (done ++ entries)
unfolding add_seeders
add_seeders-map [] done h o p = rw append-nil
add_seeders-map ((k, a) ∷ m) done h o p =
    rw (add_seeder-show_seeder k a done h.0, put_last k a done (heads_before k a m done p))
      (add_seeders-map m (done ++ (k, a) ∷ []) h.1 o.1 (next-Before k a m done o.0 p)
        ∙ ap some (append_assoc done ((k, a) ∷ []) m))

add_paths-map :
    (entries done : Map Text)
    → All IsPath entries
    → Ascending entries
    → All (λ (e : Text × Text). Precedes e.0 entries) done
    → add_paths (map show_path entries) done ≡ done ++ entries
unfolding add_paths
add_paths-map [] done h o p = rw append-nil
add_paths-map ((k, f) ∷ m) done h o p =
    ap (add_paths (map show_path m))
      (add_path-show_path k f done h.0 ∙ put_last k f done (heads_before k f m done p))
    ∙ add_paths-map m (done ++ (k, f) ∷ []) h.1 o.1 (next-Before k f m done o.0 p)
    ∙ append_assoc done ((k, f) ∷ []) m

ne-nil_of_append : (s : Text) (c : ℕ) (t : Text) → s ++ c ∷ t ≢ []
ne-nil_of_append [] c t = λ e. cc
ne-nil_of_append (d ∷ s) c t = λ e. cc

show_seeder-Lacks :
    (byte : ℕ) (user : Text) (addr : Address)
    → b':' ≢ byte
    → addr.ip ≢ []
    → Lacks byte user
    → Lacks byte addr.ip
    → Lacks byte (show_int addr.port)
    → Lacks byte (show_seeder (user, addr))
unfolding show_seeder
show_seeder-Lacks byte user addr ne ip hu hi hp =
    rw (show_ip_lem addr.ip ip)
      (All-append (λ c. c ≢ byte) user _ hu (ne, All-append (λ c. c ≢ byte) addr.ip _ hi (ne, hp)))

seeder_items : (m : Map Address) → All IsSeeder m → All (IsItem b';') (map show_seeder m)
unfolding show_seeder
seeder_items [] h = tt
seeder_items ((k, a) ∷ m) h = (
  (
    ne-nil_of_append k b':' _,
    show_seeder-Lacks b';' k a (omega arith) h.0.1 (IsWord-semicolon k h.0.0)
        (IsWord-semicolon a.ip h.0.2) (IsWord-semicolon _ (show_int-IsWord a.port)),
  ),
  seeder_items m h.1,
)

seeder_bars : (m : Map Address) → All IsSeeder m → All (Lacks b'|') (map show_seeder m)
seeder_bars [] h = tt
seeder_bars ((k, a) ∷ m) h = (
  show_seeder-Lacks b'|' k a (omega arith) h.0.1 (IsWord-bar k h.0.0) (IsWord-bar a.ip h.0.2)
      (IsWord-bar _ (show_int-IsWord a.port)),
  seeder_bars m h.1,
)

path_items : (m : Map Text) → All IsPath m → All (IsItem b';') (map show_path m)
unfolding show_path
path_items [] h = tt
path_items ((k, f) ∷ m) h = (
  (
    ne-nil_of_append k b':' f,
    All-append (λ c. c ≢ b';') k _ (IsWord-semicolon k h.0.0) (omega arith, h.0.1),
  ),
  path_items m h.1,
)

path_bars : (m : Map Text) → All IsPath m → All (Lacks b'|') (map show_path m)
unfolding show_path
path_bars [] h = tt
path_bars ((k, f) ∷ m) h =
    (All-append (λ c. c ≢ b'|') k _ (IsWord-bar k h.0.0) (omega arith, h.0.2), path_bars m h.1)

keep_nonempty_lem : (l : List Text) → All IsPiece l → keep_nonempty l ≡ l
unfolding keep_nonempty
keep_nonempty_lem [] h = refl
keep_nonempty_lem ([] ∷ l) h = absurd (h.0.0 refl)
keep_nonempty_lem ((c ∷ s) ∷ l) h = ap (◌∷◌ (c ∷ s)) (keep_nonempty_lem l h.1)

-- A file record is read back as it was written, if its fields hold none of the bytes that separate
-- them, its sizes fit 64 bits and its ports an int, no piece and no seeder's IP is empty, and its
-- maps are in key order.
pub from_string-to_string : (f : FileInfo) → IsPlain f → from_string (to_string f) ≡ some f
unfolding from_string to_string
from_string-to_string f p = simp (
  getline-append b'|' f.name _ p.name,
  getline-append b'|' f.path _ p.path,
  getline-append b'|' f.owner _ p.owner,
  getline-append b'|' f.group _ p.group,
  getline-append b'|' (show_nat f.size) _ (IsWord-bar _ (show_nat-IsWord f.size)),
  getline-append b'|' (show_nat f.piece_size) _ (IsWord-bar _ (show_nat-IsWord f.piece_size)),
  read_size-show_nat f.size p.size,
  read_size-show_nat f.piece_size p.piece_size,
  getline-append b'|' f.full_sha _ p.full_sha,
  getline-append b'|' (join b',' f.piece_sha) _ (
      join-Lacks b'|' b',' f.piece_sha (omega arith)
        (All-imp IsPiece (Lacks b'|') f.piece_sha (λ s h. h.2) p.piece_sha)),
  getline-append b'|' (join b';' (map show_seeder f.seeder_users)) _
      (join-Lacks b'|' b';' _ (omega arith) (seeder_bars f.seeder_users p.seeders)),
  getline_whole b'|' (join b';' (map show_path f.user_file_map))
      (join-Lacks b'|' b';' _ (omega arith) (path_bars f.user_file_map p.paths)),
  getlines-join b';' _ (seeder_items f.seeder_users p.seeders),
  getlines-join b';' _ (path_items f.user_file_map p.paths),
  getlines-join b',' f.piece_sha
      (All-imp IsPiece (IsItem b',') f.piece_sha (λ s h. (h.0, h.1)) p.piece_sha),
  keep_nonempty_lem f.piece_sha p.piece_sha,
  add_seeders-map f.seeder_users [] p.seeders p.seeder_order tt,
  add_paths-map f.user_file_map [] p.paths p.path_order tt,
)
