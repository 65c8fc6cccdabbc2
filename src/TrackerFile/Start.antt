-- ===== src/TrackerFile/Start.antt =====
-- The start of a tracker on arguments that have been validated.
use p2p_distributed_file_sha.Prelude.{
  ℕ, zero, suc, ◌<◌, ◌≡◌, refl, ap, sym, ◌∙◌, ℤ, pos, Bool, true, false, Option, none, some, List,
  [], ◌∷◌, length, get_elem?, get_or, arith,
}
use p2p_distributed_file_sha.Text.{Text}
use p2p_distributed_file_sha.Number.{stoi}
use p2p_distributed_file_sha.Split.{split_at}
use p2p_distributed_file_sha.Result.{Result, ok, fault}
use p2p_distributed_file_sha.Address.{Address}
use p2p_distributed_file_sha.TrackerFile.{
  and_then, ip_address_validation, validate_port, validate_parts, string_address_validation,
  validate_lines, tracker_file_entry_validation, validate_number, tracker_argument_validation,
  client_argument_validation, validate_own, set_port, set_parts, set_tracker_address,
}
use p2p_distributed_file_sha.TrackerFile.Lines.{
  lines, read_file_by_line_number-suc, no_entries_in_file-length,
}

pub and_then-true : (a b : Result Bool) → and_then a b ≡ ok true → (a ≡ ok true) × (b ≡ ok true)
unfolding and_then
and_then-true (ok true) b h = (refl, h)
and_then-true (ok false) b h = cc
and_then-true (fault f) b h = cc

module _ (inet_pton : Text → Bool) where
  port_sets :
      (ip : Text) (port : Option ℤ)
      → validate_port inet_pton ip port ≡ ok true
      → (address : Address) × (set_port inet_pton ip port ≡ ok (some address))
        × (ip_address_validation inet_pton address.ip address.port ≡ true)
  unfolding validate_port set_port
  port_sets ip none h = cc
  port_sets ip (some port) h =
      let valid : ip_address_validation inet_pton ip port ≡ true = cc in
      (record { ip = ip; port = port }, rw valid refl, valid)

  parts_set :
      (parts : Option (Text × Text))
      → validate_parts inet_pton parts ≡ ok true
      → (address : Address) × (set_parts inet_pton parts ≡ ok (some address))
        × (ip_address_validation inet_pton address.ip address.port ≡ true)
  unfolding validate_parts set_parts
  parts_set none h = cc
  parts_set (some (ip, port_str)) h = port_sets ip (stoi port_str) h

  first_or_later :
      (line : Text) (l : List Text) (k : ℕ)
      → string_address_validation inet_pton line ≡ ok true
      → ((j : ℕ)
          → j < length l
          → string_address_validation inet_pton (get_or (get_elem? l j) []) ≡ ok true)
      → k < suc (length l)
      → string_address_validation inet_pton (get_or (get_elem? (line ∷ l) k) []) ≡ ok true
  first_or_later line l zero h later lt = h
  first_or_later line l (suc k) h later lt = later k (omega arith)

  pub line_valid :
      (l : List Text) (k : ℕ)
      → validate_lines inet_pton l ≡ ok true
      → k < length l
      → string_address_validation inet_pton (get_or (get_elem? l k) []) ≡ ok true
  unfolding validate_lines
  line_valid [] k h lt = absurd (omega arith)
  line_valid (line ∷ l) k h lt =
      let both =
        and_then-true (string_address_validation inet_pton line) (validate_lines inet_pton l) h in
      first_or_later line l k both.0 (λ j j_lt. line_valid l j both.1 j_lt) lt

  number_in_file :
      (file : Text) (k : ℕ)
      → validate_number inet_pton file (some (pos (suc k))) ≡ ok true
      → k < length (lines file)
  unfolding validate_number
  number_in_file file k h = ground (arith, no_entries_in_file-length file)

  -- A tracker whose arguments have been validated, with a number that is positive, gets an
  -- address from the tracker file, throws nothing, and the address passes the test of IP and
  -- port.
  pub validated_start :
      (file : Text) (tracker_no : Text) (k : ℕ)
      → tracker_argument_validation inet_pton (some file) tracker_no ≡ ok true
      → stoi tracker_no ≡ some (pos (suc k))
      → (address : Address) × (set_tracker_address inet_pton file (pos (suc k)) ≡ ok (some address))
        × (ip_address_validation inet_pton address.ip address.port ≡ true)
  unfolding tracker_argument_validation tracker_file_entry_validation set_tracker_address
      string_address_validation
  validated_start [] tracker_no k h e = cc
  validated_start (c ∷ file) tracker_no k h e =
      let both =
        and_then-true (tracker_file_entry_validation inet_pton (c ∷ file))
          (validate_number inet_pton (c ∷ file) (stoi tracker_no)) h in
      let inside =
        number_in_file (c ∷ file) k (ap (validate_number inet_pton (c ∷ file)) (sym e) ∙ both.1) in
      let valid = line_valid (lines (c ∷ file)) k both.0 inside in
      rw (read_file_by_line_number-suc (c ∷ file) k) (parts_set _ valid)

  -- What the client's validated arguments say of its own address.
  abbrev pub OwnAddress : Text → Type 0
  OwnAddress address =
      (ip : Text) × (port_str : Text) × (port : ℤ) × (split_at b':' address ≡ some (ip, port_str))
      × (stoi port_str ≡ some port)
      × (ip_address_validation inet_pton ip port ≡ true)

  own_port :
      (ip : Text) (port : Option ℤ)
      → validate_port inet_pton ip port ≡ ok true
      → (n : ℤ) × (port ≡ some n) × (ip_address_validation inet_pton ip n ≡ true)
  unfolding validate_port
  own_port ip none h = cc
  own_port ip (some port) h = (port, refl, cc)

  own_parts :
      (address : Text) (parts : Option (Text × Text))
      → split_at b':' address ≡ parts
      → validate_own inet_pton parts ≡ ok true
      → OwnAddress address
  unfolding validate_own
  own_parts address none e h = cc
  own_parts address (some (ip, port_str)) e h =
      let (port, known, valid) = own_port ip (stoi port_str) h in
      (ip, port_str, port, e, known, valid)

  pub client_arguments :
      (file address : Text)
      → client_argument_validation inet_pton (some file) address ≡ ok true
      → (tracker_file_entry_validation inet_pton file ≡ ok true) × OwnAddress address
  unfolding client_argument_validation
  client_arguments [] address h = cc
  client_arguments (c ∷ file) address h =
      let both =
        and_then-true (tracker_file_entry_validation inet_pton (c ∷ file))
          (validate_own inet_pton (split_at b':' address)) h in
      (both.0, own_parts address (split_at b':' address) refl both.1)

  pub tracker_file_valid :
      (file tracker_no : Text)
      → tracker_argument_validation inet_pton (some file) tracker_no ≡ ok true
      → tracker_file_entry_validation inet_pton file ≡ ok true
  unfolding tracker_argument_validation
  tracker_file_valid [] tracker_no h = cc
  tracker_file_valid (c ∷ file) tracker_no h =
      (and_then-true (tracker_file_entry_validation inet_pton (c ∷ file))
        (validate_number inet_pton (c ∷ file) (stoi tracker_no)) h).0
