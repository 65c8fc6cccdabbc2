-- ===== src/TrackerFile/Others.antt =====
-- The other trackers that a tracker finds in a file that has been validated.
use p2p_distributed_file_sha.Prelude.{
  ℕ, zero, suc, ◌<◌, ◌≡◌, ◌⊎◌, refl, inl, inr, Bool, true, false, Option, none, some, List, [], ◌∷◌,
  length, get_elem?, get_or, All, arith, if◌then◌else◌,
}
use p2p_distributed_file_sha.Text.{Text}
use p2p_distributed_file_sha.Number.{stoi}
use p2p_distributed_file_sha.Result.{ok}
use p2p_distributed_file_sha.Address.{Address}
use p2p_distributed_file_sha.TrackerFile.{
  address_parts, validate_port, validate_parts, string_address_validation, validate_lines,
  read_port, read_parts, get_address, is_other, add_trackers, init_sync,
  tracker_file_entry_validation,
}
use p2p_distributed_file_sha.TrackerFile.Lines.{lines}
use p2p_distributed_file_sha.TrackerFile.Start.{and_then-true}

-- The list has this item.
abbrev pub IsListed {ℓ} : {A : Type ℓ} → A → List A → Type ℓ
IsListed a l = (j : ℕ) × (get_elem? l j ≡ some a)

module _ (inet_pton : Text → Bool) (own : Address) where
  read_port-ok :
      (ip : Text) (port : Option _)
      → validate_port inet_pton ip port ≡ ok true
      → (a : Address) × (read_port inet_pton ip port ≡ ok a)
  unfolding validate_port read_port
  read_port-ok ip none h = cc
  read_port-ok ip (some port) h = (record { ip = ip; port = port }, refl)

  read_parts-ok :
      (parts : Option (Text × Text))
      → validate_parts inet_pton parts ≡ ok true
      → (a : Address) × (read_parts inet_pton parts ≡ ok a)
  unfolding validate_parts read_parts
  read_parts-ok none h = cc
  read_parts-ok (some (ip, port_str)) h = read_port-ok ip (stoi port_str) h

  valid_parts :
      (line : Text)
      → string_address_validation inet_pton line ≡ ok true
      → validate_parts inet_pton (address_parts line) ≡ ok true
  unfolding string_address_validation
  valid_parts line h = h

  pub get_address-ok :
      (line : Text)
      → string_address_validation inet_pton line ≡ ok true
      → (a : Address) × (get_address inet_pton line ≡ ok a)
  unfolding get_address
  get_address-ok line h =
      let (a, e) = read_parts-ok (address_parts line) (valid_parts line h) in
      (a, ground (arith, h, e))

  -- The line's address is the tracker's own, or one of these.
  abbrev IsFound : List Address → Text → Type 0
  IsFound others line =
      (a : Address) × (get_address inet_pton line ≡ ok a)
      × ((is_other inet_pton own a ≡ false) ⊎ IsListed a others)

  pub record Finds (l : List Text) (others : List Address) : Type 0 where
    pub all_other : All (λ a. is_other inet_pton own a ≡ true) others
    pub found : (k : ℕ) → k < length l → IsFound others (get_or (get_elem? l k) [])

  IsListed-later :
      (a b : Address) (others : List Address) → IsListed a others → IsListed a (b ∷ others)
  IsListed-later a b others (j, e) = (suc j, e)

  keep : Bool → Address → List Address → List Address
  keep b a others = if b then a ∷ others else others

  kept_found :
      (b : Bool) (a : Address) (others : List Address) (line : Text)
      → IsFound others line
      → IsFound (keep b a others) line
  unfolding keep
  kept_found true a others line (c, e, inl own_address) = (c, e, inl own_address)
  kept_found true a others line (c, e, inr listed) = (c, e, inr (IsListed-later c a others listed))
  kept_found false a others line found = found

  first_found :
      (b : Bool) (a : Address) (others : List Address) (line : Text)
      → get_address inet_pton line ≡ ok a
      → is_other inet_pton own a ≡ b
      → IsFound (keep b a others) line
  unfolding keep
  first_found true a others line e other = (a, e, inr (0, refl))
  first_found false a others line e itself = (a, e, inl itself)

  kept_other :
      (b : Bool) (a : Address) (others : List Address)
      → is_other inet_pton own a ≡ b
      → All (λ c. is_other inet_pton own c ≡ true) others
      → All (λ c. is_other inet_pton own c ≡ true) (keep b a others)
  unfolding keep
  kept_other true a others e h = (e, h)
  kept_other false a others e h = h

  first_or_later :
      (others : List Address) (line : Text) (l : List Text) (k : ℕ)
      → IsFound others line
      → ((j : ℕ) → j < length l → IsFound others (get_or (get_elem? l j) []))
      → k < suc (length l)
      → IsFound others (get_or (get_elem? (line ∷ l) k) [])
  first_or_later others line l zero h later lt = h
  first_or_later others line l (suc k) h later lt = later k (omega arith)

  add_trackers-Finds :
      (l : List Text)
      → validate_lines inet_pton l ≡ ok true
      → (others : List Address) × (add_trackers inet_pton own l ≡ ok others) × Finds l others
  unfolding validate_lines add_trackers keep
  add_trackers-Finds [] h =
      ([], refl, record { all_other = tt; found = λ k lt. absurd (omega arith) })
  add_trackers-Finds (line ∷ l) h =
      let both =
        and_then-true (string_address_validation inet_pton line) (validate_lines inet_pton l) h in
      let (a, e) = get_address-ok line both.0 in
      let (others, found_others, finds) = add_trackers-Finds l both.1 in
      let b = is_other inet_pton own a in
      (
        keep b a others,
        ground (arith, e, found_others),
        record {
          all_other = kept_other b a others refl finds.all_other;
          found = λ k lt.
              first_or_later (keep b a others) line l k (first_found b a others line e refl)
                (λ j j_lt. kept_found b a others (get_or (get_elem? l j) []) (finds.found j j_lt))
                lt;
        },
      )

  -- With a file that has been validated, the list has no address of the tracker's own, and every
  -- line of the file has the tracker's own address or one that is listed.
  pub init_sync-Finds :
      (file : Text)
      → tracker_file_entry_validation inet_pton file ≡ ok true
      → (others : List Address) × (init_sync inet_pton own file ≡ ok others)
        × Finds (lines file) others
  unfolding tracker_file_entry_validation init_sync
  init_sync-Finds file h = add_trackers-Finds (lines file) h
