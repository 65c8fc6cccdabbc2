-- ===== src/Client/Connecting/Reaching.antt =====
-- The tracker that a client reaches.
use p2p_distributed_file_sha.Prelude.{
  ℕ, zero, suc, ◌+◌, ◌<◌, ◌≤◌, ℤ, ◌≡◌, refl, ap, sym, subst, ◌∙◌, inl, inr, Bool-cases, Bool, true,
  Option, none, some, List, [], ◌∷◌, length, get_elem?, get_or, ltb, arith,
}
use p2p_distributed_file_sha.Text.{Text}
use p2p_distributed_file_sha.Number.{stoi}
use p2p_distributed_file_sha.Result.{Result, ok}
use p2p_distributed_file_sha.Address.{Address}
use p2p_distributed_file_sha.TrackerFile.{
  string_address_validation, validate_parts, validate_port, read_parts, read_port, address_parts,
  tracker_file_entry_validation,
}
use p2p_distributed_file_sha.TrackerFile.Lines.{lines, read_file_by_line_number-suc}
use p2p_distributed_file_sha.TrackerFile.Start.{line_valid}
use p2p_distributed_file_sha.Client.Connecting.{
  max_tracker, found, read_valid, read_line, read_tracker, try_tracker, connect_from,
  connect_to_tracker,
}

-- A read that throws nothing.
data Calm : Result (Option Address) → Type 0 where
  calm : (r : Option Address) → Calm (ok r)

module _ (inet_pton : Text → Bool) (connects : Address → Bool) (file : Text) where
  try_tracker_later :
      (r later : Result (Option Address))
      → Calm r
      → ((a : Address) × (later ≡ ok (some a)) × (connects a ≡ true))
      → (a : Address) × (try_tracker inet_pton connects file r later ≡ ok (some a))
        × (connects a ≡ true)
  unfolding try_tracker
  try_tracker_later _ later (calm none) h = h
  try_tracker_later _ later (calm (some a)) h = elim (Bool-cases (connects a)) [
    | inl accepts ↦ (a, rw accepts refl, accepts)
    | inr refuses ↦ rw refuses h
  ]

  try_tracker_now :
      (a : Address) (later : Result (Option Address))
      → connects a ≡ true
      → try_tracker inet_pton connects file (ok (some a)) later ≡ ok (some a)
  unfolding try_tracker
  try_tracker_now a later h = rw h refl

  -- One of the trackers that are tried can be reached, and nothing throws before it.
  connect_from_reaches :
      (rounds i k : ℕ) (a : Address)
      → k < rounds
      → ((j : ℕ) → Calm (read_tracker inet_pton connects file j))
      → read_tracker inet_pton connects file (i + k) ≡ ok (some a)
      → connects a ≡ true
      → (b : Address) × (connect_from inet_pton connects file rounds i ≡ ok (some b))
        × (connects b ≡ true)
  unfolding connect_from
  connect_from_reaches zero i k a lt calms found_k accepts = absurd (omega arith)
  connect_from_reaches (suc rounds) i zero a lt calms found_k accepts =
      let e : i + 0 ≡ i = omega arith in
      let at_i = ap (read_tracker inet_pton connects file) (sym e) ∙ found_k in
      let later = connect_from inet_pton connects file rounds (i + 1) in
      (
        a,
        ap (λ r. try_tracker inet_pton connects file r later) at_i
            ∙ try_tracker_now a later accepts,
        accepts,
      )
  connect_from_reaches (suc rounds) i (suc k) a lt calms found_k accepts =
      let e : i + 1 + k ≡ i + suc k = omega arith in
      try_tracker_later (read_tracker inet_pton connects file i)
        (connect_from inet_pton connects file rounds (i + 1)) (calms i)
        (connect_from_reaches rounds (i + 1) k a (omega arith) calms
          (ap (read_tracker inet_pton connects file) e ∙ found_k) accepts)

  port-Calm :
      (ip : Text) (port : Option ℤ)
      → validate_port inet_pton ip port ≡ ok true
      → Calm (found inet_pton connects file (read_port inet_pton ip port))
  unfolding validate_port read_port found
  port-Calm ip none h = cc
  port-Calm ip (some port) h = calm _

  parts-Calm :
      (parts : Option (Text × Text))
      → validate_parts inet_pton parts ≡ ok true
      → Calm (found inet_pton connects file (read_parts inet_pton parts))
  unfolding validate_parts read_parts
  parts-Calm none h = cc
  parts-Calm (some (ip, port_str)) h = port-Calm ip (stoi port_str) h

  line-Calm :
      (line : Text)
      → string_address_validation inet_pton line ≡ ok true
      → Calm (read_line inet_pton connects file line)
  unfolding read_line read_valid string_address_validation
  line-Calm [] h = calm none
  line-Calm (c ∷ line) h =
      subst (λ v. Calm (read_valid inet_pton connects file (c ∷ line) v)) (sym h)
        (parts-Calm (address_parts (c ∷ line)) h)

  no_line : (l : List Text) (k : ℕ) → length l ≤ k → get_or (get_elem? l k) [] ≡ []
  no_line [] k h = refl
  no_line (line ∷ l) zero h = absurd (omega arith)
  no_line (line ∷ l) (suc k) h = no_line l k (omega arith)

  read-Calm :
      tracker_file_entry_validation inet_pton file ≡ ok true
      → (k : ℕ) → Calm (read_tracker inet_pton connects file k)
  unfolding read_tracker tracker_file_entry_validation read_line
  read-Calm valid k =
      subst (λ line. Calm (read_line inet_pton connects file line))
        (sym (read_file_by_line_number-suc file k))
        (elim (Bool-cases (ltb k (length (lines file)))) [
          | inl inside ↦ line-Calm _ (line_valid inet_pton (lines file) k valid (ground arith))
          | inr outside ↦
              subst (λ line. Calm (read_line inet_pton connects file line))
                (sym (no_line (lines file) k (ground arith))) (calm none)
        ])

  -- A client whose tracker file has been validated connects to a tracker that accepts the
  -- connection, and throws nothing, if one of the first three trackers of the file accepts it.
  pub validated_connect :
      (k : ℕ) (a : Address)
      → tracker_file_entry_validation inet_pton file ≡ ok true
      → k < max_tracker
      → read_tracker inet_pton connects file k ≡ ok (some a)
      → connects a ≡ true
      → (b : Address) × (connect_to_tracker inet_pton connects file ≡ ok (some b))
        × (connects b ≡ true)
  unfolding connect_to_tracker
  validated_connect k a valid lt found_k accepts =
      let e : 0 + k ≡ k = omega arith in
      connect_from_reaches max_tracker 0 k a lt (read-Calm valid)
        (ap (read_tracker inet_pton connects file) e ∙ found_k) accepts
