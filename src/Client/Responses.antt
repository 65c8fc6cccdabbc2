-- ===== src/Client/Responses.antt =====
-- `receive_full_message` of client/headers/client_skelton.cpp, with which `reset_tracker` reads what
-- the tracker answers.
use p2p_distributed_file_sha.Prelude.{
  ◌<◌, ◌≡◌, ◌≢◌, ◌⊎◌, inl, inr, subst, refl, ap, ◌∙◌, Bool, true, false, ◌||◌, List, [], ◌∷◌, ◌++◌,
  All, append_assoc, eqb, if◌then◌else◌, arith,
}
use p2p_distributed_file_sha.Text.{Text}
use p2p_distributed_file_sha.Session.{c_string}
use p2p_distributed_file_sha.Client.Fetching.Receiving.{together, HasBytes}

-- `result.find('\n') != string::npos`
unfoldable pub has_line : Text → Bool
has_line [] = false
has_line (c ∷ s) = eqb c b'\n' || has_line s

-- The loop, with what it has so far. A segment is what one `recv` delivers, at most 1023 bytes; one
-- without bytes, and the end of the list, stand for a result that is not positive.
receive_from : Text → List Text → Text
receive_from result [] = result
receive_from result ([] ∷ segments) = result
receive_from result ((c ∷ segment) ∷ segments) =
    let longer = result ++ c_string (c ∷ segment) in
    let rest = receive_from longer segments in if has_line longer then longer else rest

unfoldable pub receive_full_message : List Text → Text
unfolding receive_from
receive_full_message segments = receive_from [] segments

-- A line of bytes that are neither NUL nor the end of the line.
abbrev pub IsLine : Text → Type 0
IsLine line = (has_line line ≡ false) × All (λ c. 0 < c) line

has_line-append : (s t : Text) → has_line (s ++ t) ≡ (has_line s || has_line t)
unfolding has_line
has_line-append [] t = refl
has_line-append (c ∷ s) t = ground (arith, has_line-append s t)

line_ends : (line : Text) → has_line (line ++ b'\n' ∷ []) ≡ true
unfolding has_line
line_ends [] = refl
line_ends (c ∷ line) = ground (arith, line_ends line)

c_string-positive : (s : Text) → All (λ c. 0 < c) s → c_string s ≡ s
unfolding c_string
c_string-positive [] h = refl
c_string-positive (c ∷ s) h = ground (arith, h.0, c_string-positive s h.1)

-- A segment at the start of a line with its end: it is all of it, or a part of the line.
cut_line :
    (s t line : Text)
    → s ++ t ≡ line ++ b'\n' ∷ []
    → ((t ≡ []) × (s ≡ line ++ b'\n' ∷ []))
      ⊎ ((rest : Text) × (line ≡ s ++ rest) × (t ≡ rest ++ b'\n' ∷ []))
cut_line [] t line e = inr (line, refl, e)
cut_line (c ∷ []) [] [] e = inl (refl, e)
cut_line (c ∷ []) (d ∷ t) [] e = absurd (cc)
cut_line (c ∷ d ∷ s) t [] e = absurd (cc)
cut_line (c ∷ s) t (d ∷ line) e = elim (cut_line s t line (cc)) [
  | inl (nothing, all) ↦ inl (nothing, cc)
  | inr (rest, part, left) ↦ inr (rest, cc, left)
]

no_line : (line : Text) → [] ≢ line ++ b'\n' ∷ []
no_line [] e = cc
no_line (c ∷ line) e = cc

whole_positive : (line : Text) → All (λ c. 0 < c) line → All (λ c. 0 < c) (line ++ b'\n' ∷ [])
whole_positive [] h = (omega arith, tt)
whole_positive (c ∷ line) h = (h.0, whole_positive line h.1)

positive_parts : (s t : Text) → All (λ c. 0 < c) (s ++ t) → All (λ c. 0 < c) s × All (λ c. 0 < c) t
positive_parts [] t h = (tt, h)
positive_parts (c ∷ s) t h = let (first, rest) = positive_parts s t h.1 in ((h.0, first), rest)

IsLine-parts : (s t : Text) → IsLine (s ++ t) → IsLine s × IsLine t
IsLine-parts s t (no_end, positive) =
    let (first, rest) = positive_parts s t positive in
    ((ground (arith, has_line-append s t), first), (ground (arith, has_line-append s t), rest))

received_line :
    (result line : Text) (segments later : List Text)
    → has_line result ≡ false
    → IsLine line
    → All HasBytes segments
    → together segments ≡ line ++ b'\n' ∷ []
    → receive_from result (segments ++ later) ≡ result ++ (line ++ b'\n' ∷ [])
unfolding receive_from
received_line result line [] later none_yet is_line h e = absurd (no_line line e)
received_line result line ([] ∷ segments) later none_yet is_line h e = absurd (h.0 refl)
received_line result line ((c ∷ s) ∷ segments) later none_yet is_line h e =
    elim (cut_line (c ∷ s) (together segments) line e) [
      | inl (nothing, all) ↦
          let read : c_string (c ∷ s) ≡ line ++ b'\n' ∷ [] =
            ap c_string all ∙ c_string-positive _ (whole_positive line is_line.1) in
          let ended : has_line (result ++ (line ++ b'\n' ∷ [])) ≡ true =
            ground (arith, has_line-append result (line ++ b'\n' ∷ []), line_ends line) in
          rw (read, ended) refl
      | inr (rest, part, left) ↦
          let (first, behind) = IsLine-parts (c ∷ s) rest (subst IsLine part is_line) in
          let read : c_string (c ∷ s) ≡ c ∷ s = c_string-positive (c ∷ s) first.1 in
          let open_still : has_line (result ++ (c ∷ s)) ≡ false =
            ground (arith, has_line-append result (c ∷ s), first.0) in
          let on =
            received_line (result ++ (c ∷ s)) rest segments later open_still behind h.1 left in
          let joined = append_assoc result (c ∷ s) (rest ++ b'\n' ∷ []) in
          rw (read, open_still) (on ∙ cc (joined, e, left))
    ]

-- An answer of one line, without a NUL, is read as it was sent, whatever the segments in which it
-- arrives, if none of them is empty, and whatever arrives behind these.
pub receive_full_message_line :
    (line : Text) (segments later : List Text)
    → IsLine line
    → All HasBytes segments
    → together segments ≡ line ++ b'\n' ∷ []
    → receive_full_message (segments ++ later) ≡ line ++ b'\n' ∷ []
unfolding receive_full_message has_line
receive_full_message_line line segments later is_line h e =
    received_line [] line segments later refl is_line h e
