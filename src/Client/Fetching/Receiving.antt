-- ===== src/Client/Fetching/Receiving.antt =====
-- `receive_piece` on what a seeder sends.
use p2p_distributed_file_sha.Prelude.{
  ℕ, zero, suc, ◌-◌, ◌^◌, ◌<◌, ◌≡◌, ◌≢◌, refl, ap, inl, inr, Option-cases, some, List, [], ◌∷◌,
  ◌++◌, arith, All, length, length-append, length-take-le, take, take_all,
}
use p2p_distributed_file_sha.Text.{Text}
use p2p_distributed_file_sha.Client.ByteOrder.{ByteOrder, htonll, ntohll-htonll}
use p2p_distributed_file_sha.Client.Fetching.{Reply, answers, receive_bytes, receive_piece}

-- All that the segments hold.
abbrev pub together : List Text → Text
together [] = []
together (segment ∷ segments) = segment ++ together segments

abbrev pub HasBytes : Text → Type 0
HasBytes segment = segment ≢ []

pub received_all :
    (segments : List Text)
    → All HasBytes segments
    → receive_bytes (length (together segments)) segments ≡ some (together segments)
unfolding receive_bytes
received_all [] h = refl
received_all ([] ∷ segments) h = absurd (h.0 refl)
received_all ((c ∷ segment) ∷ segments) h =
    let n = length (segment ++ together segments) in
    let e : take n segment ≡ segment =
      take_all n segment (omega (arith, length-append segment (together segments))) in
    let d : suc n - suc (length segment) ≡ length (together segments) =
      omega (arith, length-append segment (together segments)) in
    rw (e, d, received_all segments h.1) refl

length_received :
    (n : ℕ) (segments : List Text) (p : Text) → receive_bytes n segments ≡ some p → length p ≡ n
unfolding receive_bytes
length_received zero [] p h = ground arith
length_received zero (s ∷ segments) p h = ground arith
length_received (suc n) [] p h = cc
length_received (suc n) ([] ∷ segments) p h = cc
length_received (suc n) ((c ∷ segment) ∷ segments) p h =
    let got = take (suc n) (c ∷ segment) in
    let left = suc n - length got in
    elim (Option-cases (receive_bytes left segments)) [
      | inl stopped ↦ cc
      | inr (rest, e) ↦
          let whole : p ≡ got ++ rest = cc in
          omega (
            arith,
            ap length whole,
            length-append got rest,
            length_received left segments rest e,
            length-take-le (suc n) (c ∷ segment),
          )
    ]

-- What is received has the size that is expected.
pub length-receive_piece :
    (o : ByteOrder) (reply : Reply) (n : ℕ) (p : Text)
    → receive_piece o reply n ≡ some p
    → length p ≡ n
unfolding receive_piece
length-receive_piece o (answers net_len segments) n p h =
    ground (arith, length_received n segments p)
length-receive_piece o reply n p h = cc

-- A piece that is announced with its length, in network order, and sent in segments that are not
-- empty, is received whole, if its length is the one that is expected.
pub receive_piece_whole :
    (o : ByteOrder) (segments : List Text)
    → All HasBytes segments
    → length (together segments) < 2 ^ 64
    → receive_piece o
        (answers (htonll o (length (together segments))) segments)
        (length (together segments))
      ≡ some (together segments)
unfolding receive_piece
receive_piece_whole o segments h fits =
    ground (arith, ntohll-htonll o (length (together segments)) fits, received_all segments h)
