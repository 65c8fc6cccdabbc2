-- ===== src/Client/Fetching/Writing.antt =====
-- The bytes of the destination after `write_content`.
use p2p_distributed_file_sha.Prelude.{
  ℕ, zero, suc, ◌+◌, ◌-◌, ◌*◌, ◌≤◌, ◌<◌, ◌≡◌, refl, ap, sym, ◌∙◌, inl, inr, Bool-cases, true,
  Option, none, some, List, [], ◌∷◌, ◌++◌, arith, subst, length-drop, length, length-append,
  length-take-add, take, drop, take-append_drop, get_elem?, ltb, if◌then◌else◌,
}
use p2p_distributed_file_sha.Text.{Text}
use p2p_distributed_file_sha.Disk.{write_at}
use p2p_distributed_file_sha.Disk.Bytes.{
  length-write_at, write_at_before, write_at_inside, write_at_behind,
}
use p2p_distributed_file_sha.Client.Pieces.{global_piece_size}
use p2p_distributed_file_sha.Client.Fetching.{write_bytes, write_content}

-- `g` is `f` with the new bytes from the offset on.
pub record Written (offset : ℕ) (new f g : Text) : Type 0 where
  pub same_length : length g ≡ length f
  pub byte :
      (k : ℕ)
      → get_elem? g k ≡ (
          if ltb k offset
          then get_elem? f k
          else if ltb k (offset + length new)
          then get_elem? new (k - offset)
          else get_elem? f k)

module _ (offset : ℕ) (new f g : Text) (w : Written offset new f g) where
  pub byte_inside : (k : ℕ) → k < length new → get_elem? g (offset + k) ≡ get_elem? new k
  byte_inside k h =
      let e : offset + k - offset ≡ k = omega arith in
      let at_k = ap (get_elem? new) e in ground (arith, w.byte (offset + k))

  pub byte_before : (k : ℕ) → k < offset → get_elem? g k ≡ get_elem? f k
  byte_before k h = ground (arith, w.byte k)

  pub byte_behind : (k : ℕ) → offset + length new ≤ k → get_elem? g k ≡ get_elem? f k
  byte_behind k h = ground (arith, w.byte k)

write_at-Written :
    (offset : ℕ) (new f : Text)
    → offset + length new ≤ length f
    → Written offset new f (write_at offset new f)
write_at-Written offset new f h = record {
  same_length = length-write_at offset new f h;
  byte = λ k. elim (Bool-cases (ltb k offset)) [
    | inl early ↦ rw early (write_at_before offset new f h k (ground arith))
    | inr late ↦ elim (Bool-cases (ltb k (offset + length new))) [
      | inl inside ↦
          let e : k ≡ offset + (k - offset) = ground arith in
          rw (late, inside)
            (ap (get_elem? (write_at offset new f)) e
              ∙ write_at_inside offset new f h (k - offset) (ground arith))
      | inr behind ↦
          let i = k - offset - length new in
          let e : k ≡ offset + (length new + i) = ground arith in
          rw (late, behind)
            (ap (get_elem? (write_at offset new f)) e
              ∙ write_at_behind offset new f h i
              ∙ ap (get_elem? f) (sym e))
    ]
  ];
}

get_elem?-append :
    (s t : Text) (k : ℕ)
    → get_elem? (s ++ t) k
      ≡ (if ltb k (length s) then get_elem? s k else get_elem? t (k - length s))
get_elem?-append [] t k = let e : k ≡ k - 0 = omega arith in ap (get_elem? t) e ∙ ground arith
get_elem?-append (c ∷ s) t zero = ground arith
get_elem?-append (c ∷ s) t (suc k) = get_elem?-append s t k ∙ ground arith

Written-append :
    (offset : ℕ) (new more f g h : Text)
    → Written offset new f g
    → Written (offset + length new) more g h
    → Written offset (new ++ more) f h
Written-append offset new more f g h a b = record {
  same_length = b.same_length ∙ a.same_length;
  byte = λ k.
      let e : k - offset - length new ≡ k - (offset + length new) = omega arith in
      ground (
        arith,
        a.byte k,
        b.byte k,
        get_elem?-append new more (k - offset),
        length-append new more,
        ap (get_elem? more) e,
      );
}

Written-nil : (offset : ℕ) (f : Text) → Written offset [] f f
Written-nil offset f = record { same_length = refl; byte = λ k. ground arith }

-- One `write` and those that follow it.
Written-then :
    (offset w : ℕ) (left f g : Text)
    → offset + length left ≤ length f
    → Written (offset + length (take w left)) (drop w left) (write_at offset (take w left) f) g
    → Written offset left f g
Written-then offset w left f g h next =
    let part = take w left in
    let fits : offset + length part ≤ length f = omega (arith, length-take-add w left) in
    subst (λ new. Written offset new f g) (take-append_drop w left)
      (Written-append offset part (drop w left) f _ g (write_at-Written offset part f fits) next)

write_bytes-Written :
    (results : List (Option ℕ)) (offset : ℕ) (left f g : Text)
    → offset + length left ≤ length f
    → write_bytes results offset left f ≡ (g, true)
    → Written offset left f g
unfolding write_bytes
write_bytes-Written [] offset [] f g h e =
    subst (Written offset [] f) (ap (λ r. r.0) e) (Written-nil offset f)
write_bytes-Written (r ∷ results) offset [] f g h e =
    subst (Written offset [] f) (ap (λ r. r.0) e) (Written-nil offset f)
write_bytes-Written [] offset (c ∷ left) f g h e = cc
write_bytes-Written (none ∷ results) offset (c ∷ left) f g h e = cc
write_bytes-Written (some w ∷ results) offset (c ∷ left) f g h e =
    let part = take w (c ∷ left) in
    let rest = drop w (c ∷ left) in
    let fits : offset + length part ≤ length f = omega (arith, length-take-add w (c ∷ left)) in
    let size = length-write_at offset part f fits in
    Written-then offset w (c ∷ left) f g h (
      write_bytes-Written results (offset + length part) rest (write_at offset part f) g
        (omega (arith, length-take-add w (c ∷ left), length-drop w (c ∷ left))) e)

-- When `write_content` succeeds, the file has the content at the place of the piece, and all other
-- bytes are as before, however many calls of `write` it took.
pub write_content-Written :
    (results : List (Option ℕ)) (index ps : ℕ) (content f g : Text)
    → index * ps + length content ≤ length f
    → write_content results index content ps f ≡ (g, true)
    → Written (index * ps) content f g
unfolding write_content
write_content-Written results index ps content f g h e =
    write_bytes-Written results (index * ps) content f g h e

-- The first `write` takes a whole piece.
pub record CanWrite (results : List (Option ℕ)) : Type 0 where
  pub room : ℕ
  pub later : List (Option ℕ)
  pub enough : global_piece_size ≤ room
  pub first : results ≡ some room ∷ later

write_bytes_nil :
    (results : List (Option ℕ)) (offset : ℕ) (f : Text) → (write_bytes results offset [] f).1 ≡ true
unfolding write_bytes
write_bytes_nil [] offset f = refl
write_bytes_nil (r ∷ results) offset f = refl

nothing_behind : (n : ℕ) (s : Text) → length s ≤ n → drop n s ≡ []
nothing_behind zero [] h = refl
nothing_behind zero (c ∷ s) h = absurd (omega arith)
nothing_behind (suc n) [] h = refl
nothing_behind (suc n) (c ∷ s) h = nothing_behind n s (omega arith)

write_bytes_once :
    (n : ℕ) (later : List (Option ℕ)) (offset : ℕ) (p f : Text)
    → length p ≤ n
    → (write_bytes (some n ∷ later) offset p f).1 ≡ true
unfolding write_bytes
write_bytes_once n later offset [] f h = refl
write_bytes_once n later offset (c ∷ p) f h =
    let f' = write_at offset (take n (c ∷ p)) f in
    let next = offset + length (take n (c ∷ p)) in
    subst (λ left. (write_bytes later next left f').1 ≡ true) (sym (nothing_behind n (c ∷ p) h))
      (write_bytes_nil later next f')

pub write_content_once :
    (results : List (Option ℕ)) (index : ℕ) (p : Text) (ps : ℕ) (f : Text)
    → CanWrite results
    → length p ≤ global_piece_size
    → (write_content results index p ps f).1 ≡ true
unfolding write_content
write_content_once results index p ps f c h =
    subst (λ l. (write_bytes l (index * ps) p f).1 ≡ true) (sym c.first)
      (write_bytes_once c.room c.later (index * ps) p f (omega (arith, c.enough)))
