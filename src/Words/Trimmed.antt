-- ===== src/Words/Trimmed.antt =====
-- `trim_whitespace` in front of `tokenize`.
use p2p_distributed_file_sha.Prelude.{
  ℕ, ◌≡◌, refl, ap, sym, ◌∙◌, inl, inr, Bool-cases, true, [], ◌∷◌, ◌++◌, append-nil, arith, All,
  if◌then◌else◌,
}
use p2p_distributed_file_sha.Text.{Text}
use p2p_distributed_file_sha.Number.{is_space}
use p2p_distributed_file_sha.Words.{is_blank, trim_start, trim_end, trim_whitespace, tokenize}
use p2p_distributed_file_sha.Words.Tokens.{tokenize-append}

is_space_of_blank : (c : ℕ) → is_blank c ≡ true → is_space c ≡ true
unfolding is_blank is_space
is_space_of_blank c h = ground arith

pub tokenize_nil : tokenize [] ≡ []
unfolding tokenize
tokenize_nil = refl

pub tokenize_space : (c : ℕ) (s : Text) → is_space c ≡ true → tokenize (c ∷ s) ≡ tokenize s
tokenize_space c s h = tokenize-append [] c s h ∙ rw tokenize_nil refl

tokenize-trim_start : (s : Text) → tokenize (trim_start s) ≡ tokenize s
unfolding trim_start
tokenize-trim_start [] = refl
tokenize-trim_start (c ∷ s) = elim (Bool-cases (is_blank c)) [
  | inl blank ↦
      rw blank (tokenize-trim_start s ∙ sym (tokenize_space c s (is_space_of_blank c blank)))
  | inr other ↦ rw other refl
]

-- What `trim_end` takes away.
abbrev IsBlank : ℕ → Type 0
IsBlank c = is_blank c ≡ true

-- `trim_end` of a text with one more byte in front, from that of the text.
abbrev extend : ℕ → Text → Text
extend c [] = if is_blank c then [] else c ∷ []
extend c (d ∷ t) = c ∷ d ∷ t

trimmed_cons :
    (c : ℕ) (s t blanks : Text)
    → s ≡ t ++ blanks
    → All IsBlank blanks
    → (more : Text) × (c ∷ s ≡ extend c t ++ more) × All IsBlank more
trimmed_cons c s [] blanks e h = elim (Bool-cases (is_blank c)) [
  | inl blank ↦ (c ∷ s, rw blank refl, (blank, rw e h))
  | inr other ↦ (blanks, rw other (ap (◌∷◌ c) e), h)
]
trimmed_cons c s (d ∷ t) blanks e h = (blanks, ap (◌∷◌ c) e, h)

extend-trim_end : (c : ℕ) (s : Text) → extend c (trim_end s) ≡ trim_end (c ∷ s)
unfolding trim_end
extend-trim_end c s = ground arith

trimmed_end : (s : Text) → (blanks : Text) × (s ≡ trim_end s ++ blanks) × All IsBlank blanks
unfolding trim_end
trimmed_end [] = ([], refl, tt)
trimmed_end (c ∷ s) =
    let (blanks, e, h) = trimmed_end s in
    let (more, d, k) = trimmed_cons c s (trim_end s) blanks e h in
    (more, d ∙ ap (λ t. t ++ more) (extend-trim_end c s), k)

tokenize_blanks : (blanks : Text) → All IsBlank blanks → tokenize blanks ≡ []
tokenize_blanks [] h = tokenize_nil
tokenize_blanks (c ∷ s) h = tokenize_space c s (is_space_of_blank c h.0) ∙ tokenize_blanks s h.1

tokenize-append_blanks :
    (s blanks : Text) → All IsBlank blanks → tokenize (s ++ blanks) ≡ tokenize s
tokenize-append_blanks s [] h = ap tokenize (append-nil s)
tokenize-append_blanks s (c ∷ blanks) h =
    tokenize-append s c blanks (is_space_of_blank c h.0)
    ∙ rw (tokenize_blanks blanks h.1) (append-nil (tokenize s))

-- Trimming a line does not change its tokens.
pub tokenize-trim_whitespace : (s : Text) → tokenize (trim_whitespace s) ≡ tokenize s
unfolding trim_whitespace
tokenize-trim_whitespace s =
    let (blanks, e, h) = trimmed_end (trim_start s) in
    sym (tokenize-append_blanks (trim_end (trim_start s)) blanks h)
    ∙ ap tokenize (sym e)
    ∙ tokenize-trim_start s
