-- ===== src/Logger/Colors.antt =====
-- The line on the console and the line in the file.
use p2p_distributed_file_sha.Prelude.{
  ℕ, ℤ, zero, suc, pos, negsuc, ◌-◌, ◌≡◌, refl, ap, sym, ◌∙◌, Bool, true, false, not, ◌&&◌, List,
  [], ◌∷◌, ◌++◌, All, All-append, All-imp, arith, append-nil, append_assoc, map, some, length, eqb,
  ltb, if◌then◌else◌, Bool-cases, inl, inr,
}
use p2p_distributed_file_sha.Text.{Text, codes, ◌==◌}
use p2p_distributed_file_sha.Number.{show_int, show_nat}
use p2p_distributed_file_sha.Number.RoundTrip.{IsDigit, show_nat-IsDigit}
use p2p_distributed_file_sha.Logger.{
  color_reset, blanks, pad, has_port, address_info, tag_display, tag_colors, colored_tag,
  format_message, Logger, log, append_line,
}

-- A text as a terminal shows it, without the sequences from an escape to the letter m; the first
-- argument says whether the text begins inside of one.
unfoldable pub uncolor : Bool → Text → Text
uncolor inside [] = []
uncolor true (c ∷ s) = if eqb c b'm' then uncolor false s else uncolor true s
uncolor false (c ∷ s) = if eqb c 27 then uncolor true s else c ∷ uncolor false s

-- The text has no escape.
abbrev pub IsUncolored : Text → Type 0
IsUncolored = All (λ c. eqb c 27 ≡ false)

uncolor-append : (s t : Text) → IsUncolored s → uncolor false (s ++ t) ≡ s ++ uncolor false t
unfolding uncolor
uncolor-append [] t h = refl
uncolor-append (c ∷ s) t h = rw h.0 (ap (λ l. c ∷ l) (uncolor-append s t h.1))

uncolor_whole : (s : Text) → IsUncolored s → uncolor false s ≡ s
unfolding uncolor
uncolor_whole [] h = refl
uncolor_whole (c ∷ s) h = rw h.0 (ap (λ l. c ∷ l) (uncolor_whole s h.1))

blanks-IsUncolored : (n : ℕ) → IsUncolored (blanks n)
unfolding blanks
blanks-IsUncolored zero = tt
blanks-IsUncolored (suc n) = (refl, blanks-IsUncolored n)

if-IsUncolored :
    (b : Bool) (s t : Text) → IsUncolored s → IsUncolored t → IsUncolored (if b then s else t)
if-IsUncolored true s t x y = x
if-IsUncolored false s t x y = y

pad-IsUncolored : (width : ℕ) (s : Text) → IsUncolored s → IsUncolored (pad width s)
pad-IsUncolored width s h =
    if-IsUncolored (ltb (length s) width) _ _
      (All-append _ s (blanks (width - length s)) h (blanks-IsUncolored (width - length s))) h

digit_uncolored : (c : ℕ) → IsDigit c → eqb c 27 ≡ false
digit_uncolored c d = ground arith

show_int-IsUncolored : (z : ℤ) → IsUncolored (show_int z)
unfolding show_int
show_int-IsUncolored (pos n) = All-imp IsDigit _ (show_nat n) digit_uncolored (show_nat-IsDigit n)
show_int-IsUncolored (negsuc n) =
    (refl, All-imp IsDigit _ (show_nat (suc n)) digit_uncolored (show_nat-IsDigit (suc n)))

address_info-IsUncolored :
    (ip : Text) (port : ℤ) → IsUncolored ip → IsUncolored (address_info ip port)
address_info-IsUncolored ip port h = pad-IsUncolored 16 _ (
    if-IsUncolored (not (ip == []) && has_port port) _ _
      (
        refl,
        All-append _ ip (b':' ∷ (show_int port ++ b']' ∷ [])) h
            (refl, All-append _ (show_int port) (b']' ∷ []) (show_int-IsUncolored port) (refl, tt)),
      )
      (refl, (refl, (refl, (refl, (refl, (refl, (refl, (refl, (refl, (refl, (refl, tt))))))))))))

tag_display-IsUncolored : (tag : Text) → IsUncolored tag → IsUncolored (tag_display tag)
tag_display-IsUncolored tag h =
    pad-IsUncolored 8 (b'[' ∷ (tag ++ b']' ∷ [])) (refl, All-append _ tag (b']' ∷ []) h (refl, tt))

-- The text does not show.
abbrev IsHidden : Text → Type 0
IsHidden p = (t : Text) → uncolor false (p ++ t) ≡ uncolor false t

abbrev AreHidden : Text × Text → Type 0
AreHidden colors = IsHidden colors.0 × IsHidden colors.1

if-AreHidden :
    (b : Bool) (p q : Text × Text) → AreHidden p → AreHidden q → AreHidden (if b then p else q)
if-AreHidden true p q x y = x
if-AreHidden false p q x y = y

tag_colors-AreHidden : (tag : Text) → AreHidden (tag_colors tag)
unfolding uncolor
tag_colors-AreHidden tag =
    if-AreHidden (tag == codes "INFO") _ _ ((λ t. refl), (λ t. refl))
      (if-AreHidden (tag == codes "ERROR") _ _ ((λ t. refl), (λ t. refl))
        (if-AreHidden (tag == codes "FAILED") _ _ ((λ t. refl), (λ t. refl))
          (if-AreHidden (tag == codes "SYNC") _ _ ((λ t. refl), (λ t. refl))
            ((λ t. refl), (λ t. refl)))))

-- The colours of a tag do not show.
tag_uncolored :
    (tag t : Text)
    → IsUncolored tag
    → uncolor false (colored_tag tag ++ t) ≡ tag_display tag ++ uncolor false t
tag_uncolored tag t h =
    let colors = tag_colors tag in
    let hidden = tag_colors-AreHidden tag in
    let shown = tag_display tag in
    ap (uncolor false) (
      append_assoc colors.0 (shown ++ colors.1) t
      ∙ ap (λ l. colors.0 ++ l) (append_assoc shown colors.1 t))
    ∙ hidden.0 (shown ++ (colors.1 ++ t))
    ∙ uncolor-append shown (colors.1 ++ t) (tag_display-IsUncolored tag h)
    ∙ ap (λ l. shown ++ l) (hidden.1 t)

module _ (time_stamp message ip : Text) (port : ℤ) (tag : Text) (time : IsUncolored time_stamp)
    (text : IsUncolored message) (address : IsUncolored ip) (label : IsUncolored tag) where
  tag_and_text :
      uncolor false (colored_tag tag ++ b' ' ∷ message) ≡ tag_display tag ++ b' ' ∷ message
  unfolding uncolor
  tag_and_text =
      tag_uncolored tag (b' ' ∷ message) label
      ∙ ap (λ l. tag_display tag ++ b' ' ∷ l) (uncolor_whole message text)

  address_and_tag :
      uncolor false
        (address_info ip port ++ (color_reset ++ b' ' ∷ (colored_tag tag ++ b' ' ∷ message)))
      ≡ address_info ip port ++ b' ' ∷ (tag_display tag ++ b' ' ∷ message)
  unfolding uncolor
  address_and_tag =
      uncolor-append (address_info ip port)
        (color_reset ++ b' ' ∷ (colored_tag tag ++ b' ' ∷ message))
        (address_info-IsUncolored ip port address)
      ∙ ap (λ l. address_info ip port ++ b' ' ∷ l) tag_and_text

  -- A line on the console reads, without its colours, as the line in the file does.
  pub uncolor-format_message :
      uncolor false (format_message time_stamp message ip port tag true)
      ≡ format_message time_stamp message ip port tag false
  unfolding uncolor format_message
  uncolor-format_message =
      uncolor-append time_stamp _ time ∙ ap (λ l. time_stamp ++ b' ' ∷ l) address_and_tag

-- What a call of `log` is given, with what the clock says twice.
pub record Entry : Type 0 where
  pub file_time : Text
  pub console_time : Text
  pub message : Text
  pub ip : Text
  pub port : ℤ
  pub tag : Text
  pub to_console : Bool

-- The calls, one after the other: each holds the logger's mutex.
unfoldable pub log_all : Logger → List Entry → Logger
log_all l [] = l
log_all l (e ∷ es) =
    log_all (log l e.file_time e.console_time e.message e.ip e.port e.tag e.to_console) es

abbrev pub NoEscape : Entry → Type 0
NoEscape e =
    IsUncolored e.console_time × IsUncolored e.message × IsUncolored e.ip × IsUncolored e.tag

-- The line of an entry, at the time that the file shows, and at the one that the console shows.
abbrev pub file_line : Entry → Text
file_line e = format_message e.file_time e.message e.ip e.port e.tag false

abbrev pub console_line : Entry → Text
console_line e = format_message e.console_time e.message e.ip e.port e.tag false

-- The lines of the entries that go to the console as well.
unfoldable pub console_lines : List Entry → List Text
console_lines [] = []
console_lines (e ∷ es) =
    let rest = console_lines es in if e.to_console then console_line e ∷ rest else rest

map-append :
    (xs ys : List Text)
    → map (uncolor false) (xs ++ ys) ≡ map (uncolor false) xs ++ map (uncolor false) ys
map-append [] ys = refl
map-append (x ∷ xs) ys = ap (λ l. uncolor false x ∷ l) (map-append xs ys)

-- Whatever is logged, in texts without escapes, after the file has been opened: the file has
-- gained a line for each entry, in order, and the console shows, but for the colours, just the
-- lines of the entries that ask for it, each with the time that the clock gives at its second
-- reading.
pub log_all-lines :
    (es : List Entry) (lines console : List Text)
    → All NoEscape es
    → ((log_all (record { log_file = some lines; console = console }) es).log_file
        ≡ some (lines ++ map file_line es))
      × (map
            (uncolor false)
            (log_all (record { log_file = some lines; console = console }) es).console
          ≡ map (uncolor false) console ++ console_lines es)
unfolding log_all log append_line console_lines
log_all-lines [] lines console h = (ap some (sym (append-nil lines)), sym (append-nil _))
log_all-lines (e ∷ es) lines console h =
    let plain =
      uncolor-format_message e.console_time e.message e.ip e.port e.tag h.0.0 h.0.1 h.0.2 h.0.3 in
    elim (Bool-cases e.to_console) [
      | inl shown ↦
          let line = format_message e.console_time e.message e.ip e.port e.tag true in
          let rest = log_all-lines es (lines ++ file_line e ∷ []) (console ++ line ∷ []) h.1 in
          rw shown (
            rest.0 ∙ ap some (append_assoc lines (file_line e ∷ []) (map file_line es)),
            rest.1
                ∙ ap (λ l. l ++ console_lines es) (map-append console (line ∷ []))
                ∙ append_assoc (map (uncolor false) console) (uncolor false line ∷ [])
                    (console_lines es)
                ∙ ap (λ l. map (uncolor false) console ++ l ∷ console_lines es) plain,
          )
      | inr hidden ↦
          let rest = log_all-lines es (lines ++ file_line e ∷ []) console h.1 in
          rw hidden
            (rest.0 ∙ ap some (append_assoc lines (file_line e ∷ []) (map file_line es)), rest.1)
    ]
