-- ===== src/Traces/Lines.antt =====
-- Lines of digits: how `get_next_line`, `read_single_number` and the splitting of a request line take
-- them.
use mathlib.Core.List.{}
use dynamic_memory_allocator.Base.{
  ℕ, ◌≤◌, ◌<◌, ◌≡◌, ◌∙◌, refl, ap, true, false, ◌||◌, none, some, List, [], ◌∷◌, ◌++◌, length, drop,
  ◌==◌, ltb, arith, All, All-map, ==_ne, inl, inr, Bool-cases,
}
use dynamic_memory_allocator.Traces.{
  Scan, to_nul, is_blank, skip_blanks, at_line_end, is_trailing, is_empty, trim_end, is_digit,
  split_digits, get_next_line, next_line_of, next_lineno, read_single_number,
}

abbrev pub IsDigit : ℕ → Type 0
IsDigit c = (48 ≤ c) × (c ≤ 57)

-- A character that is neither NUL nor white space.
abbrev pub IsInk : ℕ → Type 0
IsInk c = (32 < c)

ink-is_trailing : (c : ℕ) → IsInk c → is_trailing c ≡ false
unfolding is_trailing
ink-is_trailing c h = ground arith

ink-is_blank : (c : ℕ) → IsInk c → is_blank c ≡ false
unfolding is_blank
ink-is_blank c h = ground arith

skip_blanks-ink : (c : ℕ) (cs : List ℕ) → IsInk c → skip_blanks (c ∷ cs) ≡ c ∷ cs
unfolding skip_blanks
skip_blanks-ink c cs h = rw (ink-is_blank c h) refl

to_nul-ink : (cs : List ℕ) → All (λ c. 0 < c) cs → to_nul cs ≡ cs
unfolding to_nul
to_nul-ink [] h = refl
to_nul-ink (c ∷ cs) h = let some_char = h.0 in rw (==_ne c 0 (omega arith), to_nul-ink cs h.1) refl

trim_end-cons :
    (c : ℕ) (cs : List ℕ) → is_empty (trim_end cs) ≡ false → trim_end (c ∷ cs) ≡ c ∷ trim_end cs
unfolding trim_end
trim_end-cons c cs h = elim (Bool-cases (is_trailing c)) [
  | inl e ↦ rw (h, e) refl
  | inr e ↦ rw (h, e) refl
]

append-some : (xs ds : List ℕ) → is_empty ds ≡ false → is_empty (xs ++ ds) ≡ false
append-some [] ds h = h
append-some (x ∷ xs) ds h = refl

-- The end of the line is cut off behind digits.
trim_end-digits : (ds : List ℕ) → All IsDigit ds → trim_end (ds ++ 10 ∷ []) ≡ ds
unfolding trim_end is_trailing
trim_end-digits [] h = refl
trim_end-digits (d ∷ ds) h =
    let (lower, upper) = h.0 in rw (trim_end-digits ds h.1, ink-is_trailing d (omega arith)) refl

pub trim_end-line :
    (xs ds : List ℕ)
    → All IsDigit ds
    → is_empty ds ≡ false
    → trim_end (xs ++ ds ++ 10 ∷ []) ≡ xs ++ ds
trim_end-line [] ds h some_digit = trim_end-digits ds h
trim_end-line (x ∷ xs) ds h some_digit =
    let rest = trim_end-line xs ds h some_digit in
    trim_end-cons x (xs ++ ds ++ 10 ∷ []) (ap is_empty rest ∙ append-some xs ds some_digit)
    ∙ ap (λ cs. x ∷ cs) rest

pub split_digits-digits :
    (ds : List ℕ) (cs : List ℕ) → All IsDigit ds → split_digits (ds ++ 32 ∷ cs) ≡ (ds, 32 ∷ cs)
unfolding split_digits
split_digits-digits [] cs h = refl
split_digits-digits (d ∷ ds) cs h =
    let (lower, upper) = h.0 in
    let digit : is_digit d ≡ true = ground arith in rw (split_digits-digits ds cs h.1, digit) refl

abbrev pub StartsInk : List ℕ → Type 0
StartsInk [] = ⊥
StartsInk (c ∷ cs) = IsInk c

pub StartsInk-digits :
    (ds cs : List ℕ) → All IsDigit ds → is_empty ds ≡ false → StartsInk (ds ++ cs)
StartsInk-digits [] cs h some_digit = cc
StartsInk-digits (d ∷ ds) cs h some_digit = omega (arith, h.0.0)

pub StartsInk-number : (ds : List ℕ) → All IsDigit ds → is_empty ds ≡ false → StartsInk ds
StartsInk-number [] h some_digit = cc
StartsInk-number (d ∷ ds) h some_digit = omega (arith, h.0.0)

pub chars-digits : (ds : List ℕ) → All IsDigit ds → All (λ c. 0 < c) ds
chars-digits ds h = All-map IsDigit (λ c. 0 < c) ds (λ c digit. omega (arith, digit.0)) h

pub skip_blanks-text : (cs : List ℕ) → StartsInk cs → skip_blanks cs ≡ cs
skip_blanks-text [] h = elim h [ ]
skip_blanks-text (c ∷ cs) h = skip_blanks-ink c cs h

-- A line that starts with ink and holds no NUL is read as its text.
pub get_next_line-text :
    (line : List ℕ) (lines : List (List ℕ)) (lineno : ℕ) (text : List ℕ)
    → StartsInk line
    → All (λ d. 0 < d) line
    → trim_end line ≡ text
    → get_next_line (record { lines = line ∷ lines; ferror = false; lineno = lineno })
      ≡ some (some (text, record { lines = lines; ferror = false; lineno = next_lineno lineno }))
unfolding get_next_line next_line_of at_line_end
get_next_line-text [] lines lineno text ink chars trimmed = elim ink [ ]
get_next_line-text (c ∷ cs) lines lineno text ink chars trimmed =
    let not_end : (c == 10 || c == 13) ≡ false = ground arith in
    rw (to_nul-ink (c ∷ cs) chars, skip_blanks-ink c cs ink, not_end, trimmed) refl

pub get_next_line-end :
    (lineno : ℕ)
    → get_next_line (record { lines = []; ferror = false; lineno = lineno }) ≡ some none
unfolding get_next_line next_line_of
get_next_line-end lineno = refl

drop-length : (cs : List ℕ) → drop (length cs) cs ≡ []
drop-length [] = refl
drop-length (c ∷ cs) = drop-length cs

length-some : (cs : List ℕ) → is_empty cs ≡ false → 0 < length cs
length-some [] h = cc
length-some (c ∷ cs) h = omega arith

-- A text that `strtoul` reads as a number to its end is that number, within the limit.
pub read_single_number-text :
    (strtoul : List ℕ → Scan) (text : List ℕ) (max n : ℕ)
    → strtoul text ≡ record { value = n; consumed = length text; errno = 0 }
    → is_empty text ≡ false
    → n ≤ max
    → read_single_number strtoul text max ≡ some n
unfolding read_single_number
read_single_number-text strtoul text max n reads some_char below =
    let within : ltb max n ≡ false = ground arith in
    let positive = length-some text some_char in
    rw (reads, ==_ne (length text) 0 (omega arith), drop-length text, within) refl
