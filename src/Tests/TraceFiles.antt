-- ===== src/Tests/TraceFiles.antt =====
-- A trace file read, with `strtoul` for plain decimal numbers, and the theorems on such files.
use dynamic_memory_allocator.Base.{
  ℕ, zero, suc, ◌+◌, ◌-◌, ◌*◌, ◌/◌, ◌%◌, ◌<◌, ◌≡◌, ◌⊎◌, ◌∙◌, refl, true, false, Option, none, some,
  List, [], ◌∷◌, ◌++◌, length, ltb, if◌then◌else◌, arith, inl, inr, All, All-append_of, Bool-cases,
}
use dynamic_memory_allocator.Traces.{
  Trace, TraceOp, alloc_op, free_op, realloc_op, wall, Input, Scan, is_empty, is_digit, read_trace,
  read_header, read_header_number, get_header_line, get_next_line, next_line_of, to_nul,
  skip_blanks, is_blank, at_line_end, trim_end, is_trailing, read_single_number, read_requests,
  read_request, read_alloc_line, read_free_line, read_sizes, split_digits, weight_codes,
}
use dynamic_memory_allocator.Traces.Lines.{IsDigit}
use dynamic_memory_allocator.Traces.Bounds.{read_trace-ids}
use dynamic_memory_allocator.Traces.Text.{IsDecimal, print_trace, numbered}
use dynamic_memory_allocator.Traces.Print.{read_trace-print_trace}

-- The number that the digits stand for, behind those that stand for `n`.
abbrev digits_value : ℕ → List ℕ → ℕ
digits_value n [] = n
digits_value n (c ∷ cs) = digits_value (n * 10 + (c - 48)) cs

-- The digits at the start.
abbrev leading : List ℕ → List ℕ
leading [] = []
leading (c ∷ cs) = let rest = leading cs in if is_digit c then c ∷ rest else []

-- `strtoul` on a number without sign or space that fits.
abbrev plain_strtoul : List ℕ → Scan
plain_strtoul text = record {
  value = digits_value 0 (leading text);
  consumed = length (leading text);
  errno = 0;
}

-- At most `k` digits before the last.
decimal_from : ℕ → ℕ → List ℕ
decimal_from zero n = (48 + n % 10) ∷ []
decimal_from (suc k) n =
    let front = decimal_from k (n / 10) in
    if ltb n 10 then (48 + n) ∷ [] else front ++ (48 + n % 10) ∷ []

decimal : ℕ → List ℕ
decimal n = decimal_from 19 n

leading-digits : (ds : List ℕ) → All IsDigit ds → leading ds ≡ ds
leading-digits [] h = refl
leading-digits (d ∷ ds) h =
    let (lower, upper) = h.0 in
    let digit : is_digit d ≡ true = ground arith in rw (digit, leading-digits ds h.1) refl

digits_value-snoc :
    (n : ℕ) (ds : List ℕ) (d : ℕ)
    → digits_value n (ds ++ d ∷ []) ≡ digits_value n ds * 10 + (d - 48)
digits_value-snoc n [] d = refl
digits_value-snoc n (c ∷ ds) d = digits_value-snoc (n * 10 + (c - 48)) ds d

decimal-digits : (k n : ℕ) → All IsDigit (decimal_from k n)
unfolding decimal_from
decimal-digits zero n = ((omega arith, omega arith), tt)
decimal-digits (suc k) n = elim (Bool-cases (ltb n 10)) [
  | inl small ↦ rw small ((omega arith, ground (arith, small)), tt)
  | inr large ↦ rw large (
      All-append_of IsDigit (decimal_from k (n / 10)) _ (decimal-digits k (n / 10))
        ((omega arith, omega arith), tt))
]

append-some : (xs : List ℕ) (d : ℕ) → is_empty (xs ++ d ∷ []) ≡ false
append-some [] d = refl
append-some (x ∷ xs) d = refl

decimal-some : (k n : ℕ) → is_empty (decimal_from k n) ≡ false
unfolding decimal_from
decimal-some zero n = refl
decimal-some (suc k) n = elim (Bool-cases (ltb n 10)) [
  | inl small ↦ rw small refl
  | inr large ↦ rw large (append-some (decimal_from k (n / 10)) _)
]

abbrev Fits : ℕ → ℕ → Type 0
Fits zero n = n < 10
Fits (suc k) n = Fits k (n / 10)

decimal-value : (k n : ℕ) → Fits k n → digits_value 0 (decimal_from k n) ≡ n
unfolding decimal_from
decimal-value zero n fits = omega arith
decimal-value (suc k) n fits = elim (Bool-cases (ltb n 10)) [
  | inl small ↦ rw small (omega arith)
  | inr large ↦ rw large (
      digits_value-snoc 0 (decimal_from k (n / 10)) _
      ∙ omega (arith, decimal-value k (n / 10) fits))
]

decimal-IsDecimal : IsDecimal plain_strtoul decimal
unfolding decimal
decimal-IsDecimal = record {
  digits = decimal-digits 19;
  some_digit = decimal-some 19;
  reads = λ n small.
      rw
        (leading-digits (decimal_from 19 n) (decimal-digits 19 n), decimal-value 19 n (omega arith))
        refl;
}

abbrev file_ops : List TraceOp
file_ops =
    record { opcode = alloc_op; lineno = 0; index = 0; size = 8 }
    ∷ record { opcode = realloc_op; lineno = 0; index = 0; size = 40 }
    ∷ record { opcode = free_op; lineno = 0; index = 0; size = 0 }
    ∷ []

abbrev file_trace : Trace
file_trace = record {
  data_bytes = 40;
  num_ids = 1;
  num_ops = 3;
  weight = wall;
  ops = numbered 4 file_ops;
  blocks = λ i. 0;
  block_sizes = λ i. 0;
  block_rand_base = λ i. 0;
}

abbrev printed : Input
printed = record { lines = print_trace decimal 1 1 40 file_ops; ferror = false; lineno = 0 }

read_trace-print_trace_example : read_trace plain_strtoul (λ i. true) printed ≡ some file_trace
unfolding weight_codes
read_trace-print_trace_example =
    read_trace-print_trace plain_strtoul decimal decimal-IsDecimal (λ i. true) 1 1 40 file_ops
      (λ i. refl) (omega arith) (omega arith) (omega arith) (omega arith)
      (
        (omega arith, omega arith, tt),
        ((omega arith, omega arith, tt), ((omega arith, omega arith, refl), tt)),
      )
      refl

-- A file with blank lines, a carriage return, tabs and spaces around its numbers.
abbrev spaced : Input
spaced = record {
  lines =
      (10 ∷ [])
      ∷ (32 ∷ 51 ∷ 13 ∷ 10 ∷ [])
      ∷ (49 ∷ 10 ∷ [])
      ∷ (49 ∷ 10 ∷ [])
      ∷ (9 ∷ 56 ∷ 32 ∷ 10 ∷ [])
      ∷ (97 ∷ 9 ∷ 48 ∷ 32 ∷ 9 ∷ 56 ∷ 10 ∷ [])
      ∷ [];
  ferror = false;
  lineno = 0;
}

abbrev spaced_ops : Option (List TraceOp)
spaced_ops = elim (read_trace plain_strtoul (λ i. true) spaced) [
  | none ↦ none
  | some trace ↦ some trace.ops
]

spaced_run : spaced_ops ≡ some (record { opcode = alloc_op; lineno = 6; index = 0; size = 8 } ∷ [])
unfolding read_trace read_header read_header_number get_header_line get_next_line next_line_of
    to_nul skip_blanks is_blank at_line_end trim_end is_trailing read_single_number read_requests
    read_request read_alloc_line read_free_line read_sizes split_digits
spaced_run = refl

file_read : read_trace plain_strtoul (λ i. true) printed ≡ some file_trace
unfolding decimal decimal_from read_trace read_header read_header_number get_header_line
    get_next_line next_line_of to_nul skip_blanks is_blank at_line_end trim_end is_trailing
    read_single_number read_requests read_request read_alloc_line read_free_line read_sizes
    split_digits weight_codes
file_read = refl

read_trace-ids_example :
    (length (numbered 4 file_ops) ≡ 3)
    × (◌≡◌ {A = ℕ} 1 0 ⊎ All (λ op. op.index < 1) (numbered 4 file_ops))
read_trace-ids_example = read_trace-ids plain_strtoul (λ i. true) printed file_trace file_read

-- A header without ids lets any id through, if the largest possible one is used: with it, the request
-- for block 5 has no place in the arrays.
abbrev wrapped : Input
wrapped = record {
  lines =
      (48 ∷ [])
      ∷ (48 ∷ [])
      ∷ (50 ∷ [])
      ∷ (48 ∷ [])
      ∷ (97 ∷ 32 ∷ 53 ∷ 32 ∷ 56 ∷ [])
      ∷ (102 ∷ 32 ∷ 52 ∷ 50 ∷ 57 ∷ 52 ∷ 57 ∷ 54 ∷ 55 ∷ 50 ∷ 57 ∷ 53 ∷ [])
      ∷ [];
  ferror = false;
  lineno = 0;
}

abbrev wrapped_ids : Option (ℕ × ℕ)
wrapped_ids = elim (read_trace plain_strtoul (λ i. true) wrapped) [
  | none ↦ none
  | some trace ↦ some (trace.num_ids, length trace.ops)
]

wrapped_run : wrapped_ids ≡ some (0, 2)
unfolding read_trace read_header read_header_number get_header_line get_next_line next_line_of
    to_nul skip_blanks is_blank at_line_end trim_end is_trailing read_single_number read_requests
    read_request read_alloc_line read_free_line read_sizes split_digits
wrapped_run = refl
