-- ===== src/Traces.antt =====
-- tracefile.c and tracefile.h: a trace of requests and how it is read from a file. A character is
-- its code; `none` is a report of an error, on which the program exits.
pub mod Bounds
pub mod Lines
pub mod Text
pub mod Print
pub mod Rounds
use dynamic_memory_allocator.Base.{
  ℕ, zero, suc, ◌+◌, ◌-◌, ◌%◌, ◌^◌, Bool, true, false, not, ◌&&◌, ◌||◌, Option, none, some, List,
  [], ◌∷◌, length, drop, ◌==◌, leb, ltb, if◌then◌else◌,
}

pub data Weight : Type 0 where
  wnone : Weight
  wutil : Weight
  wperf : Weight
  wall : Weight

pub data TraceOpcode : Type 0 where
  alloc_op : TraceOpcode
  free_op : TraceOpcode
  realloc_op : TraceOpcode

-- `traceop_t`; `opcode` is its field `type`.
pub record TraceOp : Type 0 where
  pub opcode : TraceOpcode
  pub lineno : ℕ
  pub index : ℕ
  pub size : ℕ

-- `trace_t` without its file name; the arrays are indexed by block ids. They have `num_ids` entries:
-- what the functions give from there on stands for no memory, and the driver's accesses to them are
-- faults (`within_arrays` of the module Replay).
pub record Trace : Type 0 where
  pub data_bytes : ℕ
  pub num_ids : ℕ
  pub num_ops : ℕ
  pub weight : Weight
  pub ops : List TraceOp
  pub blocks : ℕ → ℕ
  pub block_sizes : ℕ → ℕ
  pub block_rand_base : ℕ → ℕ

-- The two arrays are cleared up to `num_ids`.
unfoldable pub reinit_trace : Trace → Trace
reinit_trace trace = record trace {
  blocks = λ i. if ltb i trace.num_ids then 0 else trace.blocks i;
  block_sizes = λ i. if ltb i trace.num_ids then 0 else trace.block_sizes i;
}

-- `weight_codes`
unfoldable pub weight_codes : ℕ → Weight
weight_codes i = if i == 0 then wnone else if i == 1 then wall else if i == 2 then wutil else wperf

-- The characters of a line before its first NUL.
unfoldable pub to_nul : List ℕ → List ℕ
to_nul [] = []
to_nul (c ∷ cs) = let rest = to_nul cs in if c == 0 then [] else c ∷ rest

-- A space or a tab.
unfoldable pub is_blank : ℕ → Bool
is_blank c = c == 32 || c == 9

unfoldable pub skip_blanks : List ℕ → List ℕ
unfolding is_blank
skip_blanks [] = []
skip_blanks (c ∷ cs) = let rest = skip_blanks cs in if is_blank c then rest else c ∷ cs

unfoldable pub at_line_end : List ℕ → Bool
at_line_end [] = true
at_line_end (c ∷ cs) = c == 10 || c == 13

unfoldable pub is_trailing : ℕ → Bool
is_trailing c = c == 13 || c == 10 || c == 9 || c == 32

abbrev pub is_empty : List ℕ → Bool
is_empty [] = true
is_empty (c ∷ cs) = false

unfoldable pub trim_end : List ℕ → List ℕ
unfolding is_trailing
trim_end [] = []
trim_end (c ∷ cs) =
    let rest = trim_end cs in if is_trailing c && is_empty rest then [] else c ∷ rest

-- What is left of a file: its lines, as `getline` gives them, and whether reading fails behind them.
pub record Input : Type 0 where
  pub lines : List (List ℕ)
  pub ferror : Bool
  pub lineno : ℕ

-- An unsigned int counts the lines.
abbrev pub next_lineno : ℕ → ℕ
next_lineno n = (n + 1) % 2 ^ 32

unfoldable pub next_line_of : List (List ℕ) → (ferror : Bool) → ℕ → Option (Option (List ℕ × Input))
unfolding to_nul skip_blanks at_line_end trim_end
next_line_of [] ferror lineno = if ferror then none else some none
next_line_of (line ∷ lines) ferror lineno =
    let rest = next_line_of lines ferror (next_lineno lineno) in
    let start = skip_blanks (to_nul line) in
    if at_line_end start
    then rest
    else some (
        some
          (trim_end start, record { lines = lines; ferror = ferror; lineno = next_lineno lineno }))

-- The next line that is not blank, trimmed; the inner `none` is the end of the file.
unfoldable pub get_next_line : Input → Option (Option (List ℕ × Input))
unfolding next_line_of
get_next_line input = next_line_of input.lines input.ferror input.lineno

infixl 5 ◌>>=◌
abbrev pub ◌>>=◌ : {A B : Type 0} → Option A → (A → Option B) → Option B
none >>= k = none
some a >>= k = k a

-- The end of the file is an error too.
unfoldable pub get_header_line : Input → Option (List ℕ × Input)
get_header_line input = do line ← get_next_line input; line

-- What `strtoul` gives for a text: the number, how many characters it stands on, and `errno`.
pub record Scan : Type 0 where
  pub value : ℕ
  pub consumed : ℕ
  pub errno : ℕ

-- UINT_MAX and SIZE_MAX
abbrev pub uint_max : ℕ
uint_max = 2 ^ 32 - 1

abbrev pub size_max : ℕ
size_max = 2 ^ 64 - 1

abbrev pub is_digit : ℕ → Bool
is_digit c = leb 48 c && leb c 57

-- The digits at the start of a text, and what stands behind them.
unfoldable pub split_digits : List ℕ → List ℕ × List ℕ
split_digits [] = ([], [])
split_digits (c ∷ cs) =
    let rest = split_digits cs in if is_digit c then (c ∷ rest.0, rest.1) else ([], c ∷ cs)

-- The numbers of the four header lines, and the lines behind them.
pub record Header : Type 0 where
  pub iweight : ℕ
  pub num_ids : ℕ
  pub num_ops : ℕ
  pub peak_bytes : ℕ
  pub rest : Input

abbrev pub larger : ℕ → ℕ → ℕ
larger index max_id_used = if ltb max_id_used index then index else max_id_used

-- `strtoul`, in base 10.
module _ (strtoul : List ℕ → Scan) where
  unfoldable pub read_single_number : List ℕ → (max : ℕ) → Option ℕ
  read_single_number line max =
      let scan = strtoul line in
      if scan.consumed == 0
      then none
      else if not (is_empty (drop scan.consumed line))
      then none
      else if not (scan.errno == 0)
      then none
      else if ltb max scan.value
      then none
      else some scan.value

  -- The part of `read_alloc_line` behind the block id.
  unfoldable pub read_sizes : TraceOpcode → (lineno : ℕ) → (idtext rest : List ℕ) → Option TraceOp
  unfolding read_single_number skip_blanks is_blank
  read_sizes opcode lineno idtext [] = none
  read_sizes opcode lineno idtext (c ∷ args) = if not (is_blank c) then none else do
    index ← read_single_number idtext uint_max
    size ← read_single_number (skip_blanks args) size_max
    some (record { opcode = opcode; lineno = lineno % 2 ^ 24; index = index; size = size })

  unfoldable pub read_alloc_line : TraceOpcode → (args : List ℕ) → (lineno : ℕ) → Option TraceOp
  unfolding read_sizes skip_blanks split_digits
  read_alloc_line opcode args lineno =
      let (idtext, rest) = split_digits (skip_blanks args) in
      if is_empty idtext then none else read_sizes opcode lineno idtext rest

  unfoldable pub read_free_line : (args : List ℕ) → (lineno : ℕ) → Option TraceOp
  unfolding read_single_number skip_blanks
  read_free_line args lineno = do
    index ← read_single_number (skip_blanks args) uint_max
    some (record { opcode = free_op; lineno = lineno % 2 ^ 24; index = index; size = 0 })

  -- The `switch` on the first character of a line.
  unfoldable pub read_request : (line : List ℕ) → (lineno : ℕ) → Option TraceOp
  unfolding read_alloc_line read_free_line
  read_request [] lineno = none
  read_request (c ∷ args) lineno =
      if c == 97
      then read_alloc_line alloc_op args lineno
      else if c == 114
      then read_alloc_line realloc_op args lineno
      else if c == 102
      then read_free_line args lineno
      else none

  -- The request lines from the one number `op` on, with the checks behind the last; each line that
  -- is read takes one of the rounds, and as many as there are lines, and one, are enough.
  unfoldable pub read_requests :
      ℕ → (num_ids num_ops : ℕ) → Input → (op max_id_used : ℕ) → Option (List TraceOp)
  unfolding get_next_line read_request
  read_requests zero num_ids num_ops input op max_id_used = none
  read_requests (suc k) num_ids num_ops input op max_id_used = do
    next ← get_next_line input
    elim next [
      | none ↦
          if ltb op num_ops
          then none
          else if not (max_id_used == (num_ids + 2 ^ 32 - 1) % 2 ^ 32)
          then none
          else some []
      | some (line, input1) ↦ if op == num_ops then none else do
        request ← read_request line input1.lineno
        requests ←
            read_requests k num_ids num_ops input1 (op + 1) (larger request.index max_id_used)
        some (request ∷ requests)
    ]

  -- A header line that holds one number.
  unfoldable pub read_header_number : (max : ℕ) → Input → Option (ℕ × Input)
  unfolding get_header_line read_single_number
  read_header_number max input = do
    (line, input1) ← get_header_line input
    n ← read_single_number line max
    some (n, input1)

  unfoldable pub read_header : Input → Option Header
  unfolding read_header_number
  read_header input = do
    (iweight, input1) ← read_header_number 3 input
    (num_ids, input2) ← read_header_number uint_max input1
    (num_ops, input3) ← read_header_number uint_max input2
    (peak_bytes, input4) ← read_header_number size_max input3
    some (record {
      iweight = iweight;
      num_ids = num_ids;
      num_ops = num_ops;
      peak_bytes = peak_bytes;
      rest = input4;
    })

  -- The arrays are made by `calloc`, whose refusal of one of the five requests is an error.
  unfoldable pub read_trace : (granted : ℕ → Bool) → Input → Option Trace
  unfolding read_header read_requests weight_codes
  read_trace granted input = do
    header ← read_header input
    if not (granted 1 && granted 2 && granted 3 && granted 4 && granted 5) then none else do
      ops ←
          read_requests (suc (length header.rest.lines)) header.num_ids header.num_ops header.rest 0
            0
      some (record {
        data_bytes = header.peak_bytes;
        num_ids = header.num_ids;
        num_ops = header.num_ops;
        weight = weight_codes header.iweight;
        ops = ops;
        blocks = λ i. 0;
        block_sizes = λ i. 0;
        block_rand_base = λ i. 0;
      })
