-- ===== src/Traces/Text.antt =====
-- The text of a trace file for given requests.
use mathlib.Core.List.{}
use dynamic_memory_allocator.Base.{
  ℕ, ◌%◌, ◌^◌, ◌≤◌, ◌<◌, ◌≡◌, false, List, [], ◌∷◌, ◌++◌, length, All,
}
use dynamic_memory_allocator.Traces.{
  TraceOp, TraceOpcode, alloc_op, free_op, realloc_op, Scan, is_empty, next_lineno, uint_max,
  size_max, larger,
}
use dynamic_memory_allocator.Traces.Bounds.{}
use dynamic_memory_allocator.Traces.Lines.{IsDigit}

-- `decimal` writes numbers in digits, and `strtoul` reads them back.
pub record IsDecimal (strtoul : List ℕ → Scan) (decimal : ℕ → List ℕ) : Type 0 where
  pub digits : (n : ℕ) → All IsDigit (decimal n)
  pub some_digit : (n : ℕ) → is_empty (decimal n) ≡ false
  pub reads :
      (n : ℕ)
      → n < 2 ^ 64
      → strtoul (decimal n) ≡ record { value = n; consumed = length (decimal n); errno = 0 }

-- The letter of a request.
abbrev pub letter : TraceOpcode → ℕ
letter alloc_op = 97
letter free_op = 102
letter realloc_op = 114

-- A request fits in its fields, and one to free has no size.
abbrev pub IsPrintable : TraceOp → Type 0
IsPrintable op =
    (op.index ≤ uint_max)
    × (op.size ≤ size_max)
    × elim op.opcode [ free_op ↦ op.size ≡ 0 | _ ↦ Unit ]

module _ (decimal : ℕ → List ℕ) where
  -- What stands before the last number of a request's line.
  abbrev pub front : TraceOpcode → ℕ → List ℕ
  front free_op index = 102 ∷ 32 ∷ []
  front opcode index = letter opcode ∷ 32 ∷ decimal index ++ 32 ∷ []

  abbrev pub last_number : TraceOp → ℕ
  last_number op = elim op.opcode [ free_op ↦ op.index | _ ↦ op.size ]

  -- The line of a request: a letter, the block id, and the size unless it is to free.
  abbrev pub print_request : TraceOp → List ℕ
  print_request op = front op.opcode op.index ++ decimal (last_number op) ++ 10 ∷ []

  abbrev pub print_requests : List TraceOp → List (List ℕ)
  print_requests [] = []
  print_requests (op ∷ ops) = print_request op ∷ print_requests ops

  abbrev pub print_number : ℕ → List ℕ
  print_number n = decimal n ++ 10 ∷ []

  abbrev pub print_trace : (weight num_ids peak_bytes : ℕ) → List TraceOp → List (List ℕ)
  print_trace weight num_ids peak_bytes ops =
      print_number weight
      ∷ print_number num_ids
      ∷ print_number (length ops)
      ∷ print_number peak_bytes
      ∷ print_requests ops

-- The requests with the numbers of their lines, behind line `lineno`.
abbrev pub numbered : ℕ → List TraceOp → List TraceOp
numbered lineno [] = []
numbered lineno (op ∷ ops) =
    record op { lineno = next_lineno lineno % 2 ^ 24 } ∷ numbered (next_lineno lineno) ops

-- The largest block id of the requests, and of `max_id`.
abbrev pub highest : (max_id : ℕ) → List TraceOp → ℕ
highest max_id [] = max_id
highest max_id (op ∷ ops) = highest (larger op.index max_id) ops
