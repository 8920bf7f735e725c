-- ===== src/Traces/Print.antt =====
-- `read_trace` reads back the text of a trace file.
use mathlib.Core.List.{append_assoc}
use dynamic_memory_allocator.Base.{
  ℕ, zero, suc, ◌+◌, ◌%◌, ◌^◌, ◌≤◌, ◌<◌, ◌≡◌, refl, Bool, true, false, some, List, [], ◌∷◌, ◌++◌,
  length, ltb, arith, All, All-append_of, ==_ne, ==_self,
}
use dynamic_memory_allocator.Traces.{
  TraceOp, TraceOpcode, alloc_op, free_op, realloc_op, Scan, skip_blanks, is_blank, get_next_line,
  get_header_line, next_lineno, uint_max, size_max, read_single_number, read_alloc_line,
  read_free_line, read_sizes, read_request, larger, read_requests, read_header_number, read_header,
  read_trace, weight_codes,
}
use dynamic_memory_allocator.Traces.Text.{
  IsPrintable, front, last_number, print_requests, print_trace, numbered, highest, IsDecimal,
}
use dynamic_memory_allocator.Traces.Bounds.{last_id}
use dynamic_memory_allocator.Traces.Lines.{
  StartsInk, StartsInk-digits, StartsInk-number, chars-digits, skip_blanks-text, trim_end-line,
  split_digits-digits, get_next_line-text, read_single_number-text,
}

module _ (strtoul : List ℕ → Scan) (decimal : ℕ → List ℕ) (h : IsDecimal strtoul decimal) where
  number-reads :
      (n max : ℕ) → n ≤ max → n < 2 ^ 64 → read_single_number strtoul (decimal n) max ≡ some n
  number-reads n max below small =
      read_single_number-text strtoul (decimal n) max n (h.reads n small) (h.some_digit n) below

  -- A line that ends with a number.
  line-reads :
      (xs : List ℕ) (n : ℕ) (lines : List (List ℕ)) (lineno : ℕ)
      → StartsInk (xs ++ decimal n ++ 10 ∷ [])
      → All (λ c. 0 < c) xs
      → get_next_line
          (record { lines = (xs ++ decimal n ++ 10 ∷ []) ∷ lines; ferror = false; lineno = lineno })
        ≡ some (
            some (
              xs ++ decimal n,
              record { lines = lines; ferror = false; lineno = next_lineno lineno },
            ))
  line-reads xs n lines lineno ink chars =
      get_next_line-text (xs ++ decimal n ++ 10 ∷ []) lines lineno (xs ++ decimal n) ink
        (All-append_of (λ c. 0 < c) (xs ++ decimal n) (10 ∷ [])
          (All-append_of (λ c. 0 < c) xs (decimal n) chars (chars-digits (decimal n) (h.digits n)))
          (omega arith, tt))
        (trim_end-line xs (decimal n) (h.digits n) (h.some_digit n))

  header-reads :
      (n max : ℕ) (lines : List (List ℕ)) (lineno : ℕ)
      → n ≤ max
      → n < 2 ^ 64
      → read_header_number strtoul max
          (record { lines = (decimal n ++ 10 ∷ []) ∷ lines; ferror = false; lineno = lineno })
        ≡ some (n, record { lines = lines; ferror = false; lineno = next_lineno lineno })
  unfolding read_header_number get_header_line
  header-reads n max lines lineno below small =
      rw
        (
          line-reads [] n lines lineno
              (StartsInk-digits (decimal n) (10 ∷ []) (h.digits n) (h.some_digit n)) tt,
          number-reads n max below small,
        )
        refl

  text_starts : (n : ℕ) → StartsInk (decimal n)
  text_starts n = StartsInk-number (decimal n) (h.digits n) (h.some_digit n)

  -- The text behind the letter of a line that asks for memory.
  alloc_line-reads :
      (opcode : TraceOpcode) (index size lineno : ℕ)
      → index ≤ uint_max
      → size ≤ size_max
      → read_alloc_line strtoul opcode (32 ∷ decimal index ++ 32 ∷ [] ++ decimal size) lineno
        ≡ some (record { opcode = opcode; lineno = lineno % 2 ^ 24; index = index; size = size })
  unfolding read_alloc_line read_sizes skip_blanks is_blank
  alloc_line-reads opcode index size lineno small fits =
      rw
        (
          append_assoc (decimal index) (32 ∷ []) (decimal size),
          skip_blanks-text (decimal index ++ 32 ∷ decimal size) (
              StartsInk-digits (decimal index) (32 ∷ decimal size) (h.digits index)
                (h.some_digit index)),
          split_digits-digits (decimal index) (decimal size) (h.digits index),
          h.some_digit index,
          number-reads index uint_max small (omega arith),
          skip_blanks-text (decimal size) (text_starts size),
          number-reads size size_max fits (omega arith),
        )
        refl

  free_line-reads :
      (index lineno : ℕ)
      → index ≤ uint_max
      → read_free_line strtoul (32 ∷ decimal index) lineno
        ≡ some (record { opcode = free_op; lineno = lineno % 2 ^ 24; index = index; size = 0 })
  unfolding read_free_line skip_blanks is_blank
  free_line-reads index lineno small =
      rw
        (
          skip_blanks-text (decimal index) (text_starts index),
          number-reads index uint_max small (omega arith),
        )
        refl

  -- The text of a request's line.
  request-reads :
      (opcode : TraceOpcode) (old index size lineno : ℕ)
      → IsPrintable (record { opcode = opcode; lineno = old; index = index; size = size })
      → (let op : TraceOp = record { opcode = opcode; lineno = old; index = index; size = size } in
          read_request strtoul
            (front decimal opcode index ++ decimal (last_number decimal op))
            lineno
          ≡ some (record op { lineno = lineno % 2 ^ 24 }))
  unfolding read_request
  request-reads alloc_op old index size lineno fits =
      alloc_line-reads alloc_op index size lineno fits.0 fits.1
  request-reads realloc_op old index size lineno fits =
      alloc_line-reads realloc_op index size lineno fits.0 fits.1
  request-reads free_op old index size lineno fits =
      rw (fits.2) (free_line-reads index lineno fits.0)

  id_chars : (index : ℕ) → All (λ c. 0 < c) (decimal index ++ 32 ∷ [])
  id_chars index =
      All-append_of (λ c. 0 < c) (decimal index) (32 ∷ [])
        (chars-digits (decimal index) (h.digits index)) (omega arith, tt)

  front_chars : (opcode : TraceOpcode) (index : ℕ) → All (λ c. 0 < c) (front decimal opcode index)
  front_chars alloc_op index = (omega arith, (omega arith, id_chars index))
  front_chars realloc_op index = (omega arith, (omega arith, id_chars index))
  front_chars free_op index = (omega arith, (omega arith, tt))

  front_starts :
      (opcode : TraceOpcode) (index : ℕ) (ds cs : List ℕ)
      → StartsInk (front decimal opcode index ++ ds ++ cs)
  front_starts alloc_op index ds cs = omega arith
  front_starts realloc_op index ds cs = omega arith
  front_starts free_op index ds cs = omega arith

  requests-read :
      (ops : List TraceOp) (k num_ids num_ops lineno p max_id : ℕ)
      → All IsPrintable ops
      → length (print_requests decimal ops) < k
      → p + length ops ≡ num_ops
      → highest max_id ops ≡ last_id num_ids
      → read_requests strtoul k num_ids num_ops
          (record { lines = print_requests decimal ops; ferror = false; lineno = lineno })
          p
          max_id
        ≡ some (numbered lineno ops)
  unfolding read_requests
  requests-read ops zero num_ids num_ops lineno p max_id fits fuel count ids = absurd (omega arith)
  requests-read [] (suc k) num_ids num_ops lineno p max_id fits fuel count ids =
      let all_read : ltb p num_ops ≡ false = ground arith in
      rw (all_read, ids, ==_self (last_id num_ids)) refl
  requests-read (op ∷ ops) (suc k) num_ids num_ops lineno p max_id fits fuel count ids =
      rw
        (
          line-reads (front decimal op.opcode op.index) (last_number decimal op)
              (print_requests decimal ops) lineno (front_starts op.opcode op.index _ _)
              (front_chars op.opcode op.index),
          ==_ne p num_ops (omega arith),
          request-reads op.opcode op.lineno op.index op.size (next_lineno lineno) fits.0,
          requests-read ops k num_ids num_ops (next_lineno lineno) (p + 1) (larger op.index max_id)
              fits.1 (omega arith) (omega arith) ids,
        )
        refl

  -- Where `strtoul` reads back what `decimal` writes, the file that is printed for requests with their
  -- largest block id in its header is read as these requests, each with the number of its line.
  pub read_trace-print_trace :
      (granted : ℕ → Bool) (weight num_ids peak_bytes : ℕ) (ops : List TraceOp)
      → ((i : ℕ) → granted i ≡ true)
      → weight ≤ 3
      → num_ids ≤ uint_max
      → peak_bytes ≤ size_max
      → length ops ≤ uint_max
      → All IsPrintable ops
      → highest 0 ops + 1 ≡ num_ids
      → read_trace strtoul granted (record {
        lines = print_trace decimal weight num_ids peak_bytes ops;
        ferror = false;
        lineno = 0;
      })
        ≡ some (record {
          data_bytes = peak_bytes;
          num_ids = num_ids;
          num_ops = length ops;
          weight = weight_codes weight;
          ops = numbered 4 ops;
          blocks = λ i. 0;
          block_sizes = λ i. 0;
          block_rand_base = λ i. 0;
        })
  unfolding read_trace read_header
  read_trace-print_trace granted weight num_ids peak_bytes ops all code ids peak count fits used =
      let lines = print_requests decimal ops in
      rw
        (
          header-reads weight 3 _ 0 code (omega arith),
          header-reads num_ids uint_max _ 1 ids (omega arith),
          header-reads (length ops) uint_max _ 2 count (omega arith),
          header-reads peak_bytes size_max _ 3 peak (omega arith),
          all 1,
          all 2,
          all 3,
          all 4,
          all 5,
          requests-read ops (suc (length lines)) num_ids (length ops) 4 0 0 fits (omega arith)
              (omega arith) (omega arith),
        )
        refl
