-- ===== src/Payloads/Garbled.antt =====
-- What the driver writes into a payload and when its check of it answers true.
use native.Mathlib.Nat.{mod-eq_of_lt}
use dynamic_memory_allocator.Base.{
  ℕ, zero, suc, ◌+◌, ◌%◌, ◌^◌, ◌≤◌, ◌<◌, ◌≡◌, ◌≢◌, ◌↔◌, ◌∙◌, refl, ap, true, ◌==◌, add64, ==_iff,
  ==_ne, if_eq, inl, inr, Bool-cases, arith,
}
use dynamic_memory_allocator.Machine.{State, pure, ◌>>=◌, ◌>>◌, Bytes, read, write}
use dynamic_memory_allocator.Machine.Ends.{Ends, ends, Ends-mono, Ends-continue}
use dynamic_memory_allocator.Machine.ReadWrite.{Apart, read-write_self, read-write-Apart}
use dynamic_memory_allocator.Memlib.Copy.{InRange, read-ok, write-ok}
use dynamic_memory_allocator.Ranges.{DebugMode, dbg_none, dbg_cheap, dbg_expensive}
use dynamic_memory_allocator.Traces.{Trace}
use dynamic_memory_allocator.Payloads.{
  set_base, fill_size, random_byte, fill_loop, count_garbled, randomize_block, check_index,
}

module _ (random_data : ℕ → ℕ) (block base : ℕ) where
  -- The bytes of the payload from `i` on, `k` of them, are the random ones.
  abbrev pub IsIntact : Bytes → (i k : ℕ) → Type 0
  IsIntact m i k =
      (j : ℕ) → i ≤ j → j < i + k → read m (block + j) 1 ≡ random_byte random_data base j

  pub record IsRandomized (s : State) (i k : ℕ) (t : State) : Type 0 where
    pub state : t ≡ record s { bytes = t.bytes }
    pub intact : IsIntact t.bytes i k
    pub same : (x n : ℕ) → Apart (block + i) k x n → read t.bytes x n ≡ read s.bytes x n

  IsIntact-head :
      (m : Bytes) (i k : ℕ)
      → IsIntact m i (suc k)
      → read m (block + i) 1 ≡ random_byte random_data base i
  IsIntact-head m i k h = h i (omega arith) (omega arith)

  IsIntact-tail : (m : Bytes) (i k : ℕ) → IsIntact m i (suc k) → IsIntact m (i + 1) k
  IsIntact-tail m i k h j from to = h j (omega arith) (omega arith)

  IsIntact-cons :
      (m : Bytes) (i k : ℕ)
      → read m (block + i) 1 ≡ random_byte random_data base i
      → IsIntact m (i + 1) k
      → IsIntact m i (suc k)
  IsIntact-cons m i k here rest j from to = elim (Bool-cases (j == i)) [
    | inl same ↦ rw ((==_iff j i).0 same) here
    | inr other ↦ let apart : j ≢ i = ground arith in rest j (omega arith) (omega arith)
  ]

  IsRandomized-cons :
      (s t : State) (i k : ℕ)
      → ((x : ℕ) → random_data x < 256)
      → IsRandomized
          (record s { bytes = write s.bytes (block + i) (random_byte random_data base i) 1 })
          (i + 1)
          k
          t
      → IsRandomized s i (suc k) t
  unfolding random_byte
  IsRandomized-cons s t i k is_byte rest = record {
    state = rest.state;
    intact =
        IsIntact-cons t.bytes i k
          (rest.same (block + i) 1 (inr (omega arith))
            ∙ read-write_self s.bytes (block + i) (random_byte random_data base i) 1
            ∙ mod-eq_of_lt (is_byte (add64 base i % 2 ^ 16)))
          rest.intact;
    same = λ x n apart.
        rest.same x n (ground arith)
        ∙ read-write-Apart s.bytes (block + i) (random_byte random_data base i) 1 x n
            (ground arith);
  }

  count_garbled_lem :
      (k i : ℕ) (s : State)
      → s.mem_brk < 2 ^ 64
      → InRange s (block + i) k
      → Ends
          (λ c t. (t ≡ s) × ((c ≡ 0) ↔ IsIntact s.bytes i k))
          (count_garbled random_data k block base i s)
  unfolding count_garbled
  count_garbled_lem zero i s small range = ends (refl, ((λ _ j from to. omega arith), λ _. refl))
  count_garbled_lem (suc k) i s small range =
      let at : add64 block i ≡ block + i = mod-eq_of_lt (omega arith) in
      rw (at, read-ok s (block + i) 1 (omega arith))
        (Ends-continue (count_garbled_lem k (i + 1) s small (omega arith)) λ c t h.
          elim (Bool-cases (read s.bytes (block + i) 1 == random_byte random_data base i)) [
            | inl same ↦ rw same (
                ends (
                  h.0,
                  (
                    λ none_left. IsIntact-cons s.bytes i k ((==_iff _ _).0 same) (h.1.0 none_left),
                    λ intact. h.1.1 (IsIntact-tail s.bytes i k intact),
                  ),
                ))
            | inr other ↦
                let here : ¬ IsIntact s.bytes i (suc k) =
                  λ intact. (let e = IsIntact-head s.bytes i k intact in ground arith) in
                rw other (ends (h.0, (λ none_left. omega arith, λ intact. absurd (here intact))))
          ])

  fill_loop_lem :
      (k i : ℕ) (s : State)
      → ((x : ℕ) → random_data x < 256)
      → s.mem_brk < 2 ^ 64
      → InRange s (block + i) k
      → Ends (λ _ t. IsRandomized s i k t) (fill_loop random_data k block base i s)
  unfolding fill_loop
  fill_loop_lem zero i s is_byte small range =
      ends (record { state = refl; intact = λ j from to. omega arith; same = λ x n apart. refl })
  fill_loop_lem (suc k) i s is_byte small range =
      let at : add64 block i ≡ block + i = mod-eq_of_lt (omega arith) in
      rw (at, write-ok s (block + i) (random_byte random_data base i) 1 (omega arith))
        (Ends-mono (fill_loop_lem k (i + 1) _ is_byte small (omega arith))
          (λ _ t. IsRandomized-cons s t i k is_byte))

module _ (trace : Trace) (index : ℕ) where
  -- The bytes that the driver fills and checks are in the heap, for an index that is not -1 and a
  -- mode in which it does so.
  pub record IsChecked (mode : DebugMode) (s : State) : Type 0 where
    pub checks : mode ≢ dbg_none
    pub has_block : index ≢ 0xffffffff
    pub small : s.mem_brk < 2 ^ 64
    pub range : InRange s (trace.blocks index) (fill_size (trace.block_sizes index))

IsChecked-bytes :
    (trace : Trace) (index base : ℕ) (mode : DebugMode) (s t : State)
    → t ≡ record s { bytes = t.bytes }
    → IsChecked trace index mode s
    → IsChecked (set_base trace index base) index mode t
IsChecked-bytes trace index base mode s t e h = record {
  checks = h.checks;
  has_block = h.has_block;
  small = (let e1 : t.mem_brk ≡ s.mem_brk = ap (λ u. u.mem_brk) e in omega (arith, h.small));
  range =
      let e1 : t.mem_brk ≡ s.mem_brk = ap (λ u. u.mem_brk) e in
      let e2 : t.heap ≡ s.heap = ap (λ u. u.heap) e in
      (omega (arith, h.range), omega (arith, h.range));
}

module _ (random_data : ℕ → ℕ) (trace : Trace) (index : ℕ) where
  answer_iff :
      (s : State)
      → s.mem_brk < 2 ^ 64
      → InRange s (trace.blocks index) (fill_size (trace.block_sizes index))
      → Ends
          (λ answer t.
            (t ≡ s)
            × ((answer ≡ true)
                ↔ IsIntact random_data
                    (trace.blocks index)
                    (trace.block_rand_base index)
                    s.bytes
                    0
                    (fill_size (trace.block_sizes index))))
          ((count_garbled random_data
                (fill_size (trace.block_sizes index))
                (trace.blocks index)
                (trace.block_rand_base index)
                0
              >>= λ n. pure (n == 0))
            s)
  answer_iff s small range =
      Ends-continue
        (count_garbled_lem random_data (trace.blocks index) (trace.block_rand_base index)
          (fill_size (trace.block_sizes index)) 0 s small (omega arith))
        λ c t h.
          ends (h.0, (λ yes. h.1.0 ((==_iff c 0).0 yes), λ intact. (==_iff c 0).1 (h.1.1 intact)))

  filled :
      (s : State) (base : ℕ)
      → ((x : ℕ) → random_data x < 256)
      → s.mem_brk < 2 ^ 64
      → InRange s (trace.blocks index) (fill_size (trace.block_sizes index))
      → Ends
          (λ noted t.
            (noted ≡ set_base trace index base)
            × IsRandomized random_data
                (trace.blocks index)
                base
                s
                0
                (fill_size (trace.block_sizes index))
                t)
          ((fill_loop random_data (fill_size (trace.block_sizes index)) (trace.blocks index) base 0
              >> pure (set_base trace index base))
            s)
  filled s base is_byte small range =
      Ends-continue
        (fill_loop_lem random_data (trace.blocks index) base (fill_size (trace.block_sizes index)) 0
          s is_byte small (omega arith))
        λ _ t is. ends (refl, is)

  -- For a payload in the heap, in a mode that checks, `check_index` ends, changes nothing, and
  -- answers true exactly when each byte of the payload, up to the number that is filled, is the
  -- random one for its place.
  pub check_index_iff :
      (mode : DebugMode) (s : State)
      → IsChecked trace index mode s
      → Ends
          (λ answer t.
            (t ≡ s)
            × ((answer ≡ true)
                ↔ IsIntact random_data
                    (trace.blocks index)
                    (trace.block_rand_base index)
                    s.bytes
                    0
                    (fill_size (trace.block_sizes index))))
          (check_index mode random_data trace index s)
  unfolding check_index
  check_index_iff dbg_none s h = absurd (h.checks refl)
  check_index_iff dbg_cheap s h =
      rw (==_ne index 0xffffffff h.has_block) (answer_iff s h.small h.range)
  check_index_iff dbg_expensive s h =
      rw (==_ne index 0xffffffff h.has_block) (answer_iff s h.small h.range)

  -- For a payload in the heap, in a mode that checks, and random data that are bytes,
  -- `randomize_block` ends, notes the base in the trace, sets the bytes of the payload, up to the
  -- number that is filled, to the random ones for their places, and changes no other byte.
  pub randomize_block-IsRandomized :
      (mode : DebugMode) (s : State) (base : ℕ)
      → ((x : ℕ) → random_data x < 256)
      → IsChecked trace index mode s
      → Ends
          (λ noted t.
            (noted ≡ set_base trace index base)
            × IsRandomized random_data
                (trace.blocks index)
                base
                s
                0
                (fill_size (trace.block_sizes index))
                t)
          (randomize_block mode random_data trace index base s)
  unfolding randomize_block
  randomize_block-IsRandomized dbg_none s base is_byte h = absurd (h.checks refl)
  randomize_block-IsRandomized dbg_cheap s base is_byte h = filled s base is_byte h.small h.range
  randomize_block-IsRandomized dbg_expensive s base is_byte h =
      filled s base is_byte h.small h.range

-- Right after `randomize_block`, `check_index` answers true, for a payload in the heap, in a mode
-- that checks, and random data that are bytes.
pub check_index-randomize_block :
    (random_data : ℕ → ℕ) (trace : Trace) (index : ℕ) (mode : DebugMode) (s : State) (base : ℕ)
    → ((x : ℕ) → random_data x < 256)
    → IsChecked trace index mode s
    → Ends
        (λ answer t. answer ≡ true)
        ((randomize_block mode random_data trace index base >>= λ noted.
            check_index mode random_data noted index)
          s)
check_index-randomize_block random_data trace index mode s base is_byte h =
    Ends-continue (randomize_block-IsRandomized random_data trace index mode s base is_byte h)
      λ noted t is. rw is.0 (
        Ends-mono
          (check_index_iff random_data (set_base trace index base) index mode t
            (IsChecked-bytes trace index base mode s t is.1.state h))
          λ answer u told.
            told.1.1 (rw (if_eq index base (trace.block_rand_base index)) is.1.intact))
