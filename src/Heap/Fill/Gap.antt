-- ===== src/Heap/Fill/Gap.antt =====
-- Writing header and footer of the gap.
use mathlib.Core.Path.{subst}
use mathlib.Core.Bool.{}
use dynamic_memory_allocator.Base.{
  ℕ, ◌+◌, ◌-◌, ◌≤◌, ◌≡◌, ◌⊎◌, ◌∙◌, refl, sym, ap, Bool, true, false, List, arith, inl, inr,
}
use dynamic_memory_allocator.Machine.{State}
use dynamic_memory_allocator.Machine.Ends.{Ends, Ends-mono}
use dynamic_memory_allocator.Memlib.Word.{word}
use dynamic_memory_allocator.Block.{write_pack}
use dynamic_memory_allocator.Block.Header.{}
use dynamic_memory_allocator.FreeList.{}
use dynamic_memory_allocator.FreeList.Chain.{}
use dynamic_memory_allocator.FreeList.Segregated.{}
use dynamic_memory_allocator.FreeList.Listed.{IsListed-same}
use dynamic_memory_allocator.FreeList.Listed.Insert.{}
use dynamic_memory_allocator.Heap.{Piece, IsPiece, last_alloc, last_mini}
use dynamic_memory_allocator.Heap.Packed.{IsPacked, write_pack-IsPacked}
use dynamic_memory_allocator.Heap.Tiles.{Tiles-same}
use dynamic_memory_allocator.Heap.Walk.{head_alloc}
use dynamic_memory_allocator.Heap.Free.{}
use dynamic_memory_allocator.Heap.Used.{IsKept, Used-bounds}
use dynamic_memory_allocator.Heap.Open.{IsOpen, IsOpen-IsBounded, Around-bounds}

-- The gap is flanked by pieces in use, or the ends of the heap.
pub record IsFlanked (xs ys : List Piece) : Type 0 where
  pub left_used : last_alloc true xs ≡ true
  pub right_used : head_alloc ys ≡ true

-- The piece that the gap becomes, in use or free.
abbrev pub piece_in : ℕ → ℕ → Bool → Piece
piece_in a e alloc = record { size = e - a; alloc = alloc }

abbrev pub filler : ℕ → ℕ → Piece
filler a e = piece_in a e false

-- Writing words of the gap only leaves the heap open as it was.
module _ (s : State) (xs : List Piece) (a e : ℕ) (pa pm : Bool) (ys : List Piece)
    (h : IsOpen s xs a e pa pm ys) (t : State) (state : t ≡ record s { bytes = t.bytes })
    (same : (x : ℕ) → (x + 8 ≤ a) ⊎ (e ≤ x) → word t.bytes x ≡ word s.bytes x) where
  pub IsOpen-inside : IsOpen t xs a e pa pm ys
  IsOpen-inside =
      let bounds = IsOpen-IsBounded s xs a e pa pm ys h in
      let lower = bounds.lower in
      let upper = bounds.upper in
      let gap = h.gap in
      let room = h.framed.room in
      subst (λ u. IsOpen u xs a e pa pm ys) (sym state)
        (record {
          framed = record {
            some_heap = h.framed.some_heap;
            small = h.framed.small;
            room = h.framed.room;
            aligned = h.framed.aligned;
            start = h.framed.start;
            prologue = same s.heap (inl lower) ∙ h.framed.prologue;
          };
          left = Tiles-same s.bytes t.bytes _ _ _ xs a (λ x from to. same x (inl to)) h.left;
          right = (
            Tiles-same s.bytes t.bytes e pa pm ys _ (λ x from to. same x (inr from)) h.right.0,
            same (s.mem_brk - 8) (inr (omega arith)) ∙ h.right.1,
          );
          gap = h.gap;
          multiple = h.multiple;
          ordered_left = h.ordered_left;
          ordered_right = h.ordered_right;
          listed =
              IsListed-same s _ _ refl
                (λ c n f.
                  let at_b = Around-bounds s xs a e pa pm ys h c n f in
                  let size = at_b.0.1 in same c (omega arith))
                (λ c n f.
                  let at_b = Around-bounds s xs a e pa pm ys h c n f in
                  let size = at_b.0.1 in same (c + 8) (omega arith))
                (λ c n f large.
                  let at_b = Around-bounds s xs a e pa pm ys h c n f in
                  let size = at_b.0 in same (c + 16) (omega arith))
                h.listed;
        })

  pub IsKept-inside : IsKept s xs e ys t
  IsKept-inside = record {
    base = ap State.heap state;
    brk = ap State.mem_brk state;
    limit = ap State.mem_max_addr state;
    payload = λ x used. let at_x = Used-bounds s xs a e pa pm ys h x used in same x (omega arith);
  }

module _ (s : State) (xs : List Piece) (a e : ℕ) (pa pm : Bool) (ys : List Piece)
    (h : IsOpen s xs a e pa pm ys) (alloc b : Bool) where
  -- Header and footer of the gap, `b` for the piece before it.
  pub record IsFilled (t : State) : Type 0 where
    pub opened : IsOpen t xs a e pa pm ys
    pub piece : IsPiece t.bytes a b (last_mini false xs) (piece_in a e alloc)
    pub inner : (x : ℕ) → a + 8 ≤ x → x + 16 ≤ e → word t.bytes x ≡ word s.bytes x
    pub kept : IsKept s xs e ys t

  only_inside :
      (t : State)
      → IsPacked s a (e - a) alloc b (last_mini false xs) t
      → (x : ℕ) → (x + 8 ≤ a) ⊎ (e ≤ x)
      → word t.bytes x ≡ word s.bytes x
  only_inside t is x far = let gap = h.gap in is.same x (omega arith) (λ free large. omega arith)

  pub write_pack-IsFilled :
      Ends (λ _. IsFilled) (write_pack a (e - a) alloc b (last_mini false xs) s)
  write_pack-IsFilled =
      let bounds = IsOpen-IsBounded s xs a e pa pm ys h in
      let lower = bounds.lower in
      let upper = bounds.upper in
      let small = bounds.small in
      let gap = h.gap in
      let multiple = h.multiple in
      Ends-mono
        (write_pack-IsPacked s a (e - a) alloc b (last_mini false xs)
          (record { small = small; lower = omega arith; upper = omega arith; fits = omega arith })
          (λ free. (omega arith, omega arith)))
        λ _ t is. record {
          opened = IsOpen-inside s xs a e pa pm ys h t is.state (only_inside t is);
          piece = record {
            header = is.header;
            footer = λ free large. is.footer free large;
            aligned = multiple;
            least = omega arith;
          };
          inner = λ x from to. is.same x (omega arith) (λ free large. omega arith);
          kept = IsKept-inside s xs a e pa pm ys h t is.state (only_inside t is);
        }
