-- ===== src/FreeList/Listed.antt =====
-- The free lists as a whole: the classes and the mini list together hold exactly the blocks of a
-- set, each in the list of its size.
pub mod Rebuild
pub mod Insert
pub mod Remove
use mathlib.Core.Path.{subst}
use dynamic_memory_allocator.Base.{
  ℕ, ◌+◌, ◌≤◌, ◌≡◌, ◌≢◌, ◌⊎◌, ◌∙◌, sym, ap, List, [], ◌∷◌, All, All-map, All-of_In, All-In, In, inl,
  inr, arith, if◌then◌else◌, ◌==◌, ==_iff, ==_ne, Bool-cases,
}
use dynamic_memory_allocator.Machine.{State, Bytes}
use dynamic_memory_allocator.Machine.ReadWrite.{Apart}
use dynamic_memory_allocator.Memlib.Word.{word}
use dynamic_memory_allocator.Block.{
  min_block_size, extract_size, next_offset, prev_offset, mini_next_offset,
}
use dynamic_memory_allocator.FreeList.{find_class}
use dynamic_memory_allocator.FreeList.Chain.{Clear, SameAt, Chain-same, BackFrom-same, Back}
use dynamic_memory_allocator.FreeList.Segregated.{Inside, IsFreeList, OffLinks, OffMiniLinks}
use dynamic_memory_allocator.FreeList.Mini.{IsMiniList}

-- `F a n` says that the block at `a`, of `n` bytes, is in the set.
abbrev pub Blocks : Type 1
Blocks = ℕ → ℕ → Type 0

pub record IsListed (s : State) (F : Blocks) : Type 0 where
  pub seg : ℕ → List ℕ
  pub minis : List ℕ
  pub seg_lists : (c : ℕ) → IsFreeList s (s.seg_list c) (seg c)
  pub mini : IsMiniList s s.mini_list minis
  pub sizes : (a n : ℕ) → F a n → extract_size (word s.bytes a) ≡ n
  pub spread : (a n b k : ℕ) → F a n → F b k → a ≢ b → Clear a b
  pub seg_in :
      (c a : ℕ) → In a (seg c) → (n : ℕ) × F a n × (n ≢ min_block_size) × (find_class n ≡ c)
  pub seg_has : (a n : ℕ) → F a n → n ≢ min_block_size → In a (seg (find_class n))
  pub mini_in : (a : ℕ) → In a minis → F a min_block_size
  pub mini_has : (a : ℕ) → F a min_block_size → In a minis

-- How many bytes the links of a free block take.
abbrev pub link_size : ℕ → ℕ
link_size n = if n == min_block_size then 8 else 16

-- The word at `x` is no link of a block of the set.
abbrev pub IsOff : Blocks → ℕ → Type 0
IsOff F x = (a n : ℕ) → F a n → Apart x 8 (a + 8) (link_size n)

-- Only the heads of the lists and links of blocks of the set differ.
pub record IsRelinked (s : State) (F : Blocks) (t : State) : Type 0 where
  pub state : t ≡ record s { bytes = t.bytes; seg_list = t.seg_list; mini_list = t.mini_list }
  pub same : (x : ℕ) → IsOff F x → word t.bytes x ≡ word s.bytes x

pub relinked_state :
    (s t u : State)
    → t ≡ u
    → u ≡ record s { bytes = u.bytes; seg_list = u.seg_list; mini_list = u.mini_list }
    → t ≡ record s { bytes = t.bytes; seg_list = t.seg_list; mini_list = t.mini_list }
relinked_state s t u e k =
    subst (λ w. w ≡ record s { bytes = w.bytes; seg_list = w.seg_list; mini_list = w.mini_list })
      (sym e) k

-- With a block more, and with one less.
abbrev pub With : ℕ → ℕ → Blocks → Blocks
With b k F a n = ((a ≡ b) × (n ≡ k)) ⊎ F a n

abbrev pub Without : ℕ → Blocks → Blocks
Without b F a n = F a n × (a ≢ b)

-- Lists in a memory that agrees on their links.
module _ (s t : State) (heap : t.heap ≡ s.heap) (brk : s.mem_brk ≤ t.mem_brk) where
  Inside-same : (xs : List ℕ) → All (Inside s) xs → All (Inside t) xs
  Inside-same xs h = All-map (Inside s) (Inside t) xs (λ a i. omega arith) h

  Back-same :
      (xs : List ℕ) → SameAt prev_offset s.bytes t.bytes xs → Back s.bytes xs → Back t.bytes xs
  Back-same [] same h = tt
  Back-same (a ∷ xs) same h = BackFrom-same s.bytes t.bytes a xs same.1 h

  pub IsFreeList-same :
      (p p' : ℕ) (xs : List ℕ)
      → p' ≡ p
      → ((a : ℕ) → In a xs → word t.bytes (a + 16) ≡ word s.bytes (a + 16))
      → ((a : ℕ) → In a xs → word t.bytes (a + 8) ≡ word s.bytes (a + 8))
      → IsFreeList s p xs
      → IsFreeList t p' xs
  IsFreeList-same p p' xs e nexts prevs h = record {
    chain = rw e (Chain-same s.bytes t.bytes next_offset p xs (All-of_In _ xs nexts) h.chain);
    back = Back-same xs (All-of_In _ xs prevs) h.back;
    spread = h.spread;
    inside = Inside-same xs h.inside;
  }

  pub IsMiniList-same :
      (p p' : ℕ) (xs : List ℕ)
      → p' ≡ p
      → ((a : ℕ) → In a xs → word t.bytes (a + 8) ≡ word s.bytes (a + 8))
      → IsMiniList s p xs
      → IsMiniList t p' xs
  IsMiniList-same p p' xs e nexts h = record {
    chain = rw e (Chain-same s.bytes t.bytes mini_next_offset p xs (All-of_In _ xs nexts) h.chain);
    spread = h.spread;
    inside = Inside-same xs h.inside;
  }

-- A word of one block is no link of blocks that are clear of it.
pub OffLinks-of_Clear :
    (a x : ℕ) (ds : List ℕ) → a ≤ x → x + 8 ≤ a + 24 → All (Clear a) ds → OffLinks x ds
OffLinks-of_Clear a x ds lower upper h = All-map (Clear a) _ ds (λ d c. omega arith) h

pub OffMiniLinks-of_Clear :
    (a x : ℕ) (ds : List ℕ) → a ≤ x → x + 8 ≤ a + 24 → All (Clear a) ds → OffMiniLinks x ds
OffMiniLinks-of_Clear a x ds lower upper h = All-map (Clear a) _ ds (λ d c. omega arith) h

module _ (s : State) (F : Blocks) (h : IsListed s F) where
  -- Blocks of different sizes are different, so they are clear of each other.
  pub Clear-of_sizes : (a n b k : ℕ) → F a n → F b k → n ≢ k → Clear a b
  Clear-of_sizes a n b k f g ne =
      h.spread a n b k f g
        λ e. ne (sym (h.sizes a n f) ∙ (ap (λ x. extract_size (word s.bytes x)) e ∙ h.sizes b k g))

  -- A block of another class, or a mini block, is clear of all blocks of class `c`.
  pub Clear-class :
      (a n c : ℕ) → F a n → ((n ≡ min_block_size) ⊎ (find_class n ≢ c)) → All (Clear a) (h.seg c)
  Clear-class a n c f other = All-of_In (Clear a) (h.seg c) λ b i.
      let (k, g, large, class) = h.seg_in c b i in
      Clear-of_sizes a n b k f g (elim other [
        | inl mini ↦ λ e. large (sym e ∙ mini)
        | inr class' ↦ λ e. class' (ap find_class e ∙ class)
      ])

  pub Clear-minis : (a n : ℕ) → F a n → n ≢ min_block_size → All (Clear a) h.minis
  Clear-minis a n f large =
      All-of_In (Clear a) h.minis λ b i. Clear-of_sizes a n b min_block_size f (h.mini_in b i) large

  Apart-header : (a b w : ℕ) → w ≤ 16 → (a ≢ b → Clear a b) → Apart a 8 (b + 8) w
  Apart-header a b w short clear = elim (Bool-cases (a == b)) [
    | inl e ↦ let same : a ≡ b = (==_iff a b).0 e in omega arith
    | inr e ↦ let apart = clear (λ same. (let e' = (==_iff a b).1 same in cc)) in omega arith
  ]

  -- No header of the set is a link of it.
  pub OffLinks-header : (a n c : ℕ) → F a n → OffLinks a (h.seg c)
  OffLinks-header a n c f = All-of_In _ (h.seg c) λ b i.
      let (k, g, large, class) = h.seg_in c b i in
      Apart-header a b 16 (omega arith) (h.spread a n b k f g)

  pub OffMiniLinks-header : (a n : ℕ) → F a n → OffMiniLinks a h.minis
  OffMiniLinks-header a n f =
      All-of_In _ h.minis
        λ b i. Apart-header a b 8 (omega arith) (h.spread a n b min_block_size f (h.mini_in b i))

  -- A word off the links of the set is off the links of each list.
  pub OffLinks-of_IsOff : (x c : ℕ) → IsOff F x → OffLinks x (h.seg c)
  OffLinks-of_IsOff x c off = All-of_In _ (h.seg c) λ b i.
      let (k, g, large, class) = h.seg_in c b i in
      let at_b = off b k g in rw (==_ne k min_block_size large) at at_b

  pub OffMiniLinks-of_IsOff : (x : ℕ) → IsOff F x → OffMiniLinks x h.minis
  OffMiniLinks-of_IsOff x off = All-of_In _ h.minis λ b i. off b min_block_size (h.mini_in b i)

-- Equal sets are listed alike.
pub IsListed-iff :
    (s : State) (F G : Blocks)
    → ((a n : ℕ) → F a n → G a n)
    → ((a n : ℕ) → G a n → F a n)
    → IsListed s F
    → IsListed s G
IsListed-iff s F G to from h = record {
  seg = h.seg;
  minis = h.minis;
  seg_lists = h.seg_lists;
  mini = h.mini;
  sizes = λ a n g. h.sizes a n (from a n g);
  spread = λ a n b k f g. h.spread a n b k (from a n f) (from b k g);
  seg_in = λ c a i. let (n, f, large, class) = h.seg_in c a i in (n, to a n f, large, class);
  seg_has = λ a n g. h.seg_has a n (from a n g);
  mini_in = λ a i. to a min_block_size (h.mini_in a i);
  mini_has = λ a g. h.mini_has a (from a min_block_size g);
}

-- The same heads of the lists, in a heap that has not shrunk.
pub record IsLonger (s t : State) : Type 0 where
  pub heap : t.heap ≡ s.heap
  pub brk : s.mem_brk ≤ t.mem_brk
  pub heads : t.seg_list ≡ s.seg_list
  pub first : t.mini_list ≡ s.mini_list

-- Memory that agrees on the headers and the links of the set lists it alike.
pub IsListed-longer :
    (s t : State) (F : Blocks)
    → IsLonger s t
    → ((a n : ℕ) → F a n → word t.bytes a ≡ word s.bytes a)
    → ((a n : ℕ) → F a n → word t.bytes (a + 8) ≡ word s.bytes (a + 8))
    → ((a n : ℕ) → F a n → n ≢ min_block_size → word t.bytes (a + 16) ≡ word s.bytes (a + 16))
    → IsListed s F
    → IsListed t F
IsListed-longer s t F longer headers firsts seconds h =
    let heap = longer.heap in
    let brk = longer.brk in
    let heads = longer.heads in
    let first = longer.first in
    record {
      seg = h.seg;
      minis = h.minis;
      seg_lists = λ c.
          IsFreeList-same s t heap brk (s.seg_list c) (t.seg_list c) (h.seg c) (ap (λ f. f c) heads)
            (λ a i. let (n, f, large, class) = h.seg_in c a i in seconds a n f large)
            (λ a i. let (n, f, large, class) = h.seg_in c a i in firsts a n f) (h.seg_lists c);
      mini =
          IsMiniList-same s t heap brk s.mini_list t.mini_list h.minis first
            (λ a i. firsts a min_block_size (h.mini_in a i)) h.mini;
      sizes = λ a n f. ap extract_size (headers a n f) ∙ h.sizes a n f;
      spread = h.spread;
      seg_in = h.seg_in;
      seg_has = h.seg_has;
      mini_in = h.mini_in;
      mini_has = h.mini_has;
    }

pub IsListed-same :
    (s t : State) (F : Blocks)
    → t ≡ record s { bytes = t.bytes }
    → ((a n : ℕ) → F a n → word t.bytes a ≡ word s.bytes a)
    → ((a n : ℕ) → F a n → word t.bytes (a + 8) ≡ word s.bytes (a + 8))
    → ((a n : ℕ) → F a n → n ≢ min_block_size → word t.bytes (a + 16) ≡ word s.bytes (a + 16))
    → IsListed s F
    → IsListed t F
IsListed-same s t F state =
    let brk : t.mem_brk ≡ s.mem_brk = ap State.mem_brk state in
    IsListed-longer s t F (record {
      heap = ap State.heap state;
      brk = omega arith;
      heads = ap State.seg_list state;
      first = ap State.mini_list state;
    })
