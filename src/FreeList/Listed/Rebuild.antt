-- ===== src/FreeList/Listed/Rebuild.antt =====
-- The set after one list changed: the class `c`, or the mini list, holds the blocks `ys`.
use dynamic_memory_allocator.Base.{
  ℕ, ◌+◌, ◌≤◌, ◌≡◌, ◌≢◌, ◌⊎◌, ◌↔◌, ◌∙◌, refl, sym, ap, List, In, inl, inr, arith, Bool-cases, ◌==◌,
  ==_iff, ==_self, if◌then◌else◌,
}
use dynamic_memory_allocator.Machine.{State}
use dynamic_memory_allocator.Memlib.Word.{word}
use dynamic_memory_allocator.Block.{min_block_size, extract_size}
use dynamic_memory_allocator.FreeList.{find_class}
use dynamic_memory_allocator.FreeList.Chain.{Clear}
use dynamic_memory_allocator.FreeList.Segregated.{IsFreeList}
use dynamic_memory_allocator.FreeList.Mini.{IsMiniList}
use dynamic_memory_allocator.FreeList.Listed.{Blocks, IsListed, IsFreeList-same, IsMiniList-same}

-- `F` before and `G` after have the same frame; every word of a block that keeps its list is kept.
pub record IsStep (s t : State) (G : Blocks) : Type 0 where
  pub heap : t.heap ≡ s.heap
  pub brk : t.mem_brk ≡ s.mem_brk
  pub sizes : (a n : ℕ) → G a n → extract_size (word t.bytes a) ≡ n
  pub spread : (a n b k : ℕ) → G a n → G b k → a ≢ b → Clear a b

-- Blocks of other classes than `c`.
abbrev pub Elsewhere : ℕ → ℕ → Type 0
Elsewhere c n = (n ≡ min_block_size) ⊎ (find_class n ≢ c)

abbrev replaced : ℕ → List ℕ → (ℕ → List ℕ) → ℕ → List ℕ
replaced c ys seg i = if i == c then ys else seg i

module _ (s t : State) (F G : Blocks) (h : IsListed s F) (step : IsStep s t G) (ys : List ℕ) where
  pub Rebuild-class :
      (c : ℕ)
      → ((i : ℕ) → i ≢ c → t.seg_list i ≡ s.seg_list i)
      → t.mini_list ≡ s.mini_list
      → ((a n x : ℕ)
          → F a n
          → Elsewhere c n
          → a ≤ x
          → x + 8 ≤ a + 24
          → word t.bytes x ≡ word s.bytes x)
      → IsFreeList t (t.seg_list c) ys
      → ((a : ℕ) → In a ys → (n : ℕ) × G a n × (n ≢ min_block_size) × (find_class n ≡ c))
      → ((a n : ℕ) → G a n → n ≢ min_block_size → find_class n ≡ c → In a ys)
      → ((a n : ℕ) → Elsewhere c n → G a n ↔ F a n)
      → IsListed t G
  Rebuild-class c heads first words list ys_in ys_has others = record {
    seg = replaced c ys h.seg;
    minis = h.minis;
    seg_lists = λ i. elim (Bool-cases (i == c)) [
      | inl e ↦ let at : i ≡ c = (==_iff i c).0 e in rw (at, ==_self c) list
      | inr e ↦
          let away : i ≢ c = λ same. (let k = (==_iff i c).1 same in cc) in
          let from = λ (a x : ℕ) (inside : In a (h.seg i)) (lower : a ≤ x) (upper : x + 8 ≤ a + 24).
            (let (n, f, large, class) = h.seg_in i a inside in
              words a n x f (inr (λ k. away (sym class ∙ k))) lower upper) in
          rw e (
            IsFreeList-same s t step.heap (omega (arith, step.brk)) (s.seg_list i) (t.seg_list i)
              (h.seg i) (heads i away)
              (λ a inside. from a (a + 16) inside (omega arith) (omega arith))
              (λ a inside. from a (a + 8) inside (omega arith) (omega arith)) (h.seg_lists i))
    ];
    mini =
        IsMiniList-same s t step.heap (omega (arith, step.brk)) s.mini_list t.mini_list h.minis
          first
          (λ a inside.
            words a min_block_size (a + 8) (h.mini_in a inside) (inl refl) (omega arith)
              (omega arith))
          h.mini;
    sizes = step.sizes;
    spread = step.spread;
    seg_in = λ i a. elim (Bool-cases (i == c)) [
      | inl e ↦ let at : i ≡ c = (==_iff i c).0 e in rw (at, ==_self c) (ys_in a)
      | inr e ↦
          let away : i ≢ c = λ same. (let k = (==_iff i c).1 same in cc) in
          rw e (λ inside.
            (let (n, f, large, class) = h.seg_in i a inside in
              (n, (others a n (inr (λ k. away (sym class ∙ k)))).1 f, large, class)))
    ];
    seg_has = λ a n g large. elim (Bool-cases (find_class n == c)) [
      | inl e ↦ rw e (ys_has a n g large ((==_iff _ c).0 e))
      | inr e ↦
          let away : find_class n ≢ c = λ same. (let k = (==_iff (find_class n) c).1 same in cc) in
          rw e (h.seg_has a n ((others a n (inr away)).0 g) large)
    ];
    mini_in = λ a inside. (others a min_block_size (inl refl)).1 (h.mini_in a inside);
    mini_has = λ a g. h.mini_has a ((others a min_block_size (inl refl)).0 g);
  }

  pub Rebuild-minis :
      t.seg_list ≡ s.seg_list
      → ((a n x : ℕ)
          → F a n
          → n ≢ min_block_size
          → a ≤ x
          → x + 8 ≤ a + 24
          → word t.bytes x ≡ word s.bytes x)
      → IsMiniList t t.mini_list ys
      → ((a : ℕ) → In a ys → G a min_block_size)
      → ((a : ℕ) → G a min_block_size → In a ys)
      → ((a n : ℕ) → n ≢ min_block_size → G a n ↔ F a n)
      → IsListed t G
  Rebuild-minis heads words list ys_in ys_has others = record {
    seg = h.seg;
    minis = ys;
    seg_lists = λ i.
        let from = λ (a x : ℕ) (inside : In a (h.seg i)) (lower : a ≤ x) (upper : x + 8 ≤ a + 24).
          (let (n, f, large, class) = h.seg_in i a inside in words a n x f large lower upper) in
        IsFreeList-same s t step.heap (omega (arith, step.brk)) (s.seg_list i) (t.seg_list i)
          (h.seg i) (ap (λ f. f i) heads)
          (λ a inside. from a (a + 16) inside (omega arith) (omega arith))
          (λ a inside. from a (a + 8) inside (omega arith) (omega arith)) (h.seg_lists i);
    mini = list;
    sizes = step.sizes;
    spread = step.spread;
    seg_in = λ i a inside.
        let (n, f, large, class) = h.seg_in i a inside in (n, (others a n large).1 f, large, class);
    seg_has = λ a n g large. h.seg_has a n ((others a n large).0 g) large;
    mini_in = ys_in;
    mini_has = ys_has;
  }
