-- ===== src/FreeList/Listed/Insert.antt =====
-- `insert_free` adds a block to the set.
use mathlib.Core.Path.{subst}
use dynamic_memory_allocator.Base.{
  ℕ, ◌≡◌, ◌≢◌, ◌∙◌, refl, sym, ap, ◌∷◌, All, All-of_In, In, inl, inr, arith, Bool-cases, ◌==◌,
  ==_iff, ==_ne, if_ne, if_eq,
}
use dynamic_memory_allocator.Machine.{State}
use dynamic_memory_allocator.Machine.ReadWrite.{}
use dynamic_memory_allocator.Machine.Ends.{Ends, Ends-mono}
use dynamic_memory_allocator.Memlib.Word.{word}
use dynamic_memory_allocator.Block.{min_block_size, extract_size}
use dynamic_memory_allocator.FreeList.{find_class, insert_free}
use dynamic_memory_allocator.FreeList.Chain.{Clear}
use dynamic_memory_allocator.FreeList.Segregated.{IsArena, Inside, class_at}
use dynamic_memory_allocator.FreeList.Mini.{IsMiniList, insert_mini-IsInserted}
use dynamic_memory_allocator.FreeList.Mini as Mini
use dynamic_memory_allocator.FreeList.Insert.{IsInserted, insert_seg-IsInserted}
use dynamic_memory_allocator.FreeList.Listed.Rebuild.{Rebuild-class, Rebuild-minis}
use dynamic_memory_allocator.FreeList.Listed.{
  Blocks, relinked_state, IsListed, IsRelinked, With, OffLinks-of_Clear, OffLinks-header,
  OffLinks-of_IsOff, Clear-class,
}

module _ (s : State) (F : Blocks) (b k : ℕ) (arena : IsArena s) (h : IsListed s F)
    (inside : Inside s b) (size : extract_size (word s.bytes b) ≡ k)
    (clear : (a n : ℕ) → F a n → Clear b a) where
  clear_from : (a n : ℕ) → F a n → Clear a b
  clear_from a n f = let c = clear a n f in omega arith

  With-spread : (a n a' n' : ℕ) → With b k F a n → With b k F a' n' → a ≢ a' → Clear a a'
  With-spread a n a' n' (inl e) (inl e') ne = absurd (ne (e.0 ∙ sym e'.0))
  With-spread a n a' n' (inl e) (inr f) ne = rw e.0 (clear a' n' f)
  With-spread a n a' n' (inr f) (inl e) ne = rw e.0 (clear_from a n f)
  With-spread a n a' n' (inr f) (inr f') ne = h.spread a n a' n' f f' ne

  With-sizes :
      (t : State)
      → ((a n : ℕ) → With b k F a n → word t.bytes a ≡ word s.bytes a)
      → (a n : ℕ) → With b k F a n
      → extract_size (word t.bytes a) ≡ n
  With-sizes t headers a n (inl e) =
      ap extract_size (headers a n (inl e))
      ∙ (ap (λ x. extract_size (word s.bytes x)) e.0 ∙ (size ∙ sym e.1))
  With-sizes t headers a n (inr f) = ap extract_size (headers a n (inr f)) ∙ h.sizes a n f

  clear_seg : (c : ℕ) → All (Clear b) (h.seg c)
  clear_seg c =
      All-of_In (Clear b) (h.seg c) λ d i. let (m, f, large, class) = h.seg_in c d i in clear d m f

  clear_minis : All (Clear b) h.minis
  clear_minis = All-of_In (Clear b) h.minis λ d i. clear d min_block_size (h.mini_in d i)

  -- A block that is no mini block goes to its class.
  module _ (large : k ≢ min_block_size) (t : State)
      (is : IsInserted s b (find_class k) (h.seg (find_class k)) t) where
    header_same : (a n : ℕ) → With b k F a n → word t.bytes a ≡ word s.bytes a
    header_same a n (inl e) = rw e.0 (
        is.same b (
          omega arith,
          OffLinks-of_Clear b b (h.seg (find_class k)) (omega arith) (omega arith)
              (clear_seg (find_class k)),
        ))
    header_same a n (inr f) =
        let c = clear a n f in is.same a (omega arith, OffLinks-header s F h a n (find_class k) f)

    inserted_seg-IsListed : IsListed t (With b k F)
    inserted_seg-IsListed =
        Rebuild-class s t F (With b k F) h
          (record {
            heap = ap (λ u. u.heap) is.state;
            brk = ap (λ u. u.mem_brk) is.state;
            sizes = With-sizes t header_same;
            spread = With-spread;
          })
          (b ∷ h.seg (find_class k)) (find_class k)
          (λ i ne. ap (λ u. u.seg_list i) is.state ∙ if_ne i _ _ _ ne)
          (ap (λ u. u.mini_list) is.state)
          (λ a n x f other lower upper.
            let c = clear a n f in
            is.same x (
              omega arith,
              OffLinks-of_Clear a x _ lower upper (Clear-class s F h a n (find_class k) f other),
            ))
          (rw (ap (λ u. u.seg_list (find_class k)) is.state ∙ if_eq (find_class k) b _) is.list)
          (λ a i. elim i [
            | inl e ↦ (k, inl (e, refl), large, refl)
            | inr old ↦
                let (n, f, large', class) = h.seg_in (find_class k) a old in
                (n, inr f, large', class)
          ])
          (λ a n g large' class. elim g [
            | inl e ↦ inl e.0
            | inr f ↦ inr (subst (λ c. In a (h.seg c)) class (h.seg_has a n f large'))
          ])
          (λ a n other. (
            λ g. elim g [
              | inl e ↦ absurd (elim other [
                | inl mini ↦ large (sym e.1 ∙ mini)
                | inr away ↦ away (ap find_class e.1)
              ])
              | inr f ↦ f
            ],
            λ f. inr f,
          ))

    inserted_seg-IsRelinked : IsRelinked s (With b k F) t
    inserted_seg-IsRelinked = record {
      state = relinked_state s t _ is.state refl;
      same = λ x off.
          let here = off b k (inl (refl, refl)) in
          is.same x (
            rw (==_ne k min_block_size large) at here,
            OffLinks-of_IsOff s F h x (find_class k) (λ a n f. off a n (inr f)),
          );
    }

  -- A mini block goes to the mini list.
  module _ (mini : k ≡ min_block_size) (t : State) (is : Mini.IsInserted s b h.minis t) where
    mini_header_same : (a n : ℕ) → With b k F a n → word t.bytes a ≡ word s.bytes a
    mini_header_same a n (inl e) = rw e.0 (is.same b (omega arith, tt))
    mini_header_same a n (inr f) = let c = clear a n f in is.same a (omega arith, tt)

    inserted_mini-IsListed : IsListed t (With b k F)
    inserted_mini-IsListed =
        Rebuild-minis s t F (With b k F) h
          (record {
            heap = ap (λ u. u.heap) is.state;
            brk = ap (λ u. u.mem_brk) is.state;
            sizes = With-sizes t mini_header_same;
            spread = With-spread;
          })
          (b ∷ h.minis) (ap (λ u. u.seg_list) is.state)
          (λ a n x f large lower upper. let c = clear a n f in is.same x (omega arith, tt))
          (subst (λ p. IsMiniList t p (b ∷ h.minis)) (sym (ap (λ u. u.mini_list) is.state)) is.list)
          (λ a i. elim i [ inl e ↦ inl (e, sym mini) | inr old ↦ inr (h.mini_in a old) ])
          (λ a g. elim g [ inl e ↦ inl e.0 | inr f ↦ inr (h.mini_has a f) ])
          (λ a n large.
            (λ g. elim g [ inl e ↦ absurd (large (e.1 ∙ mini)) | inr f ↦ f ], λ f. inr f))

    inserted_mini-IsRelinked : IsRelinked s (With b k F) t
    inserted_mini-IsRelinked = record {
      state = relinked_state s t _ is.state refl;
      same = λ x off. let here = off b k (inl (refl, refl)) in is.same x (rw mini at here, tt);
    }

  -- `insert_free` ends, adds the block to the set, and changes nothing but heads of lists and links.
  pub insert_free-IsListed :
      Ends (λ _ t. IsRelinked s (With b k F) t × IsListed t (With b k F)) (insert_free b s)
  insert_free-IsListed = elim (Bool-cases (k == min_block_size)) [
    | inl e ↦
        let mini = (==_iff k min_block_size).0 e in
        Ends-mono (insert_mini-IsInserted s b h.minis arena inside (size ∙ mini) h.mini clear_minis)
          λ _ t is. (inserted_mini-IsRelinked mini t is, inserted_mini-IsListed mini t is)
    | inr e ↦
        let large : k ≢ min_block_size =
          λ same. (let e' = (==_iff k min_block_size).1 same in cc) in
        let class : class_at s b ≡ find_class k = ap find_class size in
        Ends-mono
          (subst (λ c. Ends (λ _. IsInserted s b c (h.seg c)) (insert_free b s)) class
            (insert_seg-IsInserted s b (h.seg (class_at s b)) arena inside
              (λ same. large (sym size ∙ same)) (h.seg_lists (class_at s b))
              (clear_seg (class_at s b))))
          λ _ t is. (inserted_seg-IsRelinked large t is, inserted_seg-IsListed large t is)
  ]
