-- ===== src/FreeList/Listed/Remove.antt =====
-- `remove_free` takes a block out of the set.
use mathlib.Core.Path.{subst}
use dynamic_memory_allocator.Base.{
  ℕ, ◌≡◌, ◌≢◌, ◌↔◌, ◌∙◌, refl, sym, ap, List, ◌∷◌, ◌++◌, All, All-In, All-append_of,
  All-drop_middle, In, In-split, In-around, In-wider, inl, inr, arith, Bool-cases, ◌==◌, ==_iff,
}
use dynamic_memory_allocator.Machine.{State}
use dynamic_memory_allocator.Machine.ReadWrite.{}
use dynamic_memory_allocator.Machine.Ends.{Ends, Ends-mono}
use dynamic_memory_allocator.Memlib.Word.{word}
use dynamic_memory_allocator.Block.{min_block_size, extract_size}
use dynamic_memory_allocator.FreeList.{find_class, remove_free}
use dynamic_memory_allocator.FreeList.Chain.{Clear, Spread}
use dynamic_memory_allocator.FreeList.Segregated.{IsArena, class_at, IsFreeList}
use dynamic_memory_allocator.FreeList.Mini.{IsMiniList}
use dynamic_memory_allocator.FreeList.Unlink.{Spread-at}
use dynamic_memory_allocator.FreeList.Remove.{IsRemoved, remove_free-IsRemoved}
use dynamic_memory_allocator.FreeList.RemoveMini as RemoveMini
use dynamic_memory_allocator.FreeList.RemoveMini.{remove_free_mini-IsRemoved}
use dynamic_memory_allocator.FreeList.Listed.Rebuild.{Rebuild-class, Rebuild-minis}
use dynamic_memory_allocator.FreeList.Listed.{
  Blocks, relinked_state, IsListed, IsRelinked, Without, OffLinks-of_Clear, OffMiniLinks-of_Clear,
  OffLinks-header, OffMiniLinks-header, OffLinks-of_IsOff, OffMiniLinks-of_IsOff, Clear-class,
  Clear-minis,
}

-- The others in a list are no copies of the block.
Spread-ne :
    (pre : List ℕ) (b : ℕ) (post : List ℕ) (a : ℕ)
    → Spread (pre ++ b ∷ post)
    → In a (pre ++ post)
    → a ≢ b
Spread-ne pre b post a h i =
    let at_b = Spread-at pre b post h in
    let clear =
      All-In (Clear b) a (pre ++ post) (All-append_of (Clear b) pre post at_b.0 at_b.1) i in
    λ e. omega arith

module _ (s : State) (F : Blocks) (b k : ℕ) (arena : IsArena s) (h : IsListed s F) (f : F b k) where
  Without-iff : (a n : ℕ) → n ≢ k → Without b F a n ↔ F a n
  Without-iff a n ne = (
    λ g. g.0,
    λ g. (
      g,
      λ e. ne (sym (h.sizes a n g) ∙ (ap (λ x. extract_size (word s.bytes x)) e ∙ h.sizes b k f)),
    ),
  )

  Without-spread : (a n a' n' : ℕ) → Without b F a n → Without b F a' n' → a ≢ a' → Clear a a'
  Without-spread a n a' n' g g' ne = h.spread a n a' n' g.0 g'.0 ne

  module _ (large : k ≢ min_block_size) (pre post : List ℕ)
      (listed : h.seg (find_class k) ≡ pre ++ b ∷ post) (t : State)
      (is : IsRemoved s (find_class k) (pre ++ post) t) where
    removed_seg-IsListed : IsListed t (Without b F)
    removed_seg-IsListed =
        let c = find_class k in
        let spread : Spread (pre ++ b ∷ post) =
          rw (← listed) ((h.seg_lists (find_class k)).spread) in
        Rebuild-class s t F (Without b F) h
          (record {
            heap = ap (λ u. u.heap) is.state;
            brk = ap (λ u. u.mem_brk) is.state;
            sizes = λ a n g.
                ap extract_size (
                  is.same a (
                    All-drop_middle _ pre b post
                      (subst (All _) listed (OffLinks-header s F h a n c g.0))))
                ∙ h.sizes a n g.0;
            spread = Without-spread;
          })
          (pre ++ post) c is.others (ap (λ u. u.mini_list) is.state)
          (λ a n x g other lower upper. is.same x (
            OffLinks-of_Clear a x (pre ++ post) lower upper (
              All-drop_middle (Clear a) pre b post
                (subst (All (Clear a)) listed (Clear-class s F h a n c g other)))))
          is.list
          (λ a i.
            let (n, g, large', class) =
              h.seg_in c a (subst (In a) (sym listed) (In-wider a b pre post i)) in
            (n, (g, Spread-ne pre b post a spread i), large', class))
          (λ a n g large' class.
            elim (In-around a b pre post
              (subst (In a) (ap h.seg class ∙ listed) (h.seg_has a n g.0 large'))) [
                | inl e ↦ absurd (g.1 e)
                | inr i ↦ i
              ])
          (λ a n other. Without-iff a n (elim other [
            | inl mini ↦ λ e. large (sym e ∙ mini)
            | inr away ↦ λ e. away (ap find_class e)
          ]))

    removed_seg-IsRelinked : IsRelinked s F t
    removed_seg-IsRelinked = record {
      state = relinked_state s t _ is.state refl;
      same = λ x off. is.same x (
          All-drop_middle _ pre b post
            (subst (All _) listed (OffLinks-of_IsOff s F h x (find_class k) off)));
    }

  module _ (mini : k ≡ min_block_size) (pre post : List ℕ) (listed : h.minis ≡ pre ++ b ∷ post)
      (t : State) (is : RemoveMini.IsRemoved s (pre ++ post) t) where
    removed_mini-IsListed : IsListed t (Without b F)
    removed_mini-IsListed =
        let spread : Spread (pre ++ b ∷ post) = rw (← listed) (h.mini.spread) in
        Rebuild-minis s t F (Without b F) h
          (record {
            heap = ap (λ u. u.heap) is.state;
            brk = ap (λ u. u.mem_brk) is.state;
            sizes = λ a n g.
                ap extract_size (
                  is.same a (
                    All-drop_middle _ pre b post
                      (subst (All _) listed (OffMiniLinks-header s F h a n g.0))))
                ∙ h.sizes a n g.0;
            spread = Without-spread;
          })
          (pre ++ post) (ap (λ u. u.seg_list) is.state)
          (λ a n x g large lower upper. is.same x (
            OffMiniLinks-of_Clear a x (pre ++ post) lower upper (
              All-drop_middle (Clear a) pre b post
                (subst (All (Clear a)) listed (Clear-minis s F h a n g large)))))
          is.list
          (λ a i. (
            h.mini_in a (subst (In a) (sym listed) (In-wider a b pre post i)),
            Spread-ne pre b post a spread i,
          ))
          (λ a g. elim (In-around a b pre post (subst (In a) listed (h.mini_has a g.0))) [
            | inl e ↦ absurd (g.1 e)
            | inr i ↦ i
          ])
          (λ a n large. Without-iff a n (λ e. large (e ∙ mini)))

    removed_mini-IsRelinked : IsRelinked s F t
    removed_mini-IsRelinked = record {
      state = relinked_state s t _ is.state refl;
      same = λ x off.
          is.same x (
            All-drop_middle _ pre b post
              (subst (All _) listed (OffMiniLinks-of_IsOff s F h x off)));
    }

  -- `remove_free` on a block of the set ends, takes it out of the set, and changes nothing but heads
  -- of lists and links.
  pub remove_free-IsListed :
      Ends (λ _ t. IsRelinked s F t × IsListed t (Without b F)) (remove_free b s)
  remove_free-IsListed = elim (Bool-cases (k == min_block_size)) [
    | inl e ↦
        let mini = (==_iff k min_block_size).0 e in
        let (pre, post, listed) = In-split b h.minis (h.mini_has b (subst (F b) mini f)) in
        Ends-mono
          (remove_free_mini-IsRemoved s pre b post arena (h.sizes b k f ∙ mini)
            (subst (IsMiniList s s.mini_list) listed h.mini))
          λ _ t is. (
            removed_mini-IsRelinked mini pre post listed t is,
            removed_mini-IsListed mini pre post listed t is,
          )
    | inr e ↦
        let large : k ≢ min_block_size =
          λ same. (let e' = (==_iff k min_block_size).1 same in cc) in
        let (pre, post, listed) = In-split b (h.seg (find_class k)) (h.seg_has b k f large) in
        let class : class_at s b ≡ find_class k = ap find_class (h.sizes b k f) in
        let list : IsFreeList s (s.seg_list (find_class k)) (pre ++ b ∷ post) =
          subst (IsFreeList s (s.seg_list (find_class k))) listed (h.seg_lists (find_class k)) in
        Ends-mono
          (subst
            (λ c.
              IsFreeList s (s.seg_list c) (pre ++ b ∷ post)
              → Ends (λ _. IsRemoved s c (pre ++ post)) (remove_free b s))
            class
            (remove_free-IsRemoved s pre b post arena (λ same. large (sym (h.sizes b k f) ∙ same)))
            list)
          λ _ t is. (
            removed_seg-IsRelinked large pre post listed t is,
            removed_seg-IsListed large pre post listed t is,
          )
  ]
