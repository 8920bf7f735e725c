-- ===== src/FreeList/Fit.antt =====
-- `find_fit` over all classes.
use dynamic_memory_allocator.Base.{
  ℕ, zero, suc, ◌+◌, ◌-◌, ◌≤◌, ◌<◌, ◌≡◌, ◌≢◌, ◌⊎◌, refl, inl, inr, List, [], ◌∷◌, All, In, arith,
  not, false, if◌then◌else◌, ◌&&◌, ltb, ◌==◌, ==_ne, Bool-cases,
}
use dynamic_memory_allocator.Machine.{State, pure}
use dynamic_memory_allocator.Machine.Ends.{Ends, ends, Ends-mono, Ends-continue}
use dynamic_memory_allocator.Block.{null, min_block_size}
use dynamic_memory_allocator.FreeList.{find_class, seg_length, search_from, find_fit}
use dynamic_memory_allocator.FreeList.Classes.{find_class_mono, find_class-lt}
use dynamic_memory_allocator.FreeList.Segregated.{IsArena, class_at, IsFreeList}
use dynamic_memory_allocator.FreeList.Rounds.{rounds-heapsize, length-lt-rounds}
use dynamic_memory_allocator.FreeList.Search.{
  Fits, size_at, IsAnswer, nothing, found, search_class-IsAnswer,
}

-- The segregated list holds exactly the blocks of `nodes i` in class `i`, each in its class.
pub record IsSegList (s : State) (nodes : ℕ → List ℕ) : Type 0 where
  pub lists : (i : ℕ) → i < seg_length → IsFreeList s (s.seg_list i) (nodes i)
  pub classes : (i : ℕ) → i < seg_length → All (λ a. class_at s a ≡ i) (nodes i)

-- No block of the class fits.
abbrev pub NoFit : State → ℕ → List ℕ → Type 0
NoFit s asize = All (λ a. ¬ Fits s asize a)

-- What a search from class `i` on answers.
pub data IsFit (s : State) (nodes : ℕ → List ℕ) (asize i r : ℕ) : Type 0 where
  no_fit :
      r ≡ null
      → ((j : ℕ) → i ≤ j → j < seg_length → NoFit s asize (nodes j))
      → IsFit s nodes asize i r
  fit :
      (j : ℕ)
      → r ≢ null
      → Fits s asize r
      → In r (nodes j)
      → j < seg_length
      → ((k : ℕ) → i ≤ k → k < j → NoFit s asize (nodes k))
      → IsFit s nodes asize i r

module _ (s : State) (nodes : ℕ → List ℕ) (asize : ℕ) (arena : IsArena s)
    (ordered : s.heap ≤ s.mem_brk) (seg : IsSegList s nodes) where
  abbrev Found : ℕ → ℕ → State → Type 0
  Found i r t = (t ≡ s) × IsFit s nodes asize i r

  -- A class from `i` on is `i` or comes after it.
  first_or :
      (i : ℕ)
      → NoFit s asize (nodes i)
      → (j : ℕ) → i ≤ j
      → (i + 1 ≤ j → NoFit s asize (nodes j))
      → NoFit s asize (nodes j)
  first_or i here j h later = elim (Bool-cases (i == j)) [
    | inl e ↦ let same : j ≡ i = ground arith in rw same here
    | inr ne ↦ later (ground arith)
  ]

  IsFit-later :
      (i r : ℕ) → NoFit s asize (nodes i) → IsFit s nodes asize (i + 1) r → IsFit s nodes asize i r
  IsFit-later i r none_here (no_fit e later) =
      no_fit e (λ j h lt. first_or i none_here j h (λ h'. later j h' lt))
  IsFit-later i r none_here (fit j ne fits m lt later) =
      fit j ne fits m lt (λ k h below. first_or i none_here k h (λ h'. later k h' below))

  -- After the search of class `i`: its answer, or that of the later classes.
  after_class :
      (k i r : ℕ)
      → i < seg_length
      → IsAnswer s asize null (nodes i) r
      → Ends (Found (i + 1)) (search_from k (i + 1) asize s)
      → Ends (Found i) ((if not (r == null) then pure r else search_from k (i + 1) asize) s)
  after_class k i r lt (nothing e b none_here) rest =
      rw e (Ends-mono rest λ r' t (same, is). (same, IsFit-later i r' none_here is))
  after_class k i r lt (found ne fits small (inl e)) rest = absurd (ne e)
  after_class k i r lt (found ne fits small (inr m)) rest =
      rw (==_ne r null ne) (ends (refl, fit i ne fits m lt (λ k h below. absurd (omega arith))))

  search_from-IsFit : (k i : ℕ) → i + k ≡ seg_length → Ends (Found i) (search_from k i asize s)
  unfolding search_from
  search_from-IsFit zero i e = ends (refl, no_fit refl (λ j h k. absurd (omega arith)))
  search_from-IsFit (suc k) i e =
      let list = seg.lists i (omega arith) in
      rw (rounds-heapsize s arena ordered) (
        Ends-continue
          (search_class-IsAnswer s asize (suc (s.mem_brk - s.heap)) null (s.seg_list i) (nodes i)
            (length-lt-rounds s (nodes i) list.spread list.inside) (inl refl) list.chain
            list.inside)
          λ r t (same, answer).
            rw same
              (after_class k i r (omega arith) answer (search_from-IsFit k (i + 1) (omega arith))))

  -- A block of an earlier class is too small.
  earlier-NoFit :
      (i : ℕ) (xs : List ℕ)
      → i < find_class asize
      → All (λ a. class_at s a ≡ i) xs
      → NoFit s asize xs
  earlier-NoFit i [] h c = tt
  earlier-NoFit i (a ∷ xs) h c = (
    λ fits. absurd (omega (arith, find_class_mono asize (size_at s a) fits.1, c.0)),
    earlier-NoFit i xs h c.1,
  )

-- The request is not of the size of the mini blocks, or there is no mini block.
abbrev pub NoMini : State → ℕ → Type 0
NoMini s asize = (asize ≢ min_block_size) ⊎ (s.mini_list ≡ null)

-- What `find_fit` answers: the first mini block for a request of that size, while there is one; else,
-- and only then, a block that fits, from the lowest class that has one; else `NULL`, and then no
-- block of the segregated list fits.
pub data IsFitFor (s : State) (nodes : ℕ → List ℕ) (asize r : ℕ) : Type 0 where
  mini_block : asize ≡ min_block_size → r ≢ null → r ≡ s.mini_list → IsFitFor s nodes asize r
  seg_block :
      (j : ℕ)
      → NoMini s asize
      → r ≢ null
      → Fits s asize r
      → In r (nodes j)
      → j < seg_length
      → ((k : ℕ) → k < j → NoFit s asize (nodes k))
      → IsFitFor s nodes asize r
  no_block :
      NoMini s asize
      → r ≡ null
      → ((j : ℕ) → j < seg_length → NoFit s asize (nodes j))
      → IsFitFor s nodes asize r

-- `find_fit` returns, changes nothing, and answers as `IsFitFor` says: the first mini block for a
-- request of that size, whenever there is one; else a block of the lowest class that has one that is
-- large enough, and `NULL` only when no class has.
pub find_fit-IsFitFor :
    (s : State) (nodes : ℕ → List ℕ) (asize : ℕ)
    → IsArena s
    → s.heap ≤ s.mem_brk
    → IsSegList s nodes
    → Ends (λ r t. (t ≡ s) × IsFitFor s nodes asize r) (find_fit asize s)
unfolding find_fit
find_fit-IsFitFor s nodes asize arena ordered seg =
    elim (Bool-cases (asize == min_block_size && not (s.mini_list == null))) [
      | inl mini ↦ rw mini (ends (refl, mini_block (ground arith) (ground arith) refl))
      | inr seg_only ↦ rw seg_only (
          Ends-mono
            (search_from-IsFit s nodes asize arena ordered seg (seg_length - find_class asize)
              (find_class asize) (omega (arith, find_class-lt asize)))
            λ r t (same, is). (same, whole (no_mini seg_only) r is))
    ]
  where
    before : (j : ℕ) → j < find_class asize → NoFit s asize (nodes j)
    before j h =
        earlier-NoFit s nodes asize arena ordered seg j (nodes j) h
          (seg.classes j (omega (arith, find_class-lt asize)))

    from_class :
        (j : ℕ) → (find_class asize ≤ j → NoFit s asize (nodes j)) → NoFit s asize (nodes j)
    from_class j later = elim (Bool-cases (ltb j (find_class asize))) [
      | inl lt ↦ before j (ground arith)
      | inr ge ↦ later (ground arith)
    ]

    no_mini : (asize == min_block_size && not (s.mini_list == null)) ≡ false → NoMini s asize
    no_mini seg_only = elim (Bool-cases (asize == min_block_size)) [
      | inl mini ↦ inr (ground arith)
      | inr other ↦ inl (ground arith)
    ]

    whole :
        NoMini s asize
        → (r : ℕ) → IsFit s nodes asize (find_class asize) r
        → IsFitFor s nodes asize r
    whole none r (no_fit e later) = no_block none e (λ j lt. from_class j (λ h. later j h lt))
    whole none r (fit j ne fits m lt later) =
        seg_block j none ne fits m lt (λ k below. from_class k (λ h. later k h below))
