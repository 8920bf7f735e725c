-- ===== src/Replay/Timed.antt =====
-- `eval_mm_speed` and `eval_mm_util`: what is timed is what is measured.
use dynamic_memory_allocator.Base.{
  ap, ℕ, ◌≡◌, ◌⊎◌, ◌∙◌, refl, Bool, true, false, Option, none, some, List, [], ◌∷◌, ltb,
  if◌then◌else◌, inl, inr, ◌==◌, Bool-cases,
}
use dynamic_memory_allocator.Machine.{
  State, Run, done, fault, out_of_rounds, Cmd, continue, pure, ◌>>=◌,
}
use dynamic_memory_allocator.Memlib.{mem_heapsize, mem_reset_brk}
use dynamic_memory_allocator.Traces.{
  Trace, TraceOp, TraceOpcode, alloc_op, free_op, realloc_op, reinit_trace,
}
use dynamic_memory_allocator.Replay.{
  Package, no_block, no_room, get_block, set_block, set_block_size, or_fault, block_of,
  util_request, util_requests, util_from, measured, eval_mm_util, speed_request, speed_requests,
  speed_from, eval_mm_speed,
}

-- A run with its measurements forgotten: whether it got to its end, and in which state.
abbrev pub answered : {A : Type 0} → Run (Option A) → Run Bool
answered (done none s) = done false s
answered (done (some a) s) = done true s
answered fault = fault
answered out_of_rounds = out_of_rounds

module _ {A B C D : Type 0} (k : A → Cmd B) (l : B → Cmd (Option C)) (k' : A → Cmd D)
    (l' : D → Cmd Bool)
    (same : (a : A) (t : State) → answered (continue (k a t) l) ≡ continue (k' a t) l') where
  answered-continue :
      (r : Run A) → answered (continue (continue r k) l) ≡ continue (continue r k') l'
  answered-continue (done a t) = same a t
  answered-continue fault = refl
  answered-continue out_of_rounds = refl

answered-start :
    {A B : Type 0} (k : A → Cmd (Option B)) (k' : A → Cmd Bool)
    → ((a : A) (t : State) → answered (k a t) ≡ k' a t)
    → (r : Run A) → answered (continue r k) ≡ continue r k'
answered-start k k' same (done a t) = same a t
answered-start k k' same fault = refl
answered-start k k' same out_of_rounds = refl

answered-measured : (r : Run (Option ℕ)) → answered (continue r measured) ≡ answered r
unfolding measured mem_heapsize
answered-measured (done none t) = refl
answered-measured (done (some peak) t) = refl
answered-measured fault = refl
answered-measured out_of_rounds = refl

option_cases : (r : Option ℕ) → (r ≡ none) ⊎ ((p : ℕ) × (r ≡ some p))
option_cases none = inl refl
option_cases (some p) = inr (p, refl)

module _ (mm : Package) where
  -- The rest of the two loops behind one request.
  abbrev util_rest : List TraceOp → (peak : ℕ) → Option (Trace × ℕ) → Cmd (Option ℕ)
  util_rest ops peak result = elim result [
    | none ↦ pure none
    | some (trace1, total) ↦
        util_requests mm ops trace1 total (if ltb peak total then total else peak)
  ]

  abbrev speed_rest : List TraceOp → Option Trace → Cmd Bool
  speed_rest ops result = elim result [
    | none ↦ pure false
    | some trace1 ↦ speed_requests mm ops trace1
  ]

  -- Where the two loops remember the same blocks, they do the same.
  abbrev Agree : List TraceOp → Type 0
  Agree ops =
      (s : State) (trace trace' : Trace) (total peak : ℕ)
      → trace.num_ids ≡ trace'.num_ids
      → trace.blocks ≡ trace'.blocks
      → answered (util_requests mm ops trace total peak s) ≡ speed_requests mm ops trace' s

  -- What the two loops do behind `mm_malloc` and `mm_realloc`.
  remembered-agrees :
      (ops : List TraceOp)
      → Agree ops
      → (index size total peak p : ℕ) (trace trace' : Trace) (t : State)
      → trace.num_ids ≡ trace'.num_ids
      → trace.blocks ≡ trace'.blocks
      → answered (
          continue
            ((do
              trace1 ← or_fault (set_block trace index p)
              trace2 ← or_fault (set_block_size trace1 index size)
              pure (some (trace2, total)))
              t)
            (util_rest ops peak))
        ≡ continue
            ((do trace1 ← or_fault (set_block trace' index p); pure (some trace1)) t)
            (speed_rest ops)
  remembered-agrees ops rest index size total peak p trace trace' t ids same =
      elim (Bool-cases (ltb index trace'.num_ids)) [
        | inl inside ↦
            let inside' : ltb index trace.num_ids ≡ true = rw ids inside in
            rw (inside, inside')
              (rw inside' (rest t _ _ _ _ ids (ap (λ b i. if i == index then p else b i) same)))
        | inr outside ↦
            let outside' : ltb index trace.num_ids ≡ false = rw ids outside in
            rw (outside, outside') refl
      ]

  block_of-agrees :
      (trace trace' : Trace) (index : ℕ)
      → trace.num_ids ≡ trace'.num_ids
      → trace.blocks ≡ trace'.blocks
      → block_of trace index ≡ block_of trace' index
  unfolding block_of
  block_of-agrees trace trace' index ids same = rw ids (
      ap
        (λ b.
          if index == no_block
          then some 0
          else if ltb index trace'.num_ids
          then some (b index)
          else none)
        same)

  get_block-agrees :
      (trace trace' : Trace) (index : ℕ)
      → trace.num_ids ≡ trace'.num_ids
      → trace.blocks ≡ trace'.blocks
      → get_block trace index ≡ get_block trace' index
  get_block-agrees trace trace' index ids same =
      rw ids (ap (λ b. if ltb index trace'.num_ids then some (b index) else none) same)

  request-agrees :
      (ops : List TraceOp)
      → Agree ops
      → (opcode : TraceOpcode) (lineno index size : ℕ) (s : State) (trace trace' : Trace)
        (total peak : ℕ)
      → trace.num_ids ≡ trace'.num_ids
      → trace.blocks ≡ trace'.blocks
      → (let op : TraceOp = record {
        opcode = opcode;
        lineno = lineno;
        index = index;
        size = size;
      } in
          answered (continue (util_request mm op trace total s) (util_rest ops peak))
          ≡ continue (speed_request mm op trace' s) (speed_rest ops))
  unfolding util_request speed_request
  request-agrees ops rest alloc_op lineno index size s trace trace' total peak ids same =
      answered-continue _ _ _ _
        (λ p t. elim (Bool-cases (p == 0)) [
          | inl null ↦ rw null refl
          | inr some_block ↦
              rw some_block (remembered-agrees ops rest index size _ peak p trace trace' t ids same)
        ])
        (mm.mm_malloc size s)
  request-agrees ops rest realloc_op lineno index size s trace trace' total peak ids same =
      let agree = get_block-agrees trace trace' index ids same in
      elim (option_cases (get_block trace' index)) [
        | inl nothing ↦
            let nothing' : get_block trace index ≡ none = agree ∙ nothing in
            rw (nothing, nothing') refl
        | inr (oldp, here) ↦
            let here' : get_block trace index ≡ some oldp = agree ∙ here in
            rw (here, here')
              (answered-continue _ _ _ _
                (λ p t. elim (Bool-cases (no_room p size)) [
                  | inl full ↦ rw full refl
                  | inr room ↦
                      rw room
                        (remembered-agrees ops rest index size _ peak p trace trace' t ids same)
                ])
                (mm.mm_realloc oldp size s))
      ]
  request-agrees ops rest free_op lineno index size s trace trace' total peak ids same =
      let agree = block_of-agrees trace trace' index ids same in
      elim (option_cases (block_of trace' index)) [
        | inl nothing ↦
            let nothing' : block_of trace index ≡ none = agree ∙ nothing in
            rw (nothing, nothing') refl
        | inr (p, here) ↦
            let here' : block_of trace index ≡ some p = agree ∙ here in
            rw (here, here')
              (answered-continue _ _ _ _ (λ _ t. rest t _ _ _ _ ids same) (mm.mm_free p s))
      ]

  requests-Agree : (ops : List TraceOp) → Agree ops
  unfolding util_requests speed_requests
  requests-Agree [] s trace trace' total peak ids same = refl
  requests-Agree (op ∷ ops) s trace trace' total peak ids same =
      request-agrees ops (requests-Agree ops) op.opcode op.lineno op.index op.size s trace trace'
        total peak ids same

  from-agrees :
      (trace : Trace) (s : State) → answered (util_from mm trace s) ≡ speed_from mm trace s
  unfolding util_from speed_from
  from-agrees trace s =
      answered-start _ _
        (λ ready t. elim (Bool-cases ready) [
          | inl begun ↦ rw begun (
              answered-measured (util_requests mm trace.ops (reinit_trace trace) 0 0 t)
              ∙ requests-Agree trace.ops t (reinit_trace trace) (reinit_trace trace) 0 0 refl refl)
          | inr failed ↦ rw failed refl
        ])
        (mm.mm_init s)

  -- On any package, heap and trace, `eval_mm_speed` is `eval_mm_util` without the measurements: it
  -- gets to its end, with the same state, if and only if the other does, and it exits, faults or loops if
  -- the other does.
  pub eval_mm_util-eval_mm_speed :
      (content : Option (ℕ → ℕ)) (trace : Trace) (s : State)
      → answered (eval_mm_util mm content trace s) ≡ eval_mm_speed mm content trace s
  unfolding eval_mm_util eval_mm_speed mem_reset_brk
  eval_mm_util-eval_mm_speed none trace s = refl
  eval_mm_util-eval_mm_speed (some content) trace s = from-agrees trace _
