-- ===== src/Heap/Served.antt =====
-- A client of `malloc` and `free` whose requests are served: each grant has a block in use of its own.
use mathlib.Core.Path.{subst}
use dynamic_memory_allocator.Base.{
  ap, ℕ, ◌+◌, ◌^◌, ◌≤◌, ◌<◌, ◌≡◌, ◌≢◌, ◌⊎◌, ◌∙◌, refl, sym, true, false, List, [], ◌∷◌, ◌++◌, arith,
  inl, inr, All, All-append, All-drop_middle, All-map, All-both,
}
use dynamic_memory_allocator.Machine.{State}
use dynamic_memory_allocator.Machine.Ends.{Ends, ends, Ends-mono}
use dynamic_memory_allocator.Block.{null}
use dynamic_memory_allocator.Allocator.{malloc, free}
use dynamic_memory_allocator.Heap.{Piece}
use dynamic_memory_allocator.Heap.Tiles.{extent, Tiles-split}
use dynamic_memory_allocator.Heap.Walk.{address}
use dynamic_memory_allocator.Heap.Blocks.{
  UsedIn, UsedIn-append, UsedIn-append_of, UsedIn-split, UsedIn-bounds, AroundUsed,
}
use dynamic_memory_allocator.Heap.Allocate.{IsSound, IsGiven, malloc-IsGiven}
use dynamic_memory_allocator.Memlib.{mem_write}
use dynamic_memory_allocator.Heap.Write.{mem_write-payload, payload-IsSound}
use dynamic_memory_allocator.Machine.ReadWrite.{read-write-Apart}
use dynamic_memory_allocator.Memlib.Word.{word}
use dynamic_memory_allocator.Heap.Dispose.{IsReleased, free-IsReleased}

-- A request that was met and not yet freed.
pub record Grant : Type 0 where
  pub payload : ℕ
  pub size : ℕ

-- A block in use of the heap serves the grant.
pub record IsHeld (s : State) (ps : List Piece) (g : Grant) : Type 0 where
  pub block : ℕ
  pub room : ℕ
  pub at : g.payload ≡ block + 8
  pub block_used : UsedIn (s.heap + 8) ps block room
  pub enough : g.size + 8 ≤ room

abbrev pub Other : Grant → Grant → Type 0
Other g h = h.payload ≢ g.payload

abbrev pub Distinct : List Grant → Type 0
Distinct [] = Unit
Distinct (g ∷ gs) = All (Other g) gs × Distinct gs

-- A grant of the list has the payload `p`.
abbrev pub Holds : List Grant → ℕ → Type 0
Holds [] p = ⊥
Holds (g ∷ gs) p = (p ≡ g.payload) ⊎ Holds gs p

pub Holds-drop :
    (before : List Grant) (g : Grant) (after : List Grant) (p : ℕ)
    → p ≢ g.payload
    → Holds (before ++ g ∷ after) p
    → Holds (before ++ after) p
Holds-drop [] g after p other (inl e) = absurd (other e)
Holds-drop [] g after p other (inr h) = h
Holds-drop (b ∷ before) g after p other (inl e) = inl e
Holds-drop (b ∷ before) g after p other (inr h) = inr (Holds-drop before g after p other h)

-- The heap is sound, each grant has a block of its own, and no other block is in use.
pub record IsServed (s : State) (live : List Grant) : Type 0 where
  pub ps : List Piece
  pub sound : IsSound s ps
  pub held : All (IsHeld s ps) live
  pub distinct : Distinct live
  pub only : (b k : ℕ) → UsedIn (s.heap + 8) ps b k → Holds live (b + 8)

pub Distinct-drop :
    (before : List Grant) (g : Grant) (after : List Grant)
    → Distinct (before ++ g ∷ after)
    → Distinct (before ++ after) × All (Other g) (before ++ after)
Distinct-drop [] g after h = (h.1, h.0)
Distinct-drop (b ∷ before) g after h =
    let rest = Distinct-drop before g after h.1 in
    let first = (All-append (Other b) before (g ∷ after) h.0).1.0 in
    ((All-drop_middle (Other b) before g after h.0, rest.0), ((λ e. first (sym e)), rest.1))

module _ (s : State) (live : List Grant) (h : IsServed s live) (t : State) where
  given-IsServed :
      (size r : ℕ)
      → IsGiven s h.ps size r t
      → IsServed t (record { payload = r; size = size } ∷ live)
  given-IsServed size r is =
      let new : Piece = record { size = is.room; alloc = true } in
      let tiles =
        Tiles-split t.bytes (t.heap + 8) true false is.xs (new ∷ is.zs) _
          is.sound.ready.heap.tiles in
      let room : 16 ≤ is.room = tiles.1.0.least in
      record {
        ps = is.xs ++ new ∷ is.zs;
        sound = is.sound;
        held = (
          record {
            block = address t is.xs;
            room = is.room;
            at = is.here;
            block_used =
                UsedIn-append_of (t.heap + 8) is.xs (new ∷ is.zs) _ _
                  (inr (inl (refl, refl, refl)));
            enough = is.enough;
          },
          All-map (IsHeld s h.ps) _ live
              (λ g i. record {
                block = i.block;
                room = i.room;
                at = i.at;
                block_used = elim (is.blocks i.block i.room i.block_used) [
                  | inl u ↦ UsedIn-append_of (t.heap + 8) is.xs (new ∷ is.zs) _ _ (inl u)
                  | inr u ↦ UsedIn-append_of (t.heap + 8) is.xs (new ∷ is.zs) _ _ (inr (inr u))
                ];
                enough = i.enough;
              })
              h.held,
        );
        distinct = (
          All-map (IsHeld s h.ps) _ live
              (λ g i e.
                let here : r ≡ address t is.xs + 8 = is.here in
                let there : g.payload ≡ i.block + 8 = i.at in
                elim (is.blocks i.block i.room i.block_used) [
                  | inl u ↦ let at_b = UsedIn-bounds _ _ _ _ is.xs _ _ _ tiles.0 u in omega arith
                  | inr u ↦ let at_b = UsedIn-bounds _ _ _ _ is.zs _ _ _ tiles.1.1 u in omega arith
                ])
              h.held,
          h.distinct,
        );
        only = λ b k u. elim (UsedIn-append (t.heap + 8) is.xs (new ∷ is.zs) b k u) [
          | inl v ↦ inr (h.only b k (is.only b k (inl v)))
          | inr (inl v) ↦ let here : r ≡ address t is.xs + 8 = is.here in inl (omega (arith, v.0))
          | inr (inr v) ↦ inr (h.only b k (is.only b k (inr v)))
        ];
      }

-- The heap stays where it is and does not shrink.
pub record IsGrown (s t : State) : Type 0 where
  pub base : t.heap ≡ s.heap
  pub grown : s.mem_brk ≤ t.mem_brk

pub IsGrown-trans : (s t u : State) → IsGrown s t → IsGrown t u → IsGrown s u
IsGrown-trans s t u h k =
    let first = h.grown in
    let second = k.grown in record { base = k.base ∙ h.base; grown = omega arith }

module _ (s : State) (before : List Grant) (g : Grant) (after : List Grant)
    (h : IsServed s (before ++ g ∷ after)) where
  pub own : IsHeld s h.ps g
  own = (All-append (IsHeld s h.ps) before (g ∷ after) h.held).1.0

  -- The block of the grant among the pieces.
  own_split :
      (xs : List Piece) × (ys : List Piece) × (h.ps
        ≡ xs ++ record { size = own.room; alloc = true } ∷ ys)
      × (own.block ≡ s.heap + 8 + extent xs)
  own_split = UsedIn-split (s.heap + 8) h.ps own.block own.room own.block_used

  abbrev left : List Piece
  left = own_split.0

  abbrev right : List Piece
  right = own_split.1

  still_held :
      (t : State) (is : IsReleased s left own.room right t) (i : Grant)
      → IsHeld s h.ps i
      → Other g i
      → IsHeld t is.qs i
  still_held t is i held other =
      let gap : Piece = record { size = own.room; alloc = true } in
      let here : g.payload ≡ own.block + 8 = own.at in
      let start : own.block ≡ s.heap + 8 + extent left = own_split.3 in
      let there : i.payload ≡ held.block + 8 = held.at in
      record {
        block = held.block;
        room = held.room;
        at = held.at;
        block_used =
            elim (UsedIn-append (s.heap + 8) left (gap ∷ right) held.block held.room (
              subst (λ l. UsedIn (s.heap + 8) l held.block held.room) own_split.2
                held.block_used)) [
                  | inl u ↦ is.blocks held.block held.room (inl u)
                  | inr (inl u) ↦ absurd (other (omega (arith, u.0)))
                  | inr (inr u) ↦ is.blocks held.block held.room (inr u)
                ];
        enough = held.enough;
      }

  -- A block in use on either side of that of the grant is another one.
  only_others :
      (b i : ℕ)
      → AroundUsed s.heap left (address s left + own.room) right b i
      → Holds (before ++ after) (b + 8)
  only_others b i u =
      let gap : Piece = record { size = own.room; alloc = true } in
      let tiles =
        Tiles-split s.bytes (s.heap + 8) true false left (gap ∷ right) _
          (subst (λ l. IsSound s l) own_split.2 h.sound).ready.heap.tiles in
      let least : 16 ≤ own.room = tiles.1.0.least in
      let here : g.payload ≡ own.block + 8 = own.at in
      let start : own.block ≡ s.heap + 8 + extent left = own_split.3 in
      let among =
        subst (λ l. UsedIn (s.heap + 8) l b i) (sym own_split.2)
          (UsedIn-append_of (s.heap + 8) left (gap ∷ right) b i
            (elim u [ inl v ↦ inl v | inr v ↦ inr (inr v) ])) in
      let other : b + 8 ≢ g.payload = elim u [
        | inl v ↦ let at_b = UsedIn-bounds _ _ _ _ left _ _ _ tiles.0 v in omega arith
        | inr v ↦ let at_b = UsedIn-bounds _ _ _ _ right _ _ _ tiles.1.1 v in omega arith
      ] in
      Holds-drop before g after (b + 8) other (h.only b i among)

  released-IsServed :
      (t : State) → IsReleased s left own.room right t → IsServed t (before ++ after)
  released-IsServed t is =
      let (distinct, others) = Distinct-drop before g after h.distinct in
      record {
        ps = is.qs;
        sound = is.sound;
        held =
            All-both (IsHeld s h.ps) (Other g) (IsHeld t is.qs) (still_held t is) (before ++ after)
              (All-drop_middle (IsHeld s h.ps) before g after h.held) others;
        distinct = distinct;
        only = λ b i u. only_others b i (is.only b i u);
      }

  pub free-IsGrown : Ends (λ _ t. IsServed t (before ++ after) × IsGrown s t) (free g.payload s)
  free-IsGrown =
      let at : g.payload ≡ address s left + 8 = omega (arith, own.at, own_split.3) in
      subst (λ b. Ends (λ _ t. IsServed t (before ++ after) × IsGrown s t) (free b s)) (sym at)
        (Ends-mono (free-IsReleased s left own.room right (subst (IsSound s) own_split.2 h.sound))
          λ _ t is.
            let brk = is.brk in
            (released-IsServed t is, record { base = is.base; grown = omega arith }))

  -- `free` of a grant ends and keeps the others served.
  pub free-IsServed : Ends (λ _ t. IsServed t (before ++ after)) (free g.payload s)
  free-IsServed = Ends-mono free-IsGrown λ _ t is. is.0

-- A change of the payload of a block in use keeps the client served.
pub payload-IsServed :
    (s : State) (live : List Grant) (h : IsServed s live) (b k : ℕ)
    → UsedIn (s.heap + 8) h.ps b k
    → (t : State) → t ≡ record s { bytes = t.bytes }
    → ((y : ℕ) → (y ≤ b) ⊎ (b + k ≤ y) → word t.bytes y ≡ word s.bytes y)
    → IsServed t live
payload-IsServed s live h b k used t state same =
    let base : s.heap ≡ t.heap = sym (ap State.heap state) in
    record {
      ps = h.ps;
      sound = payload-IsSound s h.ps h.sound b k used t state same;
      held =
          All-map (IsHeld s h.ps) _ live
            (λ i held. record {
              block = held.block;
              room = held.room;
              at = held.at;
              block_used =
                  subst (λ a. UsedIn (a + 8) h.ps held.block held.room) base held.block_used;
              enough = held.enough;
            })
            h.held;
      distinct = h.distinct;
      only = λ c i u. h.only c i (subst (λ a. UsedIn (a + 8) h.ps c i) (sym base) u);
    }

-- A write to a payload that the client holds goes through and keeps the client served.
pub store-IsServed :
    (s : State) (before : List Grant) (g : Grant) (after : List Grant)
    → IsServed s (before ++ g ∷ after)
    → (x v n : ℕ) → g.payload ≤ x
    → x + n ≤ g.payload + g.size
    → Ends (λ _ t. IsServed t (before ++ g ∷ after)) (mem_write x v n s)
store-IsServed s before g after h x v n lower upper =
    let mine = own s before g after h in
    let at : g.payload ≡ mine.block + 8 = mine.at in
    let enough : g.size + 8 ≤ mine.room = mine.enough in
    let from : mine.block + 8 ≤ x = omega arith in
    let to : x + n ≤ mine.block + mine.room = omega arith in
    rw (mem_write-payload s h.ps h.sound mine.block mine.room mine.block_used x v n from to) (
      ends (
        payload-IsServed s (before ++ g ∷ after) h mine.block mine.room mine.block_used _ refl
          λ y far. read-write-Apart s.bytes x v n y 8 (omega arith)))

-- What `malloc` answers a served client.
abbrev pub IsMet : State → List Grant → (size r : ℕ) → State → Type 0
IsMet s live size r t =
    ((r ≡ null) × (t ≡ s))
    ⊎ ((0 < size) × IsServed t (record { payload = r; size = size } ∷ live) × IsGrown s t)

pub malloc-IsMet :
    (s : State) (live : List Grant)
    → IsServed s live
    → (size : ℕ) → size < 2 ^ 61
    → Ends (IsMet s live size) (malloc size s)
malloc-IsMet s live h size small = Ends-mono (malloc-IsGiven s h.ps h.sound size small) λ r t is.
    elim is [
      | inl failed ↦ inl failed
      | inr (bytes, given) ↦ inr (
        bytes,
        given-IsServed s live h t size r given,
        record { base = given.base; grown = given.grown },
      )
    ]

-- `malloc` on a served client ends; its answer is `NULL`, with nothing changed, or a grant of its
-- own.
pub malloc-IsServed :
    (s : State) (live : List Grant)
    → IsServed s live
    → (size : ℕ) → size < 2 ^ 61
    → Ends
        (λ r t. ((r ≡ null) × (t ≡ s)) ⊎ IsServed t (record { payload = r; size = size } ∷ live))
        (malloc size s)
malloc-IsServed s live h size small =
    Ends-mono (malloc-IsMet s live h size small)
      λ r t is. elim is [ inl failed ↦ inl failed | inr (bytes, served, grown) ↦ inr served ]
