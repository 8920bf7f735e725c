-- ===== src/Ranges.antt =====
-- mdriver.c, the set of the allocated payloads' ranges: a doubly linked list of ranges and a splay
-- tree of them by their low addresses.
pub mod Links
use dynamic_memory_allocator.Base.{
  ℕ, ◌+◌, ◌%◌, Bool, true, false, not, ◌&&◌, ◌||◌, Option, none, some, ◌==◌, leb, ltb,
  if◌then◌else◌, add64, sub64,
}
use dynamic_memory_allocator.Tree.{
  Tree, Node, tree_new, tree_find_nearest, tree_insert, tree_remove,
}

-- `range_t`, at an address; 0 is `NULL`.
pub record Range : Type 0 where
  pub lo : ℕ
  pub hi : ℕ
  pub index : ℕ
  pub next : ℕ
  pub prev : ℕ

-- `range_set_t`, with the store of the ranges.
pub record RangeSet : Type 0 where
  pub ranges : ℕ → Range
  pub list : ℕ
  pub lo_tree : Tree

pub data DebugMode : Type 0 where
  dbg_none : DebugMode
  dbg_cheap : DebugMode
  dbg_expensive : DebugMode

-- ALIGNMENT of config.h
abbrev pub payload_alignment : ℕ
payload_alignment = 16

unfoldable pub is_aligned : ℕ → Bool
is_aligned p = p % payload_alignment == 0

abbrev on_range : (Range → Range) → RangeSet → ℕ → RangeSet
on_range f r a = record r { ranges = λ i. if i == a then f (r.ranges i) else r.ranges i }

abbrev pub set_next : RangeSet → ℕ → ℕ → RangeSet
set_next r a x = on_range (λ g. record g { next = x }) r a

abbrev pub set_prev : RangeSet → ℕ → ℕ → RangeSet
set_prev r a x = on_range (λ g. record g { prev = x }) r a

unfoldable pub new_range_set : (ℕ → Range) → (ℕ → Node) → RangeSet
new_range_set ranges nodes = record { ranges = ranges; list = 0; lo_tree = tree_new nodes }

-- Both ends of a payload lie in the heap from `heap_lo` to `heap_hi`.
unfoldable pub outside_heap : (heap_lo heap_hi lo hi : ℕ) → Bool
outside_heap heap_lo heap_hi lo hi =
    ltb lo heap_lo || ltb heap_hi lo || ltb hi heap_lo || ltb heap_hi hi

unfoldable pub overlaps_neighbour : RangeSet → (lo hi prev next : ℕ) → Bool
overlaps_neighbour r lo hi prev next =
    (not (prev == 0) && leb lo (r.ranges prev).hi) || (not (next == 0) && leb (r.ranges next).lo hi)

-- `prev ? prev->next : NULL`
unfoldable pub successor : RangeSet → ℕ → ℕ
successor r prev = if prev == 0 then 0 else (r.ranges prev).next

-- Links the new range `p` between its neighbours.
unfoldable pub link_range : RangeSet → (p lo hi index prev next : ℕ) → RangeSet
link_range r p lo hi index prev next =
    let made : Range = record { lo = lo; hi = hi; index = index; next = next; prev = prev } in
    let r1 = if prev == 0 then record r { list = p } else set_next r prev p in
    let r2 = if next == 0 then r1 else set_prev r1 next p in on_range (λ _. made) r2 p

-- The part of `add_range` behind its early returns: look up the predecessor, check against it and
-- its successor, and link the range `p` in.
unfoldable pub track_range : RangeSet → (p fresh lo hi index : ℕ) → Option (Bool × RangeSet)
track_range r p fresh lo hi index = elim (tree_find_nearest r.lo_tree lo) [
  | none ↦ none
  | some (prev, t) ↦
      let r1 = record r { lo_tree = t } in
      let next = successor r prev in
      if overlaps_neighbour r lo hi prev next
      then some (false, r1)
      else elim (tree_insert t fresh lo p) [
        | none ↦ none
        | some (_, t1) ↦
            some (true, link_range (record r1 { lo_tree = t1 }) p lo hi index prev next)
      ]
]

-- `p` and `fresh` are the addresses that `malloc` gives for the new range and for its node in the
-- tree; on its failure the source exits.
-- `none` is the failed assertion, or a look-up or an insertion in the tree that needs too many rounds.
unfoldable pub add_range :
    DebugMode
    → (heap_lo heap_hi : ℕ) → RangeSet
    → (p fresh lo size index : ℕ) → Option (Bool × RangeSet)
unfolding is_aligned outside_heap track_range
add_range mode heap_lo heap_hi r p fresh lo size index =
    let hi = sub64 (add64 lo size) 1 in
    if size == 0
    then none
    else if not (is_aligned lo) || outside_heap heap_lo heap_hi lo hi
    then some (false, r)
    else elim mode [ dbg_none ↦ some (true, r) | _ ↦ track_range r p fresh lo hi index ]

unfoldable pub unlink_range : RangeSet → ℕ → RangeSet
unlink_range r p =
    let prev = (r.ranges p).prev in
    let next = (r.ranges p).next in
    let r1 = if prev == 0 then record r { list = next } else set_next r prev next in
    if next == 0 then r1 else set_prev r1 next prev

unfoldable pub remove_range : RangeSet → ℕ → Option RangeSet
unfolding unlink_range
remove_range r lo = elim (tree_remove r.lo_tree lo) [
  | none ↦ none
  | some (p, t) ↦
      let r1 = record r { lo_tree = t } in some (if p == 0 then r1 else unlink_range r1 p)
]
