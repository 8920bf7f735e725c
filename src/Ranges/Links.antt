-- ===== src/Ranges/Links.antt =====
-- Unlinking a range right after it was linked.
use dynamic_memory_allocator.Base.{ℕ, ◌≡◌, ◌≢◌, arith}
use dynamic_memory_allocator.Ranges.{RangeSet, link_range, unlink_range}

-- `prev` and `next` are neighbours in the list, where 0 stands for its two ends.
pub record AreNeighbours (r : RangeSet) (prev next : ℕ) : Type 0 where
  pub forward : prev ≢ 0 → (r.ranges prev).next ≡ next
  pub backward : next ≢ 0 → (r.ranges next).prev ≡ prev
  pub first : prev ≡ 0 → r.list ≡ next
  pub distinct : prev ≢ 0 → prev ≢ next

module _ (r : RangeSet) (p lo hi index prev next : ℕ) where
  -- To link a new range, at an address of its own, between neighbours and to unlink it again leaves
  -- the head of the list and the links of every other range as they were.
  pub unlink_range-link_range :
      AreNeighbours r prev next
      → p ≢ 0
      → p ≢ prev
      → p ≢ next
      → (a : ℕ) → a ≢ p
      → ((unlink_range (link_range r p lo hi index prev next) p).list ≡ r.list)
        × (((unlink_range (link_range r p lo hi index prev next) p).ranges a).next
            ≡ (r.ranges a).next)
        × (((unlink_range (link_range r p lo hi index prev next) p).ranges a).prev
            ≡ (r.ranges a).prev)
  unfolding link_range unlink_range
  unlink_range-link_range h some_p from_prev from_next a other =
      let forward = h.forward in
      let backward = h.backward in
      let first = h.first in let distinct = h.distinct in (ground arith, ground arith, ground arith)
