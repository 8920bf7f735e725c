-- ===== src/Allocator/Requests.antt =====
-- The sizes that `malloc` and `calloc` compute from a request.
use native.Mathlib.Nat.{mod-eq_of_lt, div-add-mod, mul-div_cancel_left}
use dynamic_memory_allocator.Base.{
  ℕ, ◌+◌, ◌-◌, ◌*◌, ◌/◌, ◌%◌, ◌^◌, ◌≤◌, ◌<◌, ◌≡◌, ◌≢◌, ◌↔◌, inl, inr, false, ◌==◌, ==_ne, ==_self,
  ap, Bool-cases, arith,
}
use dynamic_memory_allocator.Block.{wsize, min_block_size}
use dynamic_memory_allocator.Block.Sizes.{round_up-dsize}
use dynamic_memory_allocator.Allocator.{adjusted_size, calloc_refuses}

-- A request of up to 2 ^ 64 - 24 bytes is given a block whose size is a multiple of 16, at least
-- the minimum, and holds the header and the request with less than 16 bytes over.
pub adjusted_size-fits :
    (size : ℕ)
    → size ≤ 2 ^ 64 - 24
    → (adjusted_size size % 16 ≡ 0)
      × (min_block_size ≤ adjusted_size size)
      × (size + wsize ≤ adjusted_size size)
      × (adjusted_size size < size + wsize + 16)
unfolding adjusted_size
adjusted_size-fits size h = omega (arith, round_up-dsize ((size + wsize) % 2 ^ 64) (omega arith))

-- Above that the additions wrap around: the block is no larger than the minimum, and up to a
-- request of 2 ^ 64 - 8 bytes it has no bytes at all.
pub adjusted_size-wraps :
    (size : ℕ)
    → 2 ^ 64 - 24 < size
    → size < 2 ^ 64
    → (adjusted_size size ≤ min_block_size) × (size ≤ 2 ^ 64 - 8 → adjusted_size size ≡ 0)
unfolding adjusted_size
adjusted_size-wraps size h k = omega (arith, round_up-dsize ((size + wsize) % 2 ^ 64) (omega arith))

-- The quotient by the first factor gives the second back, if the product did not wrap around.
exact : (elements size : ℕ) → elements ≢ 0 → elements * size / elements ≡ size
exact elements size h = mul-div_cancel_left size (omega arith)

no_overflow :
    (elements size : ℕ) → elements * size % 2 ^ 64 / elements ≡ size → elements * size < 2 ^ 64
no_overflow elements size h =
    let low = elements * size % 2 ^ 64 in
    omega (arith, div-add-mod low elements, ap (λ (q : ℕ). elements * q) h)

-- `calloc` refuses exactly the requests with no elements, or with more bytes than 2 ^ 64 - 1.
pub calloc_refuses_iff :
    (elements size : ℕ)
    → elements < 2 ^ 64
    → size < 2 ^ 64
    → (calloc_refuses elements size ≡ false) ↔ ((elements ≢ 0) × (elements * size < 2 ^ 64))
unfolding calloc_refuses
calloc_refuses_iff elements size he hs = (
  λ h. elim (Bool-cases (elements == 0)) [
    | inl e ↦ cc
    | inr ne ↦ (ground arith, no_overflow elements size (ground arith))
  ],
  λ h. rw (==_ne elements 0 h.0, mod-eq_of_lt h.1, exact elements size h.0, ==_self size),
)
