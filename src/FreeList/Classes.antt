-- ===== src/FreeList/Classes.antt =====
-- `find_class`: its range, the bounds of its classes, and its order.
use dynamic_memory_allocator.Base.{ℕ, suc, ◌≤◌, ◌<◌, ◌≡◌, List, [], ◌∷◌, leb, if◌then◌else◌, arith}
use dynamic_memory_allocator.FreeList.{find_class, seg_length}

-- The sizes below which the classes end; the last class has no end.
abbrev class_ends : List ℕ
class_ends =
    32 ∷ 64 ∷ 128 ∷ 256 ∷ 512 ∷ 1024 ∷ 2048 ∷ 3072 ∷ 4096 ∷ 6656 ∷ 8192 ∷ 16384 ∷ 32768 ∷ []

-- How many of the limits a size has reached.
unfoldable pub reached : ℕ → List ℕ → ℕ
reached size [] = 0
reached size (e ∷ es) = if leb e size then suc (reached size es) else 0

-- `find_class` counts the limits that the size has reached.
find_class-reached : (size : ℕ) → find_class size ≡ reached size class_ends
unfolding find_class reached
find_class-reached size = ground arith

reached_mono : (a b : ℕ) (es : List ℕ) → a ≤ b → reached a es ≤ reached b es
unfolding reached
reached_mono a b [] h = omega arith
reached_mono a b (e ∷ es) h = ground (arith, reached_mono a b es h)

pub find_class-lt : (size : ℕ) → find_class size < seg_length
unfolding find_class
find_class-lt size = ground arith

-- A larger size has no smaller class.
pub find_class_mono : (a b : ℕ) → a ≤ b → find_class a ≤ find_class b
find_class_mono a b h =
    rw (find_class-reached a, find_class-reached b) (reached_mono a b class_ends h)
