-- ===== src/Machine/Command.antt =====
-- The state, the commands and their sequencing.
use dynamic_memory_allocator.Base.{ℕ, Bool}
use dynamic_memory_allocator.Machine.Memory.{Bytes}

-- `pagesize` is what `sysconf(_SC_PAGESIZE)` gives, and `mprotect` answers for the call of that
-- name, true for success; both belong to the operating system. `seg_list` is indexed below LENGTH
-- only. An address 0 is `NULL`.
pub record State : Type 0 where
  pub bytes : Bytes
  pub heap : ℕ
  pub mem_brk : ℕ
  pub mem_brk_chunk : ℕ
  pub mem_max_addr : ℕ
  pub pagesize : ℕ
  pub mprotect : ℕ → ℕ → Bool
  pub heap_start : ℕ
  pub seg_list : ℕ → ℕ
  pub mini_list : ℕ

-- A run returns, touches memory outside the heap, or uses up the rounds given to a loop.
pub data Run (A : Type 0) : Type 0 where
  done : A → State → Run A
  fault : Run A
  out_of_rounds : Run A

abbrev pub Cmd : Type 0 → Type 0
Cmd A = State → Run A

abbrev pub pure : {A : Type 0} → A → Cmd A
pure a s = done a s

module _ {A B : Type 0} where
  abbrev pub continue : Run A → (A → Cmd B) → Run B
  continue (done a s) k = k a s
  continue fault k = fault
  continue out_of_rounds k = out_of_rounds

infixl 5 ◌>>=◌ ◌>>◌
abbrev pub ◌>>=◌ : {A B : Type 0} → Cmd A → (A → Cmd B) → Cmd B
◌>>=◌ m k s = continue (m s) k

abbrev pub ◌>>◌ : {B : Type 0} → Cmd (Unit {0}) → Cmd B → Cmd B
m >> n = m >>= λ _. n

-- The value of a static variable.
abbrev pub get : {A : Type 0} → (State → A) → Cmd A
get f s = done (f s) s

abbrev pub modify : (State → State) → Cmd (Unit {0})
modify f s = done tt (f s)
