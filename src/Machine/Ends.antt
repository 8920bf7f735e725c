-- ===== src/Machine/Ends.antt =====
-- Total correctness of a run: it returns, with no fault and with rounds to spare, and the result
-- and the state that it returns have a property.
use dynamic_memory_allocator.Machine.Command.{State, Run, done, Cmd, continue}

pub data Ends {A : Type 0} (P : A → State → Type 0) : Run A → Type 0 where
  ends : {a : A} {s : State} → P a s → Ends P (done a s)

module _ {A : Type 0} {P : A → State → Type 0} where
  pub Ends-continue :
      {B : Type 0} {Q : B → State → Type 0} {r : Run A} {k : A → Cmd B}
      → Ends P r
      → ((a : A) (s : State) → P a s → Ends Q (k a s))
      → Ends Q (continue r k)
  Ends-continue (ends p) rest = rest _ _ p

  pub Ends-mono :
      {Q : A → State → Type 0} {r : Run A}
      → Ends P r
      → ((a : A) (s : State) → P a s → Q a s)
      → Ends Q r
  Ends-mono (ends p) weaken = ends (weaken _ _ p)

  pub Ends-done : {a : A} {s : State} → Ends P (done a s) → P a s
  Ends-done (ends p) = p
