-- ===== src/Traces/Bounds.antt =====
-- What `read_trace` has checked of a trace that it returns: the number of requests, and, unless the
-- header says 0 ids, that every block id lies within the arrays.
use mathlib.Core.Path.{subst}
use mathlib.Core.Option.{some-injective}
use dynamic_memory_allocator.Base.{
  ℕ, zero, suc, ◌+◌, ◌-◌, ◌%◌, ◌^◌, ◌≤◌, ◌<◌, ◌≡◌, ◌⊎◌, refl, ap, Bool, true, false, not, Option,
  none, some, List, [], ◌∷◌, length, ◌==◌, ltb, if◌then◌else◌, arith, inl, inr, All, All-map,
  Bool-cases, ==_iff, drop, ◌&&◌,
}
use dynamic_memory_allocator.Traces.{
  Trace, TraceOp, Input, Header, read_header_number, read_header, Scan, ◌>>=◌, uint_max, size_max,
  get_next_line, get_header_line, larger, is_empty, read_single_number, read_request, read_requests,
  read_trace,
}

-- The largest id that the header allows; it wraps around where there are no ids.
abbrev pub last_id : ℕ → ℕ
last_id num_ids = (num_ids + 2 ^ 32 - 1) % 2 ^ 32

-- The two parts of a computation that gives a result.
some-bind :
    {A B : Type 0} (m : Option A) (k : A → Option B) (b : B)
    → m >>= k ≡ some b
    → (a : A) × (m ≡ some a) × (k a ≡ some b)
some-bind none k b e = cc
some-bind (some a) k b e = (a, refl, e)

-- The same, for a goal that does not speak of the parts.
on-bind :
    {A B : Type 0} {P : Type 0} (m : Option A) (k : A → Option B) (b : B)
    → m >>= k ≡ some b
    → ((a : A) → m ≡ some a → k a ≡ some b → P)
    → P
on-bind none k b e goal = cc
on-bind (some a) k b e goal = goal a refl e

-- A test that guards a result does not hold.
some-unless :
    {A : Type 0} (test : Bool) (m : Option A) (a : A)
    → (if test then none else m) ≡ some a
    → (test ≡ false) × (m ≡ some a)
some-unless true m a e = cc
some-unless false m a e = (refl, e)

-- What the loop has checked of the requests that it returns, from the one number `op` on.
record IsRead (num_ids num_ops op max_id_used : ℕ) (ops : List TraceOp) : Type 0 where
  pub count : op + length ops ≡ num_ops
  pub highest : max_id_used ≤ last_id num_ids
  pub ids : All (λ r. r.index ≤ last_id num_ids) ops

within-ids :
    (num_ids num_ops : ℕ) (ops : List TraceOp)
    → num_ids ≤ uint_max
    → IsRead num_ids num_ops 0 0 ops
    → (length ops ≡ num_ops) × ((num_ids ≡ 0) ⊎ All (λ op. op.index < num_ids) ops)
within-ids num_ids num_ops ops small is =
    let count = is.count in
    (
      omega arith,
      elim (Bool-cases (num_ids == 0)) [
        | inl none_used ↦ inl ((==_iff num_ids 0).0 none_used)
        | inr some_used ↦
            let positive : 0 < num_ids = ground (arith, some_used) in
            inr (
              All-map (λ r. r.index ≤ last_id num_ids) (λ r. r.index < num_ids) ops
                (λ r below. omega (arith, below, positive, small)) is.ids)
      ],
    )

module _ (strtoul : List ℕ → Scan) where
  read_single_number-le :
      (line : List ℕ) (max n : ℕ) → read_single_number strtoul line max ≡ some n → n ≤ max
  unfolding read_single_number
  read_single_number-le line max n e =
      let scan : Scan = strtoul line in
      let (_, e1) = some-unless (scan.consumed == 0) _ n e in
      let (_, e2) = some-unless (not (is_empty (drop scan.consumed line))) _ n e1 in
      let (_, e3) = some-unless (not (scan.errno == 0)) _ n e2 in
      let (within, e4) = some-unless (ltb max scan.value) (some scan.value) n e3 in
      let here : scan.value ≡ n = some-injective scan.value n e4 in
      let below : ltb max scan.value ≡ false = within in ground (arith, here, below)

  module _ (num_ids num_ops : ℕ) where
    -- What one more line of the file shows, given what the rest of the loop does.
    step-IsRead :
        (k op max_id_used : ℕ) (ops : List TraceOp)
        → ((input : Input) (highest : ℕ) (rest : List TraceOp)
            → read_requests strtoul k num_ids num_ops input (op + 1) highest ≡ some rest
            → op + 1 ≤ num_ops
            → IsRead num_ids num_ops (op + 1) highest rest)
        → op ≤ num_ops
        → (next : Option (List ℕ × Input))
        → (elim next [
          | none ↦
              if ltb op num_ops
              then none
              else if not (max_id_used == last_id num_ids)
              then none
              else some []
          | some (line, input1) ↦
              if op == num_ops
              then none
              else (read_request strtoul line input1.lineno >>= λ request.
                  read_requests strtoul k num_ids num_ops input1
                    (op + 1)
                    (larger request.index max_id_used)
                  >>= λ requests. some (request ∷ requests))
        ])
          ≡ some ops
        → IsRead num_ids num_ops op max_id_used ops
    step-IsRead k op max_id_used ops rest within none e =
        let (not_fewer, e1) = some-unless (ltb op num_ops) _ ops e in
        let (at_last, e2) = some-unless (not (max_id_used == last_id num_ids)) (some []) ops e1 in
        let nothing : [] ≡ ops = some-injective [] ops e2 in
        let enough : num_ops ≤ op = ground (arith, not_fewer) in
        let same : max_id_used ≡ last_id num_ids = ground (arith, at_last) in
        subst (IsRead num_ids num_ops op max_id_used) nothing
          (record { count = omega arith; highest = omega arith; ids = tt })
    step-IsRead k op max_id_used ops rest within (some (line, input1)) e =
        let (not_all, e1) = some-unless (op == num_ops) _ ops e in
        let (request, _, e2) = some-bind (read_request strtoul line input1.lineno) _ ops e1 in
        let (requests, read, e3) =
          some-bind
            (read_requests strtoul k num_ids num_ops input1 (op + 1)
              (larger request.index max_id_used))
            _ ops e2 in
        let whole : request ∷ requests ≡ ops = some-injective (request ∷ requests) ops e3 in
        let more : op + 1 ≤ num_ops = ground (arith, not_all) in
        let behind = rest input1 (larger request.index max_id_used) requests read more in
        let count : op + 1 + length requests ≡ num_ops = behind.count in
        let highest : larger request.index max_id_used ≤ last_id num_ids = behind.highest in
        let both : (request.index ≤ last_id num_ids) × (max_id_used ≤ last_id num_ids) =
          ground (arith, highest) in
        subst (IsRead num_ids num_ops op max_id_used) whole
          (record { count = omega arith; highest = both.1; ids = (both.0, behind.ids) })

    requests-IsRead :
        (k : ℕ) (input : Input) (op max_id_used : ℕ) (ops : List TraceOp)
        → read_requests strtoul k num_ids num_ops input op max_id_used ≡ some ops
        → op ≤ num_ops
        → IsRead num_ids num_ops op max_id_used ops
    unfolding read_requests
    requests-IsRead zero input op max_id_used ops e within = cc
    requests-IsRead (suc k) input op max_id_used ops e within =
        let (next, _, e1) = some-bind (get_next_line input) _ ops e in
        step-IsRead k op max_id_used ops
          (λ input1 highest rest read more.
            requests-IsRead k input1 (op + 1) highest rest read more)
          within next e1

  read_header_number-le :
      (max : ℕ) (input : Input) (n : ℕ) (rest : Input)
      → read_header_number strtoul max input ≡ some (n, rest)
      → n ≤ max
  unfolding read_header_number
  read_header_number-le max input n rest e =
      on-bind (get_header_line input) _ (n, rest) e
        λ header _ e1.
          on-bind (read_single_number strtoul header.0 max) _ (n, rest) e1
            λ m number e2.
              let same : m ≡ n = ap (λ r. r.0) (some-injective (m, header.1) (n, rest) e2) in
              let below = read_single_number-le header.0 max m number in omega arith

  read_header-le :
      (input : Input) (header : Header)
      → read_header strtoul input ≡ some header
      → header.num_ids ≤ uint_max
  unfolding read_header
  read_header-le input header e =
      on-bind (read_header_number strtoul 3 input) _ header e λ first _ e1.
        on-bind (read_header_number strtoul uint_max first.1) _ header e1 λ second ids e2.
          on-bind (read_header_number strtoul uint_max second.1) _ header e2 λ third _ e3.
            on-bind (read_header_number strtoul size_max third.1) _ header e3 λ fourth _ e4.
              let same : second.0 ≡ header.num_ids =
                ap Header.num_ids (some-injective _ header e4) in
              let below : second.0 ≤ uint_max =
                read_header_number-le uint_max first.1 second.0 second.1 ids in
              omega arith

  -- A trace that `read_trace` returns has as many requests as its header says, and if the header
  -- says that there are block ids at all, every id is within them.
  pub read_trace-ids :
      (granted : ℕ → Bool) (input : Input) (trace : Trace)
      → read_trace strtoul granted input ≡ some trace
      → (length trace.ops ≡ trace.num_ops)
        × ((trace.num_ids ≡ 0) ⊎ All (λ op. op.index < trace.num_ids) trace.ops)
  unfolding read_trace
  read_trace-ids granted input trace e =
      on-bind (read_header strtoul input) _ trace e λ header read e1.
        let (_, e2) =
          some-unless (not (granted 1 && granted 2 && granted 3 && granted 4 && granted 5)) _ trace
            e1 in
        on-bind
          (read_requests strtoul (suc (length header.rest.lines)) header.num_ids header.num_ops
            header.rest 0 0)
          _ trace e2
          λ ops requests e3.
            subst
              (λ t.
                (length t.ops ≡ t.num_ops)
                × ((t.num_ids ≡ 0) ⊎ All (λ op. op.index < t.num_ids) t.ops))
              (some-injective _ trace e3)
              (within-ids header.num_ids header.num_ops ops (read_header-le input header read) (
                requests-IsRead header.num_ids header.num_ops (suc (length header.rest.lines))
                  header.rest 0 0 ops requests (omega arith)))
