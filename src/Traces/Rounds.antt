-- ===== src/Traces/Rounds.antt =====
-- The rounds that `read_trace` gives its loop are enough: more of them change nothing.
use mathlib.Core.Option.{some-injective}
use dynamic_memory_allocator.Base.{
  ℕ, zero, suc, ◌+◌, ◌<◌, ◌≡◌, ◌⊎◌, refl, ap, Bool, true, false, Option, none, some, List, [], ◌∷◌,
  length, arith, inl, inr, Bool-cases, ◌==◌,
}
use dynamic_memory_allocator.Traces.{
  Input, Scan, to_nul, skip_blanks, at_line_end, next_line_of, next_lineno, get_next_line, larger,
  read_request, read_requests,
}

-- A line that is read is no longer left.
next_line_of-shorter :
    (lines : List (List ℕ)) (ferror : Bool) (lineno : ℕ) (text : List ℕ) (rest : Input)
    → next_line_of lines ferror lineno ≡ some (some (text, rest))
    → length rest.lines < length lines
unfolding next_line_of
next_line_of-shorter [] true lineno text rest e = cc
next_line_of-shorter [] false lineno text rest e =
    let wrong : ◌≡◌ {A = Option (List ℕ × Input)} none (some (text, rest)) =
      some-injective none (some (text, rest)) e in
    cc
next_line_of-shorter (line ∷ lines) ferror lineno text rest e =
    elim (Bool-cases (at_line_end (skip_blanks (to_nul line)))) [
      | inl blank ↦
          omega (
            arith,
            next_line_of-shorter lines ferror (next_lineno lineno) text rest (rw blank at e),
          )
      | inr some_text ↦
          let read = rw some_text at e in
          let same =
            ap (λ r. length r.1.lines) (some-injective _ (text, rest) (some-injective _ _ read)) in
          omega arith
    ]

get_next_line-shorter :
    (input : Input) (line : List ℕ × Input)
    → get_next_line input ≡ some (some line)
    → length line.1.lines < length input.lines
unfolding get_next_line
get_next_line-shorter input line e =
    next_line_of-shorter input.lines input.ferror input.lineno line.0 line.1 e

Option-cases : {A : Type 0} (m : Option A) → (m ≡ none) ⊎ ((a : A) × (m ≡ some a))
Option-cases none = inl refl
Option-cases (some a) = inr (a, refl)

next-cases :
    {A : Type 0} (m : Option (Option A))
    → (m ≡ none) ⊎ ((m ≡ some none) ⊎ ((a : A) × (m ≡ some (some a))))
next-cases none = inl refl
next-cases (some none) = inr (inl refl)
next-cases (some (some a)) = inr (inr (a, refl))

-- Two numbers of rounds that exceed the lines left give the same requests.
pub read_requests-rounds :
    (strtoul : List ℕ → Scan) (k k' num_ids num_ops : ℕ) (input : Input) (op max_id_used : ℕ)
    → length input.lines < k
    → length input.lines < k'
    → read_requests strtoul k num_ids num_ops input op max_id_used
      ≡ read_requests strtoul k' num_ids num_ops input op max_id_used
unfolding read_requests
read_requests-rounds strtoul zero k' num_ids num_ops input op m enough enough' =
    absurd (omega arith)
read_requests-rounds strtoul (suc k) zero num_ids num_ops input op m enough enough' =
    absurd (omega arith)
read_requests-rounds strtoul (suc k) (suc k') num_ids num_ops input op m enough enough' =
    elim (next-cases (get_next_line input)) [
      | inl e ↦ rw e refl
      | inr (inl e) ↦ rw e refl
      | inr (inr (line, e)) ↦
          let shorter = get_next_line-shorter input line e in
          elim (Bool-cases (op == num_ops)) [
            | inl all ↦ rw (e, all) refl
            | inr more ↦ elim (Option-cases (read_request strtoul line.0 line.1.lineno)) [
              | inl refused ↦ rw (e, more, refused) refl
              | inr (request, found) ↦
                  rw
                    (
                      e,
                      more,
                      found,
                      read_requests-rounds strtoul k k' num_ids num_ops line.1 (op + 1)
                          (larger request.index m) (omega arith) (omega arith),
                    )
                    refl
            ]
          ]
    ]
