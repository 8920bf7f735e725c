-- ===== src/Tree/Find.antt =====
-- What look-up gives on an ordered tree.
use mathlib.Core.Bool.{true≢false}
use dynamic_memory_allocator.Base.{
  ℕ, zero, suc, ◌+◌, ◌≤◌, ◌<◌, ◌≡◌, ◌≢◌, ◌⊎◌, ◌∙◌, refl, sym, ap, inl, inr, true, false, Option,
  none, some, ◌==◌, if◌then◌else◌, ltb_iff, ==_iff, ==_ne, Bool-cases, arith,
}
use dynamic_memory_allocator.Tree.{
  Tree, signed_rank, key_less, left_of, right_of, key_of, record_of, compared, walk, tree_find,
}

-- The form of a tree, with the address of each node.
pub data Shape : Type 0 where
  leaf : Shape
  branch : (l : Shape) (x : ℕ) (r : Shape) → Shape

abbrev pub size : Shape → ℕ
size leaf = 0
size (branch l x r) = suc (size l + size r)

abbrev pub Each : (ℕ → Type 0) → Shape → Type 0
Each P leaf = Unit
Each P (branch l x r) = P x × Each P l × Each P r

abbrev pub In : ℕ → Shape → Type 0
In x leaf = ⊥
In x (branch l y r) = (x ≡ y) ⊎ (In x l ⊎ In x r)

Each-mono : {P Q : ℕ → Type 0} (T : Shape) → ((x : ℕ) → P x → Q x) → Each P T → Each Q T
Each-mono leaf f h = tt
Each-mono (branch l x r) f h = (f x h.0, Each-mono l f h.1, Each-mono r f h.2)

module _ (t : Tree) where
  -- The node `z` of the store heads a tree of this form.
  abbrev pub Holds : Shape → ℕ → Type 0
  Holds leaf z = z ≡ 0
  Holds (branch l x r) z = (z ≡ x) × (x ≢ 0) × Holds l (left_of t x) × Holds r (right_of t x)

  abbrev pub rank : ℕ → ℕ
  rank x = signed_rank (key_of t x)

  abbrev pub IsOrdered : Shape → Type 0
  IsOrdered leaf = Unit
  IsOrdered (branch l x r) =
      Each (λ y. rank y < rank x) l × Each (λ y. rank x < rank y) r × IsOrdered l × IsOrdered r

  module _ (key : ℕ) where
    data Walked (T : Shape) : Option (ℕ × ℕ × ℕ) → Type 0 where
      found : {x p n : ℕ} → x ≢ 0 → In x T → key_of t x ≡ key → Walked T (some (x, p, n))
      missing : {p n : ℕ} → Each (λ y. key_of t y ≢ key) T → Walked T (some (0, p, n))

    -- The record of the key, or `NULL` where no node has the key; nothing but the count of
    -- comparisons changes.
    pub data LookedUp (T : Shape) : Option (ℕ × Tree) → Type 0 where
      hit : (x n : ℕ) → In x T → key_of t x ≡ key → LookedUp T (some (record_of t x, compared n t))
      miss : (n : ℕ) → Each (λ y. key_of t y ≢ key) T → LookedUp T (some (0, compared n t))

    Walked-left :
        (l r : Shape) (x : ℕ) {o : Option (ℕ × ℕ × ℕ)}
        → key_of t x ≢ key
        → Each (λ y. key_of t y ≢ key) r
        → Walked l o
        → Walked (branch l x r) o
    Walked-left l r x here others (found ok at e) = found ok (inr (inl at)) e
    Walked-left l r x here others (missing none_left) = missing (here, none_left, others)

    Walked-right :
        (l r : Shape) (x : ℕ) {o : Option (ℕ × ℕ × ℕ)}
        → key_of t x ≢ key
        → Each (λ y. key_of t y ≢ key) l
        → Walked r o
        → Walked (branch l x r) o
    Walked-right l r x here others (found ok at e) = found ok (inr (inr at)) e
    Walked-right l r x here others (missing none_left) = missing (here, others, none_left)

    module _ (k p x n : ℕ) (ok : x ≢ 0) where
      walk-hit : key ≡ key_of t x → walk (suc k) t key p x n ≡ some (x, p, n + 1)
      unfolding walk
      walk-hit e = ground arith

      walk-up :
          key ≢ key_of t x
          → key_less (key_of t x) key ≡ true
          → walk (suc k) t key p x n ≡ walk k t key x (right_of t x) (n + 2)
      unfolding walk
      walk-up other up = ground arith

      walk-down :
          key ≢ key_of t x
          → key_less (key_of t x) key ≡ false
          → walk (suc k) t key p x n ≡ walk k t key x (left_of t x) (n + 2)
      unfolding walk
      walk-down other down = ground arith

    above : (x y : ℕ) → key_less (key_of t x) key ≡ true → rank y < rank x → key_of t y ≢ key
    unfolding key_less
    above x y up less e = let same = ap signed_rank e in omega (arith, (ltb_iff _ _).0 up)

    below : (x y : ℕ) → key_less (key_of t x) key ≡ false → rank x < rank y → key_of t y ≢ key
    unfolding key_less
    below x y down less e =
        let same = ap signed_rank e in
        let up = (ltb_iff (rank x) (signed_rank key)).1 (omega arith) in true≢false (sym up ∙ down)

    walk-Walked :
        (T : Shape) (k p z n : ℕ)
        → size T < k
        → Holds T z
        → IsOrdered T
        → Walked T (walk k t key p z n)
    unfolding walk
    walk-Walked leaf zero p z n enough holds ordered = absurd (omega arith)
    walk-Walked leaf (suc k) p z n enough holds ordered = rw holds (missing tt)
    walk-Walked (branch l x r) zero p z n enough holds ordered = absurd (omega arith)
    walk-Walked (branch l x r) (suc k) p z n enough holds ordered =
        rw holds.0 (elim (Bool-cases (key == key_of t x)) [
          | inl same ↦
              let e = (==_iff key (key_of t x)).0 same in
              rw (walk-hit k p x n holds.1 e) (found holds.1 (inl refl) (sym e))
          | inr not_same ↦
              let other : key ≢ key_of t x = ground arith in
              elim (Bool-cases (key_less (key_of t x) key)) [
                | inl up ↦ rw (walk-up k p x n holds.1 other up) (
                    Walked-right l r x (λ e. other (sym e))
                      (Each-mono l (λ y. above x y up) ordered.0)
                      (walk-Walked r k x (right_of t x) (n + 2) (omega arith) holds.3 ordered.3))
                | inr down ↦ rw (walk-down k p x n holds.1 other down) (
                    Walked-left l r x (λ e. other (sym e))
                      (Each-mono r (λ y. below x y down) ordered.1)
                      (walk-Walked l k x (left_of t x) (n + 2) (omega arith) holds.2 ordered.2))
              ]
        ])

    Walked-LookedUp :
        (T : Shape) (o : Option (ℕ × ℕ × ℕ))
        → Walked T o
        → LookedUp T (elim o [
          | none ↦ none
          | some (z, p, n) ↦ some (if z == 0 then 0 else record_of t z, compared n t)
        ])
    Walked-LookedUp T _ (found {x} {p} {n} ok at e) = rw (==_ne x 0 ok) (hit x n at e)
    Walked-LookedUp T _ (missing none_left) = miss _ none_left

    -- Where the tree is ordered and has the nodes that `node_count` says, `tree_find` returns, gives
    -- the record of a node with the key, or `NULL`, and then no node has the key, and changes
    -- nothing but the count of comparisons.
    pub tree_find-LookedUp :
        (T : Shape)
        → size T ≤ t.node_count
        → Holds T t.root
        → IsOrdered T
        → LookedUp T (tree_find t key)
    unfolding tree_find
    tree_find-LookedUp T enough holds ordered =
        Walked-LookedUp T _
          (walk-Walked T (suc t.node_count) 0 t.root 0 (omega arith) holds ordered)
