-- ===== src/Tree.antt =====
-- stree.c, the splay tree of the driver: nodes with parent pointers in a store, rotations,
-- splaying, insertion, look-up and removal.
pub mod Find
use dynamic_memory_allocator.Base.{
  ℕ, zero, suc, ◌+◌, ◌%◌, ◌^◌, Bool, true, false, ◌&&◌, ◌||◌, Option, none, some, ◌==◌, ltb,
  if◌then◌else◌, add64, sub64,
}

-- `node_t`. An address 0 is `NULL`, also among the records, which are the user's data.
pub record Node : Type 0 where
  pub left : ℕ
  pub right : ℕ
  pub parent : ℕ
  pub key : ℕ
  pub user_record : ℕ

-- `tree_t` and the store of its nodes.
pub record Tree : Type 0 where
  pub nodes : ℕ → Node
  pub root : ℕ
  pub node_count : ℕ
  pub comparison_count : ℕ

-- The order of `tkey_t`, a signed long, on 64-bit words.
unfoldable pub signed_rank : ℕ → ℕ
signed_rank key = (key + 2 ^ 63) % 2 ^ 64

unfoldable pub key_less : ℕ → ℕ → Bool
unfolding signed_rank
key_less a b = ltb (signed_rank a) (signed_rank b)

abbrev pub on_node : (Node → Node) → Tree → ℕ → Tree
on_node f t x = record t { nodes = λ i. if i == x then f (t.nodes i) else t.nodes i }

abbrev pub set_left : Tree → ℕ → ℕ → Tree
set_left t x y = on_node (λ n. record n { left = y }) t x

abbrev pub set_right : Tree → ℕ → ℕ → Tree
set_right t x y = on_node (λ n. record n { right = y }) t x

abbrev pub set_parent : Tree → ℕ → ℕ → Tree
set_parent t x y = on_node (λ n. record n { parent = y }) t x

abbrev pub left_of : Tree → ℕ → ℕ
left_of t x = (t.nodes x).left

abbrev pub right_of : Tree → ℕ → ℕ
right_of t x = (t.nodes x).right

abbrev pub parent_of : Tree → ℕ → ℕ
parent_of t x = (t.nodes x).parent

abbrev pub key_of : Tree → ℕ → ℕ
key_of t x = (t.nodes x).key

abbrev pub record_of : Tree → ℕ → ℕ
record_of t x = (t.nodes x).user_record

unfoldable pub tree_new : (ℕ → Node) → Tree
tree_new nodes = record { nodes = nodes; root = 0; node_count = 0; comparison_count = 0 }

-- Puts `y` where its parent or the root points to `x`.
unfoldable pub relink_parent : Tree → (x y : ℕ) → Tree
relink_parent t x y =
    if parent_of t x == 0
    then record t { root = y }
    else if x == left_of t (parent_of t x)
    then set_left t (parent_of t x) y
    else set_right t (parent_of t x) y

abbrev set_parent_of_child : Tree → (child x : ℕ) → Tree
set_parent_of_child t child x = if child == 0 then t else set_parent t child x

-- What a rotation does around the child `y` that goes up: `take_inner` gives `x` the inner subtree of
-- `y`, `put_below` puts `x` below `y`.
abbrev take_inner : (set : Tree → ℕ → ℕ → Tree) → Tree → (x y inner : ℕ) → Tree
take_inner set t x y inner =
    if y == 0
    then t
    else let t1 = set_parent_of_child (set t x inner) inner x in set_parent t1 y (parent_of t1 x)

abbrev put_below : (set : Tree → ℕ → ℕ → Tree) → Tree → (x y : ℕ) → Tree
put_below set t x y = set_parent (if y == 0 then t else set t y x) x y

unfoldable pub left_rotate : Tree → ℕ → Tree
unfolding relink_parent
left_rotate t x =
    let y = right_of t x in
    put_below set_left (relink_parent (take_inner set_right t x y (left_of t y)) x y) x y

unfoldable pub right_rotate : Tree → ℕ → Tree
unfolding relink_parent
right_rotate t x =
    let y = left_of t x in
    put_below set_right (relink_parent (take_inner set_left t x y (right_of t y)) x y) x y

-- Two rotations, the second at the parent that the first leaves to `x`.
abbrev then_at_parent : (rotate : Tree → ℕ → Tree) → Tree → ℕ → Tree
then_at_parent rotate t x = rotate t (parent_of t x)

-- One round of splaying, at a node with a parent.
unfoldable pub splay_step : Tree → ℕ → Tree
unfolding left_rotate right_rotate
splay_step t x =
    let p = parent_of t x in
    let g = parent_of t p in
    if g == 0
    then (if left_of t p == x then right_rotate t p else left_rotate t p)
    else if left_of t p == x && (left_of t g == p)
    then then_at_parent right_rotate (right_rotate t g) x
    else if right_of t p == x && (right_of t g == p)
    then then_at_parent left_rotate (left_rotate t g) x
    else if left_of t p == x && (right_of t g == p)
    then then_at_parent left_rotate (right_rotate t p) x
    else then_at_parent right_rotate (left_rotate t p) x

-- `none` where the rounds do not suffice; a round takes the node a level up or two.
unfoldable pub splay : ℕ → Tree → ℕ → Option Tree
unfolding splay_step
splay zero t x = none
splay (suc k) t x = elim (parent_of t x == 0) [ true ↦ some t | false ↦ splay k (splay_step t x) x ]

abbrev pub compared : ℕ → Tree → Tree
compared n t = record t { comparison_count = add64 t.comparison_count n }

-- The walk of the look-ups: the node with the key or 0, its parent in the walk, and the number of
-- comparisons.
unfoldable pub walk : ℕ → Tree → (key p z n : ℕ) → Option (ℕ × ℕ × ℕ)
unfolding key_less
walk zero t key p z n = none
walk (suc k) t key p z n = elim (z == 0) [
  | true ↦ some (0, p, n)
  | false ↦ elim (key == key_of t z) [
    | true ↦ some (z, p, n + 1)
    | false ↦
        walk k t key z (if key_less (key_of t z) key then right_of t z else left_of t z) (n + 2)
  ]
]

abbrev tree_rounds : Tree → ℕ
tree_rounds t = suc t.node_count

-- Fills the node `z` and links it below `p`, or as the root.
unfoldable pub add_node : Tree → (z p key user : ℕ) → Tree
unfolding key_less
add_node t z p key user =
    let made : Node = record { left = 0; right = 0; parent = p; key = key; user_record = user } in
    let t1 = on_node (λ _. made) t z in
    if p == 0
    then record t1 { root = z }
    else if key_less (key_of t1 p) (key_of t1 z)
    then set_right t1 p z
    else set_left t1 p z

-- `fresh` is the address that `malloc` gives for the node; on its failure the source exits.
unfoldable pub tree_insert : Tree → (fresh key user : ℕ) → Option (Bool × Tree)
unfolding walk add_node splay
tree_insert t fresh key user = elim (walk (tree_rounds t) t key 0 t.root 0) [
  | none ↦ none
  | some (z, p, n) ↦ elim (z == 0) [
    | false ↦ some (false, compared n t)
    | true ↦
        let t1 = add_node (compared n t) fresh p key user in
        elim (splay (tree_rounds t1) t1 fresh) [
          | none ↦ none
          | some t2 ↦ some (true, record t2 { node_count = add64 t2.node_count 1 })
        ]
  ]
]

unfoldable pub tree_find : Tree → ℕ → Option (ℕ × Tree)
unfolding walk
tree_find t key = elim (walk (tree_rounds t) t key 0 t.root 0) [
  | none ↦ none
  | some (z, p, n) ↦ some (if z == 0 then 0 else record_of t z, compared n t)
]

-- The walk that keeps the nearest node `near` below the key so far.
unfoldable pub walk_nearest : ℕ → Tree → (key near z n : ℕ) → Option (ℕ × ℕ)
unfolding key_less
walk_nearest zero t key near z n = none
walk_nearest (suc k) t key near z n = elim (z == 0) [
  | true ↦ some (near, n)
  | false ↦ elim (key == key_of t z) [
    | true ↦ some (z, n + 1)
    | false ↦ elim (key_less (key_of t z) key) [
      | true ↦
          let better = near == 0 || key_less (key_of t near) (key_of t z) in
          walk_nearest k t key (if better then z else near) (right_of t z) (n + 2)
      | false ↦ walk_nearest k t key near (left_of t z) (n + 2)
    ]
  ]
]

unfoldable pub tree_find_nearest : Tree → ℕ → Option (ℕ × Tree)
unfolding walk_nearest
tree_find_nearest t key = elim (walk_nearest (tree_rounds t) t key 0 t.root 0) [
  | none ↦ none
  | some (z, n) ↦ some (if z == 0 then 0 else record_of t z, compared n t)
]

-- The walk of the removal, which counts a comparison for each node it passes.
unfoldable pub walk_remove : ℕ → Tree → (key z n : ℕ) → Option (ℕ × ℕ)
unfolding key_less
walk_remove zero t key z n = none
walk_remove (suc k) t key z n = elim (z == 0 || (key_of t z == key)) [
  | true ↦ some (z, n)
  | false ↦
      walk_remove k t key (if key_less (key_of t z) key then right_of t z else left_of t z) (n + 1)
]

unfoldable pub replace : Tree → (u v : ℕ) → Tree
unfolding relink_parent
replace t u v =
    let t1 = relink_parent t u v in if v == 0 then t1 else set_parent t1 v (parent_of t1 u)

unfoldable pub subtree_minimum : ℕ → Tree → ℕ → Option ℕ
subtree_minimum zero t u = none
subtree_minimum (suc k) t u = elim (left_of t u == 0) [
  | true ↦ some u
  | false ↦ subtree_minimum k t (left_of t u)
]

-- Takes `z`, which has both children, out, with the minimum `y` of its right subtree in its place.
unfoldable pub replace_by_minimum : Tree → (z y : ℕ) → Tree
unfolding replace
replace_by_minimum t z y =
    let lifted =
      (let t1 = set_right (replace t y (right_of t y)) y (right_of t z) in
        set_parent t1 (right_of t1 y) y) in
    let t2 = replace (if parent_of t y == z then t else lifted) z y in
    let t3 = set_left t2 y (left_of t2 z) in set_parent t3 (left_of t3 y) y

unfoldable pub detach_root : Tree → ℕ → Option Tree
unfolding replace subtree_minimum replace_by_minimum
detach_root t z = elim (left_of t z == 0) [
  | true ↦ some (replace t z (right_of t z))
  | false ↦ elim (right_of t z == 0) [
    | true ↦ some (replace t z (left_of t z))
    | false ↦ elim (subtree_minimum (tree_rounds t) t (right_of t z)) [
      | none ↦ none
      | some y ↦ some (replace_by_minimum t z y)
    ]
  ]
]

-- Gives the record, 0 for `NULL`.
unfoldable pub tree_remove : Tree → ℕ → Option (ℕ × Tree)
unfolding walk_remove splay detach_root
tree_remove t key = elim (walk_remove (tree_rounds t) t key t.root 0) [
  | none ↦ none
  | some (z, n) ↦ elim (z == 0) [
    | true ↦ some (0, compared n t)
    | false ↦ elim (splay (tree_rounds t) (compared n t) z) [
      | none ↦ none
      | some t1 ↦ elim (detach_root t1 z) [
        | none ↦ none
        | some t2 ↦ some (record_of t2 z, record t2 { node_count = sub64 t2.node_count 1 })
      ]
    ]
  ]
]
