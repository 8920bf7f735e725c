-- ===== src/Base/Lists.antt =====
-- Lists measured by native numbers, and predicates on their items.
use Prim.Native.Nat.{ℕ, zero, suc, ◌+◌}
use mathlib.Core.Path.{◌≡◌, refl}
use mathlib.Core.Logic.{◌⊎◌, inl, inr}
use mathlib.Core.List.{List, [], ◌∷◌, ◌++◌}
use native.Mathlib.Omega.{arith}

module _ {ℓ} {A : Type ℓ} where
  abbrev pub length : List A → ℕ
  length [] = 0
  length (x ∷ xs) = suc (length xs)

  abbrev pub drop : ℕ → List A → List A
  drop zero xs = xs
  drop (suc n) [] = []
  drop (suc n) (x ∷ xs) = drop n xs

  pub length-append : (xs ys : List A) → length (xs ++ ys) ≡ length xs + length ys
  length-append [] ys = omega arith
  length-append (x ∷ xs) ys = omega (arith, length-append xs ys)

abbrev pub All {ℓ κ} : {A : Type ℓ} → (A → Type κ) → List A → Type κ
All P [] = Unit
All P (x ∷ xs) = P x × All P xs

pub All-append {ℓ κ} :
    {A : Type ℓ} (P : A → Type κ) (xs ys : List A) → All P (xs ++ ys) → All P xs × All P ys
All-append P [] ys h = (tt, h)
All-append P (x ∷ xs) ys h = ((h.0, (All-append P xs ys h.1).0), (All-append P xs ys h.1).1)

pub All-append_of {ℓ κ} :
    {A : Type ℓ} (P : A → Type κ) (xs ys : List A) → All P xs → All P ys → All P (xs ++ ys)
All-append_of P [] ys h k = k
All-append_of P (x ∷ xs) ys h k = (h.0, All-append_of P xs ys h.1 k)

-- Without one item in the middle.
pub All-drop_middle {ℓ κ} :
    {A : Type ℓ} (P : A → Type κ) (xs : List A) (y : A) (zs : List A)
    → All P (xs ++ y ∷ zs)
    → All P (xs ++ zs)
All-drop_middle P [] y zs h = h.1
All-drop_middle P (x ∷ xs) y zs h = (h.0, All-drop_middle P xs y zs h.1)

pub All-second {ℓ κ} :
    {A : Type ℓ} (P : A → Type κ) (xs : List A) (x y : A) (zs : List A)
    → All P (xs ++ x ∷ y ∷ zs)
    → All P (xs ++ x ∷ zs)
All-second P [] x y zs h = (h.0, h.1.1)
All-second P (w ∷ xs) x y zs h = (h.0, All-second P xs x y zs h.1)

pub All-map {ℓ κ μ} :
    {A : Type ℓ} (P : A → Type κ) (Q : A → Type μ) (xs : List A)
    → ((a : A) → P a → Q a)
    → All P xs
    → All Q xs
All-map P Q [] f h = tt
All-map P Q (x ∷ xs) f h = (f x h.0, All-map P Q xs f h.1)

pub All-both {ℓ κ μ ν} :
    {A : Type ℓ} (P : A → Type κ) (Q : A → Type μ) (R : A → Type ν)
    → ((a : A) → P a → Q a → R a)
    → (xs : List A) → All P xs
    → All Q xs
    → All R xs
All-both P Q R f [] h k = tt
All-both P Q R f (x ∷ xs) h k = (f x h.0 k.0, All-both P Q R f xs h.1 k.1)

-- A list is empty or has a last item.
pub snoc-cases {ℓ} :
    {A : Type ℓ} (xs : List A) → (xs ≡ []) ⊎ ((ys : List A) × (y : A) × (xs ≡ ys ++ y ∷ []))
snoc-cases [] = inl refl
snoc-cases (x ∷ xs) = elim (snoc-cases xs) [
  | inl e ↦ inr ([], x, rw e)
  | inr (ys, y, e) ↦ inr (x ∷ ys, y, rw e)
]

abbrev pub In : ℕ → List ℕ → Type 0
In a [] = ⊥
In a (x ∷ xs) = (a ≡ x) ⊎ In a xs

pub All-In {κ} : (P : ℕ → Type κ) (a : ℕ) (xs : List ℕ) → All P xs → In a xs → P a
All-In P a [] h i = elim i [ ]
All-In P a (x ∷ xs) h (inl e) = rw e h.0
All-In P a (x ∷ xs) h (inr i) = All-In P a xs h.1 i

pub All-of_In {κ} : (P : ℕ → Type κ) (xs : List ℕ) → ((a : ℕ) → In a xs → P a) → All P xs
All-of_In P [] f = tt
All-of_In P (x ∷ xs) f = (f x (inl refl), All-of_In P xs (λ a i. f a (inr i)))

pub In-split : (a : ℕ) (xs : List ℕ) → In a xs → (ys : List ℕ) × (zs : List ℕ) × (xs ≡ ys ++ a ∷ zs)
In-split a [] i = elim i [ ]
In-split a (x ∷ xs) (inl e) = ([], xs, rw e refl)
In-split a (x ∷ xs) (inr i) = let (ys, zs, e) = In-split a xs i in (x ∷ ys, zs, rw e refl)

pub In-around : (b a : ℕ) (ys zs : List ℕ) → In b (ys ++ a ∷ zs) → (b ≡ a) ⊎ In b (ys ++ zs)
In-around b a [] zs i = i
In-around b a (y ∷ ys) zs (inl e) = inr (inl e)
In-around b a (y ∷ ys) zs (inr i) = elim (In-around b a ys zs i) [
  | inl e ↦ inl e
  | inr j ↦ inr (inr j)
]

pub In-wider : (b a : ℕ) (ys zs : List ℕ) → In b (ys ++ zs) → In b (ys ++ a ∷ zs)
In-wider b a [] zs i = inr i
In-wider b a (y ∷ ys) zs (inl e) = inl e
In-wider b a (y ∷ ys) zs (inr i) = inr (In-wider b a ys zs i)
