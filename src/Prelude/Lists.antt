-- ===== src/Prelude/Lists.antt =====
-- Lists measured by native numbers, and predicates over lists by recursion.
use Prim.Native.Nat.{ℕ, zero, suc, ◌+◌, ◌<◌, ◌≤◌}
use mathlib.Core.Path.{◌≡◌, refl, sym, subst}
use mathlib.Core.Logic.{ite, if_pos, if_neg}
use mathlib.Core.Bool.{Bool, false, ◌||◌}
use mathlib.Core.Option.{Option, none, some}
use mathlib.Core.List.{List, [], ◌∷◌, ◌++◌, map}
use native.Mathlib.Omega.{arith}

module _ {ℓ} {A : Type ℓ} where
  abbrev pub length : List A → ℕ
  length [] = 0
  length (x ∷ xs) = suc (length xs)

  pub length-append : (xs ys : List A) → length (xs ++ ys) ≡ length xs + length ys
  length-append [] ys = omega arith
  length-append (x ∷ xs) ys = omega (arith, length-append xs ys)

  -- `slices.ContainsFunc`.
  abbrev pub any : (A → Bool) → List A → Bool
  any p [] = false
  any p (x ∷ xs) = p x || any p xs

  abbrev pub All {κ} : (A → Type κ) → List A → Type κ
  All P [] = Unit
  All P (x ∷ xs) = P x × All P xs

  pub All-append {κ} : (P : A → Type κ) (xs ys : List A) → All P xs → All P ys → All P (xs ++ ys)
  All-append P [] ys hx hy = hy
  All-append P (x ∷ xs) ys hx hy = (hx.0, All-append P xs ys hx.1 hy)

  pub All-split {κ} : (P : A → Type κ) (xs ys : List A) → All P (xs ++ ys) → All P xs × All P ys
  All-split P [] ys h = (tt, h)
  All-split P (x ∷ xs) ys h = let (hx, hy) = All-split P xs ys h.1 in ((h.0, hx), hy)

  pub All-mono {κ ν} :
      {P : A → Type κ} {Q : A → Type ν}
      → ((a : A) → P a → Q a)
      → (xs : List A) → All P xs
      → All Q xs
  All-mono f [] h = tt
  All-mono f (x ∷ xs) h = (f x h.0, All-mono f xs h.1)

  abbrev pub get_elem? : List A → ℕ → Option A
  get_elem? [] i = none
  get_elem? (x ∷ xs) zero = some x
  get_elem? (x ∷ xs) (suc i) = get_elem? xs i

  -- The list without the element at a place.
  abbrev pub erase_idx : List A → ℕ → List A
  erase_idx [] i = []
  erase_idx (x ∷ xs) zero = xs
  erase_idx (x ∷ xs) (suc i) = x ∷ erase_idx xs i

  -- The sum of a weight over a list. Lists with equal sums for every weight hold the same elements,
  -- each as often.
  abbrev pub total : (A → ℕ) → List A → ℕ
  total f [] = 0
  total f (x ∷ xs) = f x + total f xs

  pub total-append : (f : A → ℕ) (xs ys : List A) → total f (xs ++ ys) ≡ total f xs + total f ys
  total-append f [] ys = omega arith
  total-append f (x ∷ xs) ys = omega (arith, total-append f xs ys)

  pub total-erase_idx :
      (f : A → ℕ) (xs : List A) (i : ℕ) (x : A)
      → get_elem? xs i ≡ some x
      → total f xs ≡ f x + total f (erase_idx xs i)
  total-erase_idx f [] i x e = cc
  total-erase_idx f (y ∷ ys) zero x e = ground arith
  total-erase_idx f (y ∷ ys) (suc i) x e = omega (arith, total-erase_idx f ys i x e)

  pub length-erase_idx :
      (xs : List A) (i : ℕ) (x : A)
      → get_elem? xs i ≡ some x
      → length xs ≡ suc (length (erase_idx xs i))
  length-erase_idx [] i x e = cc
  length-erase_idx (y ∷ ys) zero x e = refl
  length-erase_idx (y ∷ ys) (suc i) x e = omega (arith, length-erase_idx ys i x e)

-- Two lists hold the same elements, each as often.
abbrev pub SameItems {ℓ} : {A : Type ℓ} → List A → List A → Type ℓ
SameItems {A = A} xs ys = (f : A → ℕ) → total f xs ≡ total f ys

pub All-map {ℓ κ ν} :
    {A : Type ℓ} {B : Type ν} (P : B → Type κ) (f : A → B) (xs : List A)
    → All P (map f xs)
    → All (λ a. P (f a)) xs
All-map P f [] h = tt
All-map P f (x ∷ xs) h = (h.0, All-map P f xs h.1)

-- What holds of all elements of a list holds of all elements of a list that has only such.
module _ {ℓ κ} {A : Type ℓ} (d : Discrete A) (P : A → Type κ) where
  -- 1 at an element, 0 elsewhere.
  abbrev weight : A → A → ℕ
  weight x y = ite (d x y) 1 0

  All-find : (x : A) (ys : List A) → 0 < total (weight x) ys → All P ys → P x
  All-find x [] h all = absurd (omega arith)
  All-find x (y ∷ ys) h all = elim (d x y) [
    | yes e ↦ subst P (sym e) all.0
    | no n ↦
        All-find x ys (let none_here : weight x y ≡ 0 = if_neg (d x y) n 1 0 in omega arith) all.1
  ]

  All-each {ν} :
      (Q : A → Type ν) (xs : List A) → ((x : A) → 0 < total (weight x) xs → Q x) → All Q xs
  All-each Q [] f = tt
  All-each Q (x ∷ xs) f = (
    f x (elim (d x x) [ yes e ↦ rw (if_pos _ e) (omega arith) | no n ↦ absurd (n refl) ]),
    All-each Q xs (λ y h. f y (omega arith)),
  )

  pub All-total : (xs ys : List A) → ((f : A → ℕ) → total f xs ≤ total f ys) → All P ys → All P xs
  All-total xs ys s h =
      All-each P xs (λ x m. All-find x ys (let le = s (weight x) in omega arith) h)
