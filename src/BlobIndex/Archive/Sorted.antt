-- ===== src/BlobIndex/Archive/Sorted.antt =====
-- Sorting by keys that are all different has one result, in whatever order the elements stood.
use mathlib.Core.List.{Permᴰ}
use mathlib.Core.List.Permᴰ
use mathlib.Core.Path.{subst}
use indexing_service.Prelude.{
  ℕ, ◌≡◌, ◌∙◌, refl, sym, ap, Bool, true, false, some, List, [], ◌∷◌, map, arith, All, Bytes,
  bytes_eq, bytes_eq_refl, total, SameItems, if◌then◌else◌,
}
use indexing_service.ByteMap.{ByteMap, lookup}
use indexing_service.ByteMap.Laws.{IsKeyed}
use indexing_service.BlobIndex.Archive.{SortFunc}

-- The keys of earlier elements come first.
abbrev pub Ascending : {E : Type 0} → (Bytes → Bytes → Bool) → (E → Bytes) → List E → Type 0
Ascending leb key [] = Unit {0}
Ascending leb key (x ∷ xs) = All (λ y. leb (key x) (key y) ≡ true) xs × Ascending leb key xs

-- SortFunc permutes, and its result is in the order of bytes.Compare on the keys.
pub record Sorts (sort_func : SortFunc) (leb : Bytes → Bytes → Bool) : Type 1 where
  pub permutes : (E : Type 0) (key : E → Bytes) (es : List E) → Permᴰ (sort_func E key es) es
  pub ascending :
      (E : Type 0) (key : E → Bytes) (es : List E) → Ascending leb key (sort_func E key es)
  pub le_refl : (a : Bytes) → leb a a ≡ true
  pub le_antisymm : (a b : Bytes) → leb a b ≡ true → leb b a ≡ true → a ≡ b

module _ {E : Type 0} where
  pub All-Permᴰ : (P : E → Type 0) {xs ys : List E} → Permᴰ xs ys → All P xs → All P ys
  All-Permᴰ P Permᴰ.nil h = h
  All-Permᴰ P (Permᴰ.cons e p) h = (subst P e h.0, All-Permᴰ P p h.1)
  All-Permᴰ P (Permᴰ.swap e f) h = (subst P f h.1.0, (subst P e h.0, h.1.1))
  All-Permᴰ P (Permᴰ.trans p q) h = All-Permᴰ P q (All-Permᴰ P p h)

  pub Permᴰ-SameItems : {xs ys : List E} → Permᴰ xs ys → SameItems xs ys
  Permᴰ-SameItems Permᴰ.nil f = refl
  Permᴰ-SameItems (Permᴰ.cons e p) f = omega (arith, ap f e, Permᴰ-SameItems p f)
  Permᴰ-SameItems (Permᴰ.swap e g) f = omega (arith, ap f e, ap f g)
  Permᴰ-SameItems (Permᴰ.trans p q) f = Permᴰ-SameItems p f ∙ Permᴰ-SameItems q f

  -- How many elements fail a test.
  abbrev failing : (E → Bool) → E → ℕ
  failing p x = if p x then 0 else 1

  total-failing : (p : E → Bool) (xs : List E) → All (λ x. p x ≡ true) xs → total (failing p) xs ≡ 0
  total-failing p [] h = refl
  total-failing p (x ∷ xs) h = ground (arith, h.0, total-failing p xs h.1)

  head_passes : (p : E → Bool) (x : E) (xs : List E) → total (failing p) (x ∷ xs) ≡ 0 → p x ≡ true
  head_passes p x xs h = ground arith

  module _ (leb : Bytes → Bytes → Bool) (le_refl : (a : Bytes) → leb a a ≡ true)
      (le_antisymm : (a b : Bytes) → leb a b ≡ true → leb b a ≡ true → a ≡ b) (d : E → Bytes)
      (m : ByteMap E) where
    -- An element is found under its key.
    abbrev Recovered : List E → Type 0
    Recovered xs = All (λ e. lookup m (d e) ≡ some e) xs

    head_le :
        (x y : E) (xs ys : List E)
        → SameItems (x ∷ xs) (y ∷ ys)
        → Ascending leb d (x ∷ xs)
        → leb (d x) (d y) ≡ true
    head_le x y xs ys same sx =
        head_passes (λ z. leb (d x) (d z)) y ys
          (sym (same (failing (λ z. leb (d x) (d z))))
            ∙ total-failing (λ z. leb (d x) (d z)) (x ∷ xs) (le_refl (d x), sx.0))

    some-injective : {a b : E} → some a ≡ some b → a ≡ b
    some-injective e = cc

    Ascending-unique :
        (xs ys : List E)
        → SameItems xs ys
        → Ascending leb d xs
        → Ascending leb d ys
        → Recovered xs
        → Recovered ys
        → xs ≡ ys
    Ascending-unique [] [] same sx sy rx ry = refl
    Ascending-unique [] (y ∷ ys) same sx sy rx ry = absurd (omega (arith, same (λ z. 1)))
    Ascending-unique (x ∷ xs) [] same sx sy rx ry = absurd (omega (arith, same (λ z. 1)))
    Ascending-unique (x ∷ xs) (y ∷ ys) same sx sy rx ry =
        let keys =
          le_antisymm (d x) (d y) (head_le x y xs ys same sx)
            (head_le y x ys xs (λ f. sym (same f)) sy) in
        let heads = some-injective (sym rx.0 ∙ ap (lookup m) keys ∙ ry.0) in
        let tails =
          Ascending-unique xs ys (λ f. omega (arith, same f, ap f heads)) sx.1 sy.1 rx.1 ry.1 in
        λ i. heads i ∷ tails i

  lookup_keyed : (m : List (Bytes × E)) → IsKeyed m → All (λ e. lookup m (e.0) ≡ some (e.1)) m
  unfolding lookup
  lookup_keyed [] h = tt
  lookup_keyed (e ∷ m) h =
      (ground (arith, bytes_eq_refl (e.0)), All-later m (h.0) (lookup_keyed m h.1))
    where
      All-later :
          (es : List (Bytes × E))
          → All (λ x. bytes_eq (e.0) (x.0) ≡ false) es
          → All (λ x. lookup m (x.0) ≡ some (x.1)) es
          → All (λ x. lookup (e ∷ m) (x.0) ≡ some (x.1)) es
      All-later [] a b = tt
      All-later (x ∷ es) a b = (ground (arith, a.0, b.0), All-later es a.1 b.1)

  -- The elements with their keys.
  abbrev pub keyed_by : (E → Bytes) → List E → List (Bytes × E)
  keyed_by d es = map (λ e. (d e, e)) es

  All-keyed_by :
      (d : E → Bytes) (P : Bytes × E → Type 0) (es : List E)
      → All P (keyed_by d es)
      → All (λ e. P (d e, e)) es
  All-keyed_by d P [] h = tt
  All-keyed_by d P (e ∷ es) h = (h.0, All-keyed_by d P es h.1)

  Ascending-by :
      (leb : Bytes → Bytes → Bool) (key d : E → Bytes) (xs : List E)
      → All (λ e. key e ≡ d e) xs
      → Ascending leb key xs
      → Ascending leb d xs
  Ascending-by leb key d [] same a = tt
  Ascending-by leb key d (x ∷ xs) same a =
      (below xs same.1 (a.0), Ascending-by leb key d xs same.1 a.1)
    where
      below :
          (ys : List E)
          → All (λ e. key e ≡ d e) ys
          → All (λ y. leb (key x) (key y) ≡ true) ys
          → All (λ y. leb (d x) (d y) ≡ true) ys
      below [] s b = tt
      below (y ∷ ys) s b =
          (ap (λ k. leb k (d y)) (sym same.0) ∙ ap (leb (key x)) (sym s.0) ∙ b.0, below ys s.1 b.1)

  -- Two sorts of the same elements by keys that agree, and are all different, give one list.
  pub sort_unique :
      {sort_func : SortFunc} {leb : Bytes → Bytes → Bool} (sorts : Sorts sort_func leb)
      (d key key' : E → Bytes) (es ds : List E)
      → Permᴰ es ds
      → All (λ e. key e ≡ d e) es
      → All (λ e. key' e ≡ d e) ds
      → IsKeyed (keyed_by d es)
      → sort_func E key es ≡ sort_func E key' ds
  sort_unique {sort_func} {leb} sorts d key key' es ds p same same' keyed =
      let xs = sort_func E key es in
      let ys = sort_func E key' ds in
      let px = Permᴰ.symm (sorts.permutes E key es) in
      let py = Permᴰ.symm (sorts.permutes E key' ds) in
      let m = keyed_by d es in
      let found = All-keyed_by d (λ e. lookup m (e.0) ≡ some (e.1)) es (lookup_keyed m keyed) in
      Ascending-unique leb sorts.le_refl sorts.le_antisymm d m xs ys
        (Permᴰ-SameItems (Permᴰ.trans (Permᴰ.symm px) (Permᴰ.trans p py)))
        (Ascending-by leb key d xs (All-Permᴰ _ px same) (sorts.ascending E key es))
        (Ascending-by leb key' d ys (All-Permᴰ _ py same') (sorts.ascending E key' ds))
        (All-Permᴰ _ px found) (All-Permᴰ _ py (All-Permᴰ _ p found))
