-- ===== src/Samples/Sorting.antt =====
-- Insertion by the order of bytes.
use mathlib.Core.List.{Permᴰ}
use mathlib.Core.List.Permᴰ
use mathlib.Core.Path.{ap₂}
use indexing_service.Prelude.{
  ◌≡◌, refl, Bool, true, false, Bool-cases, inl, inr, List, [], ◌∷◌, arith, All-mono, Bytes, ltb,
  if◌then◌else◌,
}
use indexing_service.BlobIndex.Archive.{SortFunc}
use indexing_service.BlobIndex.Archive.Sorted.{Ascending, Sorts, All-Permᴰ}

-- bytes.Compare(a, b) <= 0.
abbrev pub le : Bytes → Bytes → Bool
le [] b = true
le (x ∷ a) [] = false
le (x ∷ a) (y ∷ b) =
    let rest = le a b in if ltb x y then true else (if ltb y x then false else rest)

le_refl : (a : Bytes) → le a a ≡ true
le_refl [] = refl
le_refl (x ∷ a) = ground (arith, le_refl a)

le_antisymm : (a b : Bytes) → le a b ≡ true → le b a ≡ true → a ≡ b
le_antisymm [] [] h k = refl
le_antisymm [] (y ∷ b) h k = cc
le_antisymm (x ∷ a) [] h k = cc
le_antisymm (x ∷ a) (y ∷ b) h k =
    ap₂ ◌∷◌ (ground arith) (le_antisymm a b (ground arith) (ground arith))

le_trans : (a b c : Bytes) → le a b ≡ true → le b c ≡ true → le a c ≡ true
le_trans [] b c h k = refl
le_trans (x ∷ a) [] c h k = cc
le_trans (x ∷ a) (y ∷ b) [] h k = cc
le_trans (x ∷ a) (y ∷ b) (z ∷ c) h k = ground (arith, le_trans a b c)

le_total : (a b : Bytes) → le a b ≡ false → le b a ≡ true
le_total [] b h = cc
le_total (x ∷ a) [] h = refl
le_total (x ∷ a) (y ∷ b) h = ground (arith, le_total a b)

module _ {E : Type 0} (key : E → Bytes) where
  abbrev pub insert : E → List E → List E
  insert x [] = x ∷ []
  insert x (y ∷ ys) = let rest = insert x ys in if le (key x) (key y) then x ∷ y ∷ ys else y ∷ rest

  abbrev pub sort : List E → List E
  sort [] = []
  sort (x ∷ xs) = insert x (sort xs)

  Permᴰ-insert : (x : E) (ys : List E) → Permᴰ (insert x ys) (x ∷ ys)
  Permᴰ-insert x [] = Permᴰ.refl (x ∷ [])
  Permᴰ-insert x (y ∷ ys) = elim (Bool-cases (le (key x) (key y))) [
    | inl e ↦ rw e (Permᴰ.refl (x ∷ y ∷ ys))
    | inr e ↦ rw e (Permᴰ.trans (Permᴰ.cons refl (Permᴰ-insert x ys)) (Permᴰ.swap refl refl))
  ]

  Permᴰ-sort : (xs : List E) → Permᴰ (sort xs) xs
  Permᴰ-sort [] = Permᴰ.nil
  Permᴰ-sort (x ∷ xs) = Permᴰ.trans (Permᴰ-insert x (sort xs)) (Permᴰ.cons refl (Permᴰ-sort xs))

  insert-Ascending : (x : E) (ys : List E) → Ascending le key ys → Ascending le key (insert x ys)
  insert-Ascending x [] h = (tt, tt)
  insert-Ascending x (y ∷ ys) h = elim (Bool-cases (le (key x) (key y))) [
    | inl e ↦ rw e ((e, All-mono (λ z. le_trans (key x) (key y) (key z) e) ys h.0), h)
    | inr e ↦ rw e (
      All-Permᴰ (λ z. le (key y) (key z) ≡ true) (Permᴰ.symm (Permᴰ-insert x ys))
          (le_total (key x) (key y) e, h.0),
      insert-Ascending x ys h.1,
    )
  ]

  sort-Ascending : (xs : List E) → Ascending le key (sort xs)
  sort-Ascending [] = tt
  sort-Ascending (x ∷ xs) = insert-Ascending x (sort xs) (sort-Ascending xs)

abbrev pub insertion : SortFunc
insertion E key es = sort key es

pub insertion-Sorts : Sorts insertion le
insertion-Sorts = record {
  permutes = λ E key es. Permᴰ-sort key es;
  ascending = λ E key es. sort-Ascending key es;
  le_refl = le_refl;
  le_antisymm = le_antisymm;
}
