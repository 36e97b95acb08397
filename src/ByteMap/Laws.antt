-- ===== src/ByteMap/Laws.antt =====
-- The map laws of ByteMap, and that its keys stay distinct.
use indexing_service.Prelude.{
  ◌+◌, ◌≡◌, refl, false, none, some, List, [], ◌∷◌, arith, Bytes, bytes_eq, bytes_eq_iff, All,
  if◌then◌else◌,
}
use indexing_service.ByteMap.{ByteMap, lookup, has, set, without, delete, size}

-- No key stands twice among the entries.
abbrev pub IsKeyed {ℓ} : {T : Type ℓ} → List (Bytes × T) → Type 0
IsKeyed [] = Unit {0}
IsKeyed ((k, v) ∷ m) = All (λ e. bytes_eq k (e.0) ≡ false) m × IsKeyed m

module _ {T : Type 0} where
  -- A read after a write gives the written value at that key and the old one at every other.
  pub lookup-set :
      (m : ByteMap T) (k j : Bytes) (v : T)
      → lookup (set m k v) j ≡ (if bytes_eq k j then some v else lookup m j)
  unfolding lookup set
  lookup-set [] k j v = refl
  lookup-set ((i, w) ∷ m) k j v =
      ground (arith, bytes_eq_iff i k, bytes_eq_iff i j, bytes_eq_iff k j, lookup-set m k j v)

  pub lookup-without :
      (m : ByteMap T) (k j : Bytes)
      → lookup (without m k) j ≡ (if bytes_eq k j then none else lookup m j)
  unfolding lookup without
  lookup-without [] k j = ground arith
  lookup-without ((i, w) ∷ m) k j =
      ground (arith, bytes_eq_iff i k, bytes_eq_iff i j, bytes_eq_iff k j, lookup-without m k j)

  -- After `Delete` the key is gone and every other key reads as before; the result says whether the
  -- key was there.
  pub lookup-delete :
      (m : ByteMap T) (k j : Bytes)
      → ((delete m k).0 ≡ has m k)
        × (lookup (delete m k).1 j ≡ (if bytes_eq k j then none else lookup m j))
  unfolding delete
  lookup-delete m k j = (refl, lookup-without m k j)

  set-absent :
      (i k : Bytes) (v : T) (m : ByteMap T)
      → bytes_eq i k ≡ false
      → All (λ e. bytes_eq i (e.0) ≡ false) m
      → All (λ e. bytes_eq i (e.0) ≡ false) (set m k v)
  unfolding set
  set-absent i k v [] h a = (h, tt)
  set-absent i k v ((j, w) ∷ m) h a = ground (arith, set-absent i k v m h a.1)

  pub set-IsKeyed : (m : ByteMap T) (k : Bytes) (v : T) → IsKeyed m → IsKeyed (set m k v)
  unfolding set
  set-IsKeyed [] k v h = (tt, tt)
  set-IsKeyed ((i, w) ∷ m) k v h = ground (arith, set-IsKeyed m k v h.1, set-absent i k v m)

  -- A write adds one entry exactly when the key was absent.
  pub size-set :
      (m : ByteMap T) (k : Bytes) (v : T)
      → size (set m k v) ≡ (if has m k then size m else size m + 1)
  unfolding size set has
  size-set [] k v = refl
  size-set ((i, w) ∷ m) k v = ground (arith, size-set m k v)
