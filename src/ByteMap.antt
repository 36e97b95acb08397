-- ===== src/ByteMap.antt =====
-- pkg/internal/bytemap/bytemap.go: maps keyed by byte strings, over Go's built-in map.
mod Examples
pub mod Laws
pub mod Inclusion
use indexing_service.Prelude.{
  ℕ, Bool, true, false, Option, none, some, List, [], ◌∷◌, Bytes, bytes_eq, length, if◌then◌else◌,
}

-- A Go map from strings, as its entries in the order of one iteration.
abbrev pub ByteMap : Type 0 → Type 0
ByteMap T = List (Bytes × T)

unfoldable pub new_byte_map : {T : Type 0} → ByteMap T
new_byte_map = []

module _ {T : Type 0} where
  -- The two-valued read of a Go map.
  unfoldable pub lookup : ByteMap T → Bytes → Option T
  lookup [] k = none
  lookup ((j, v) ∷ m) k = if bytes_eq j k then some v else lookup m k

  -- `Get` gives the zero value of `T` for a key that is absent.
  unfoldable pub get : T → ByteMap T → Bytes → T
  unfolding lookup
  get zero_value m k = elim (lookup m k) [ none ↦ zero_value | some v ↦ v ]

  unfoldable pub has : ByteMap T → Bytes → Bool
  unfolding lookup
  has m k = elim (lookup m k) [ none ↦ false | some v ↦ true ]

  unfoldable pub set : ByteMap T → Bytes → T → ByteMap T
  set [] k v = (k, v) ∷ []
  set ((j, w) ∷ m) k v = if bytes_eq j k then (j, v) ∷ m else (j, w) ∷ set m k v

  unfoldable pub without : ByteMap T → Bytes → ByteMap T
  without [] k = []
  without ((j, w) ∷ m) k = let rest = without m k in if bytes_eq j k then rest else (j, w) ∷ rest

  -- `Delete` also says whether the key was there.
  pub delete : ByteMap T → Bytes → Bool × ByteMap T
  unfolding has without
  delete m k = (has m k, without m k)

  unfoldable pub size : ByteMap T → ℕ
  size m = length m

  -- `Iterator` yields the entries.
  abbrev pub iterator : ByteMap T → List (Bytes × T)
  iterator m = m
