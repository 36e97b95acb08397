-- ===== src/ByteMap/Inclusion.antt =====
-- Two maps of one size, one of which has the keys of the other.
use indexing_service.Prelude.{
  ◌≤◌, ◌<◌, ◌≡◌, refl, true, false, [], ◌∷◌, arith, Bytes, bytes_eq, bytes_eq_iff, All,
  if◌then◌else◌,
}
use indexing_service.ByteMap.{ByteMap, lookup, has, without, size}
use indexing_service.ByteMap.Laws.{IsKeyed, lookup-without}

module _ {A : Type 0} where
  has-without :
      (m : ByteMap A) (k j : Bytes)
      → has (without m k) j ≡ (if bytes_eq k j then false else has m j)
  unfolding has
  has-without m k j = ground (arith, lookup-without m k j)

  size-without_le : (m : ByteMap A) (k : Bytes) → size (without m k) ≤ size m
  unfolding size without
  size-without_le [] k = omega arith
  size-without_le ((i, w) ∷ m) k = ground (arith, size-without_le m k)

  size-without : (m : ByteMap A) (k : Bytes) → has m k ≡ true → size (without m k) < size m
  unfolding size without has lookup
  size-without [] k h = cc
  size-without ((i, w) ∷ m) k h = ground (arith, size-without m k, size-without_le m k)

module _ {A B : Type 0} where
  -- Whether the first map has all keys of the second.
  abbrev pub Includes : ByteMap A → ByteMap B → Type 0
  Includes e m = All (λ entry. has e (entry.0) ≡ true) m

  Includes-without :
      (e : ByteMap A) (m : ByteMap B) (k : Bytes)
      → All (λ entry. bytes_eq k (entry.0) ≡ false) m
      → Includes e m
      → Includes (without e k) m
  Includes-without e [] k d h = tt
  Includes-without e ((i, w) ∷ m) k d h =
      (rw (has-without e k i, d.0) (h.0), Includes-without e m k d.1 h.1)

  -- A map whose keys are distinct and are all in a map that is no larger has all of its keys.
  pub Includes-has :
      (e : ByteMap A) (m : ByteMap B) (k : Bytes)
      → IsKeyed m
      → Includes e m
      → size e ≤ size m
      → has e k ≡ has m k
  unfolding size has lookup
  Includes-has [] [] k d h le = refl
  Includes-has (x ∷ e) [] k d h le = absurd (omega arith)
  Includes-has e ((i, w) ∷ m) k d h le =
      let rest =
        Includes-has (without e i) m k d.1 (Includes-without e m i d.0 h.1)
          (ground (arith, size-without e i h.0)) in
      grind (arith, rest, h.0, has-without e i k, bytes_eq_iff i k)
