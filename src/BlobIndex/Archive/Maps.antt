-- ===== src/BlobIndex/Archive/Maps.antt =====
-- Maps as lists of entries: what reordering the entries and writing them one by one keep.
use mathlib.Core.List.{Permᴰ}
use mathlib.Core.Path.{subst, transport}
use indexing_service.Prelude.{
  ◌≡◌, ◌∙◌, refl, ap, false, Option, none, some, List, [], ◌∷◌, arith, Bytes, bytes_eq,
  bytes_eq_iff, All,
}
use indexing_service.ByteMap.{ByteMap, lookup, set}
use indexing_service.ByteMap.Laws.{IsKeyed, lookup-set}

module _ {T : Type 0} where
  -- The entries written one after the other.
  unfoldable pub set_all : List (Bytes × T) → ByteMap T → ByteMap T
  set_all [] m = m
  set_all (e ∷ es) m = set_all es (set m (e.0) (e.1))

  abbrev pub or_from : Option T → Option T → Option T
  or_from none o = o
  or_from (some v) o = some v

  pub lookup_absent :
      (k : Bytes) (es : List (Bytes × T))
      → All (λ e. bytes_eq k (e.0) ≡ false) es
      → lookup es k ≡ none
  unfolding lookup
  lookup_absent k [] h = refl
  lookup_absent k (e ∷ es) h =
      ground (arith, bytes_eq_iff k (e.0), bytes_eq_iff (e.0) k, lookup_absent k es h.1)

  -- Entries with distinct keys read as the map that they are, before what was there.
  pub lookup-set_all :
      (es : List (Bytes × T)) (m : ByteMap T) (k : Bytes)
      → IsKeyed es
      → lookup (set_all es m) k ≡ or_from (lookup es k) (lookup m k)
  unfolding set_all lookup
  lookup-set_all [] m k h = refl
  lookup-set_all (e ∷ es) m k h =
      lookup-set_all es (set m (e.0) (e.1)) k h.1
      ∙ ground (arith, lookup-set m (e.0) k (e.1), bytes_eq_iff (e.0) k, lookup_absent (e.0) es h.0)

  All-Permᴰ :
      (P : Bytes × T → Type 0) {xs ys : List (Bytes × T)} → Permᴰ xs ys → All P xs → All P ys
  All-Permᴰ P Permᴰ.nil h = h
  All-Permᴰ P (Permᴰ.cons e p) h = (subst P e h.0, All-Permᴰ P p h.1)
  All-Permᴰ P (Permᴰ.swap e f) h = (subst P f h.1.0, (subst P e h.0, h.1.1))
  All-Permᴰ P (Permᴰ.trans p q) h = All-Permᴰ P q (All-Permᴰ P p h)

  abbrev Without : Bytes → List (Bytes × T) → Type 0
  Without k es = All (λ e. bytes_eq k (e.0) ≡ false) es

  IsKeyed-swap :
      (a b : Bytes × T) (es : List (Bytes × T)) → IsKeyed (a ∷ b ∷ es) → IsKeyed (b ∷ a ∷ es)
  IsKeyed-swap a b es ((ab, ae), (be, k)) =
      ((ground (arith, bytes_eq_iff (a.0) (b.0), bytes_eq_iff (b.0) (a.0)), be), (ae, k))

  pub IsKeyed-Permᴰ : {xs ys : List (Bytes × T)} → Permᴰ xs ys → IsKeyed xs → IsKeyed ys
  IsKeyed-Permᴰ Permᴰ.nil h = h
  IsKeyed-Permᴰ (Permᴰ.cons {l₂ = ys} e p) h =
      (subst (λ c. Without (c.0) ys) e (All-Permᴰ _ p h.0), IsKeyed-Permᴰ p h.1)
  IsKeyed-Permᴰ (Permᴰ.swap {a = a} {b = b} {l = es} e f) h =
      transport (λ i. IsKeyed (f i ∷ e i ∷ es)) (IsKeyed-swap a b es h)
  IsKeyed-Permᴰ (Permᴰ.trans p q) h = IsKeyed-Permᴰ q (IsKeyed-Permᴰ p h)

  lookup-swap :
      (a b : Bytes × T) (es : List (Bytes × T)) (k : Bytes)
      → IsKeyed (a ∷ b ∷ es)
      → lookup (a ∷ b ∷ es) k ≡ lookup (b ∷ a ∷ es) k
  unfolding lookup
  lookup-swap a b es k h =
      ground (arith, h.0.0, bytes_eq_iff (a.0) (b.0), bytes_eq_iff (a.0) k, bytes_eq_iff (b.0) k)

  lookup-cons :
      {a b : Bytes × T} (xs ys : List (Bytes × T)) (k : Bytes)
      → a ≡ b
      → lookup xs k ≡ lookup ys k
      → lookup (a ∷ xs) k ≡ lookup (b ∷ ys) k
  unfolding lookup
  lookup-cons {a} {b} xs ys k e h = ground (arith, ap (λ x. x.0) e, ap (λ x. x.1) e)

  -- In what order distinct keys stand does not matter.
  pub lookup-Permᴰ :
      {xs ys : List (Bytes × T)} (k : Bytes) → Permᴰ xs ys → IsKeyed xs → lookup xs k ≡ lookup ys k
  lookup-Permᴰ k Permᴰ.nil h = refl
  lookup-Permᴰ k (Permᴰ.cons e p) h = lookup-cons _ _ k e (lookup-Permᴰ k p h.1)
  lookup-Permᴰ k (Permᴰ.swap {a = a} {b = b} {l = es} e f) h =
      lookup-swap a b es k h ∙ (λ i. lookup (f i ∷ e i ∷ es) k)
  lookup-Permᴰ k (Permᴰ.trans p q) h = lookup-Permᴰ k p h ∙ lookup-Permᴰ k q (IsKeyed-Permᴰ p h)
