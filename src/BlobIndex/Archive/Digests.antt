-- ===== src/BlobIndex/Archive/Digests.antt =====
-- Sorting by the digests of multihashes, when they are all different, whatever the order before.
use mathlib.Core.List.{Permᴰ}
use mathlib.Core.List.Permᴰ
use mathlib.Core.Path.{subst}
use indexing_service.Prelude.{
  ◌≡◌, ◌∙◌, refl, sym, ap, Bool, false, some, List, [], ◌∷◌, map, All, Bool-cases, inl, inr, Bytes,
  bytes_eq, bytes_eq_iff, bytes_eq_refl,
}
use indexing_service.Result.{Result, ok, err, on_ok_lem, ok-injective, traverse}
use indexing_service.ByteMap
use indexing_service.ByteMap.{ByteMap, lookup, set}
use indexing_service.ByteMap.Laws.{IsKeyed, lookup-set}
use indexing_service.BlobIndex.Archive.{Codec, SortFunc, decode_hashes, sort_by_multihash}
use indexing_service.BlobIndex.Archive.Sorted.{Sorts, keyed_by, All-Permᴰ, sort_unique}

-- No key stands twice.
abbrev pub Distinct : List Bytes → Type 0
Distinct [] = Unit {0}
Distinct (k ∷ ks) = All (λ j. bytes_eq k j ≡ false) ks × Distinct ks

Distinct-IsKeyed :
    {E : Type 0} (d : E → Bytes) (es : List E) → Distinct (map d es) → IsKeyed (keyed_by d es)
Distinct-IsKeyed {E} d [] h = tt
Distinct-IsKeyed {E} d (e ∷ es) h = (others es (h.0), Distinct-IsKeyed d es h.1)
  where
    others :
        (xs : List E)
        → All (λ j. bytes_eq (d e) j ≡ false) (map d xs)
        → All (λ x. bytes_eq (d e) (x.0) ≡ false) (keyed_by d xs)
    others [] a = tt
    others (x ∷ xs) a = (a.0, others xs a.1)

pub traverse_cons :
    {A B : Type 0} (f : A → Result B) (a : A) (xs : List A) (b : B) (bs : List B)
    → f a ≡ ok b
    → traverse f xs ≡ ok bs
    → traverse f (a ∷ xs) ≡ ok (b ∷ bs)
traverse_cons f a xs b bs e h = rw e (rw h refl)

pub traverse-Permᴰ :
    {A B : Type 0} (f : A → Result B) {xs ys : List A} (ws : List B)
    → Permᴰ xs ys
    → traverse f xs ≡ ok ws
    → (bs : List B) × (traverse f ys ≡ ok bs) × Permᴰ ws bs
traverse-Permᴰ f ws Permᴰ.nil e = (ws, e, Permᴰ.refl ws)
traverse-Permᴰ f ws (Permᴰ.cons {a = a} {b = b} {l₁ = xs} {l₂ = ys} p q) e =
    let (x, e₁, f₁) = on_ok_lem (f a) _ ws e in
    let (rest, e₂, f₂) = on_ok_lem (traverse f xs) _ ws f₁ in
    let (bs, g, r) = traverse-Permᴰ f rest q e₂ in
    (
      x ∷ bs,
      traverse_cons f b ys x bs (ap f (sym p) ∙ e₁) g,
      subst (λ l. Permᴰ l (x ∷ bs)) (ok-injective f₂) (Permᴰ.cons refl r),
    )
traverse-Permᴰ f ws (Permᴰ.swap {a = a} {b = b} {a' = a'} {b' = b'} {l = xs} p q) e =
    let (x, e₁, f₁) = on_ok_lem (f a) _ ws e in
    let (more, e₂, f₂) = on_ok_lem (traverse f (b ∷ xs)) _ ws f₁ in
    let (y, e₃, f₃) = on_ok_lem (f b) _ more e₂ in
    let (rest, e₄, f₄) = on_ok_lem (traverse f xs) _ more f₃ in
    (
      y ∷ x ∷ rest,
      traverse_cons f a' (b' ∷ xs) y (x ∷ rest) (ap f (sym q) ∙ e₃)
          (traverse_cons f b' xs x rest (ap f (sym p) ∙ e₁) e₄),
      subst (λ l. Permᴰ l (y ∷ x ∷ rest)) (ap (λ l. x ∷ l) (ok-injective f₄) ∙ ok-injective f₂)
          (Permᴰ.swap refl refl),
    )
traverse-Permᴰ f ws (Permᴰ.trans p q) e =
    let (bs, g, r) = traverse-Permᴰ f ws p e in
    let (cs, h, t) = traverse-Permᴰ f bs q g in (cs, h, Permᴰ.trans r t)

abbrev pub or_empty : Result Bytes → Bytes
or_empty (ok d) = d
or_empty (err e) = []

module _ (codec : Codec) where
  -- The digest of a multihash.
  abbrev pub digest_of : Bytes → Bytes
  digest_of h = or_empty (codec.multihash_decode h)

  module _ (sort_func : SortFunc) {E : Type 0} (get : E → Bytes) where
    abbrev Decodes : List E → Type 0
    Decodes es = All (λ e. codec.multihash_decode (get e) ≡ ok (digest_of (get e))) es

    decodes_as : (h d : Bytes) → codec.multihash_decode h ≡ ok d → d ≡ digest_of h
    decodes_as h d e = sym (ap or_empty e)

    decode_hashes-Decodes :
        (es : List E) (m m' : ByteMap Bytes)
        → decode_hashes sort_func codec get es m ≡ ok m'
        → Decodes es
    unfolding decode_hashes
    decode_hashes-Decodes [] m m' e = tt
    decode_hashes-Decodes (x ∷ es) m m' e =
        let (d, e₁, f₁) = on_ok_lem (codec.multihash_decode (get x)) _ m' e in
        (e₁ ∙ ap ok (decodes_as (get x) d e₁), decode_hashes-Decodes es (set m (get x) d) m' f₁)

    decode_hashes-kept :
        (es : List E) (m m' : ByteMap Bytes) (k : Bytes)
        → decode_hashes sort_func codec get es m ≡ ok m'
        → lookup m k ≡ some (digest_of k)
        → lookup m' k ≡ some (digest_of k)
    unfolding decode_hashes
    decode_hashes-kept [] m m' k e h = ap (λ m. lookup m k) (sym (ok-injective e)) ∙ h
    decode_hashes-kept (x ∷ es) m m' k e h =
        let (d, e₁, f₁) = on_ok_lem (codec.multihash_decode (get x)) _ m' e in
        decode_hashes-kept es (set m (get x) d) m' k f₁ (
          lookup-set m (get x) k d ∙ elim (Bool-cases (bytes_eq (get x) k)) [
            | inl q ↦
                rw q
                  (ap some (decodes_as (get x) d e₁ ∙ ap digest_of ((bytes_eq_iff (get x) k).0 q)))
            | inr q ↦ rw q h
          ])

    decode_hashes-found :
        (es : List E) (m m' : ByteMap Bytes)
        → decode_hashes sort_func codec get es m ≡ ok m'
        → All (λ e. ByteMap.get [] m' (get e) ≡ digest_of (get e)) es
    unfolding decode_hashes ByteMap.get
    decode_hashes-found [] m m' e = tt
    decode_hashes-found (x ∷ es) m m' e =
        let (d, e₁, f₁) = on_ok_lem (codec.multihash_decode (get x)) _ m' e in
        let at_x = decode_hashes-kept es (set m (get x) d) m' (get x) f₁ (
          lookup-set m (get x) (get x) d
          ∙ rw (bytes_eq_refl (get x)) (ap some (decodes_as (get x) d e₁))) in
        (rw (at_x, ByteMap.get) refl, decode_hashes-found es (set m (get x) d) m' f₁)

    decode_hashes_ok :
        (es : List E) (m : ByteMap Bytes)
        → Decodes es
        → (m' : ByteMap Bytes) × (decode_hashes sort_func codec get es m ≡ ok m')
    unfolding decode_hashes
    decode_hashes_ok [] m h = (m, refl)
    decode_hashes_ok (x ∷ es) m h =
        let (m', e) = decode_hashes_ok es (set m (get x) (digest_of (get x))) h.1 in
        (m', rw (h.0) e)

    pub sort_by_multihash-Permᴰ :
        {leb : Bytes → Bytes → Bool} (sorts : Sorts sort_func leb) (es ds sorted : List E)
        → Permᴰ es ds
        → Distinct (map (λ e. digest_of (get e)) es)
        → sort_by_multihash sort_func codec es get ≡ ok sorted
        → sort_by_multihash sort_func codec ds get ≡ ok sorted
    unfolding sort_by_multihash
    sort_by_multihash-Permᴰ sorts es ds sorted p distinct e =
        let d = λ (e : E). digest_of (get e) in
        let new = ByteMap.new_byte_map in
        let (m, e₁, f₁) = on_ok_lem (decode_hashes sort_func codec get es new) _ sorted e in
        let decodes = All-Permᴰ _ p (decode_hashes-Decodes es new m e₁) in
        let (m', g₁) = decode_hashes_ok ds new decodes in
        let unique =
          sort_unique sorts d (λ e. ByteMap.get [] m (get e)) (λ e. ByteMap.get [] m' (get e)) es ds
            p (decode_hashes-found es new m e₁) (decode_hashes-found ds new m' g₁)
            (Distinct-IsKeyed d es distinct) in
        rw g₁ (ap ok (sym unique) ∙ f₁)
