-- ===== src/BlobIndex/Archive/Shards.antt =====
-- The models of the shards of an index, and what they are read back as.
use mathlib.Core.List.{Permᴰ}
use mathlib.Core.List.Permᴰ
use mathlib.Core.Path.{subst}
use indexing_service.Prelude.{
  ◌≡◌, ◌∙◌, refl, sym, ap, false, Option, none, some, List, [], ◌∷◌, map, arith, All, Bytes,
  bytes_eq,
}
use indexing_service.Result.{ok, on_ok_lem, ok-injective, traverse}
use indexing_service.ByteMap
use indexing_service.ByteMap.{ByteMap, lookup, set}
use indexing_service.ByteMap.Laws.{IsKeyed}
use indexing_service.BlobIndex.{Position}
use indexing_service.BlobIndex.Slices.{slice_in}
use indexing_service.BlobIndex.Archive.{
  BlobSliceModel, BlobIndexModel, Codec, SortFunc, to_list, decode_hashes, sort_by_multihash,
  blob_index_data, set_slices,
}
use indexing_service.BlobIndex.Archive.Maps.{
  set_all, or_from, lookup-set_all, IsKeyed-Permᴰ, lookup-Permᴰ,
}
use indexing_service.BlobIndex.Archive.Blocks.{IsCodec}

pub or_from-none : {T : Type 0} (o : Option T) → or_from o none ≡ o
or_from-none none = refl
or_from-none (some v) = refl

pub traverse_ok :
    {A B : Type 0} (g : A → B) (xs : List A) → traverse (λ a. ok (g a)) xs ≡ ok (map g xs)
traverse_ok g [] = refl
traverse_ok g (x ∷ xs) = rw (traverse_ok g xs)

-- A slice and a shard of an index as entries of maps.
abbrev pub slice_model : Bytes × Position → BlobSliceModel
slice_model e = record { multihash = e.0; position = e.1 }

abbrev slice_entry : BlobSliceModel → Bytes × Position
slice_entry s = (s.multihash, s.position)

abbrev pub shard_entry : BlobIndexModel → Bytes × ByteMap Position
shard_entry b = (b.multihash, set_slices b.slices [])

slice_entries : (m : List (Bytes × Position)) → map slice_entry (map slice_model m) ≡ m
slice_entries [] = refl
slice_entries (e ∷ m) = ap (λ xs. e ∷ xs) (slice_entries m)

set_slices-set_all :
    (ss : List BlobSliceModel) (m : ByteMap Position)
    → set_slices ss m ≡ set_all (map slice_entry ss) m
unfolding set_slices set_all
set_slices-set_all [] m = refl
set_slices-set_all (s ∷ ss) m = set_slices-set_all ss (set m s.multihash s.position)

module _ (sort_func : SortFunc) (codec : Codec) (c : IsCodec sort_func codec) where
  pub sort_by_multihash-Permᴰ :
      {E : Type 0} (es sorted : List E) (get : E → Bytes)
      → sort_by_multihash sort_func codec es get ≡ ok sorted
      → Permᴰ sorted es
  unfolding sort_by_multihash
  sort_by_multihash-Permᴰ {E} es sorted get e =
      let (decodeds, e₁, e₂) =
        on_ok_lem (decode_hashes sort_func codec get es ByteMap.new_byte_map) _ _ e in
      subst (λ xs. Permᴰ xs es) (ok-injective e₂) (c.sort_lem E _ es)

  -- The slices of a shard are read back as they were.
  abbrev pub IsShard : Bytes → ByteMap Position → BlobIndexModel → Type 0
  IsShard h shard m =
      (m.multihash ≡ h) × ((k : Bytes) → lookup (set_slices m.slices []) k ≡ lookup shard k)

  sorted_slices :
      (shard : ByteMap Position) (sorted : List BlobSliceModel) (k : Bytes)
      → IsKeyed shard
      → Permᴰ sorted (map slice_model shard)
      → lookup (set_slices sorted []) k ≡ lookup shard k
  unfolding lookup
  sorted_slices shard sorted k keyed p =
      let q : Permᴰ shard (map slice_entry sorted) =
        subst (λ m. Permᴰ m (map slice_entry sorted)) (slice_entries shard)
          (Permᴰ.map slice_entry (Permᴰ.symm p)) in
      ap (λ m. lookup m k) (set_slices-set_all sorted [])
      ∙ lookup-set_all (map slice_entry sorted) [] k (IsKeyed-Permᴰ q keyed)
      ∙ or_from-none _
      ∙ sym (lookup-Permᴰ k q keyed)

  blob_index_data-IsShard :
      (h : Bytes) (shard : ByteMap Position) (m : BlobIndexModel)
      → IsKeyed shard
      → blob_index_data sort_func codec h shard ≡ ok m
      → IsShard h shard m
  unfolding blob_index_data to_list
  blob_index_data-IsShard h shard m keyed e =
      let (slices, e₁, f₁) = on_ok_lem (traverse (λ s. ok (slice_model s)) shard) _ _ e in
      let (sorted, e₂, f₂) =
        on_ok_lem (sort_by_multihash sort_func codec slices (λ s. s.multihash)) _ _ f₁ in
      let same : slices ≡ map slice_model shard =
        ok-injective (sym e₁ ∙ traverse_ok slice_model shard) in
      let p = sort_by_multihash-Permᴰ slices sorted (λ s. s.multihash) e₂ in
      let written = ok-injective f₂ in
      subst (IsShard h shard) written
        (refl, λ k. sorted_slices shard sorted k keyed (subst (Permᴰ sorted) same p))

  abbrev pub AllKeyed : List (Bytes × ByteMap Position) → Type 0
  AllKeyed shards = All (λ e. IsKeyed (e.1)) shards

  -- The models of shards, in their order.
  abbrev pub AreShards : List (Bytes × ByteMap Position) → List BlobIndexModel → Type 0
  AreShards [] [] = Unit {0}
  AreShards [] (m ∷ ms) = ⊥
  AreShards (e ∷ es) [] = ⊥
  AreShards (e ∷ es) (m ∷ ms) = IsShard (e.0) (e.1) m × AreShards es ms

  pub to_list-AreShards :
      (shards : List (Bytes × ByteMap Position)) (ms : List BlobIndexModel)
      → AllKeyed shards
      → to_list shards (blob_index_data sort_func codec) ≡ ok ms
      → AreShards shards ms
  unfolding to_list
  to_list-AreShards [] [] k e = tt
  to_list-AreShards [] (m ∷ ms) k e = cc
  to_list-AreShards (s ∷ shards) ms k e =
      let (m, e₁, f₁) = on_ok_lem (blob_index_data sort_func codec (s.0) (s.1)) _ _ e in
      let (rest, e₂, f₂) =
        on_ok_lem (traverse (λ e. blob_index_data sort_func codec (e.0) (e.1)) shards) _ _ f₁ in
      subst (AreShards (s ∷ shards)) (ok-injective f₂)
        (blob_index_data-IsShard (s.0) (s.1) m k.0 e₁, to_list-AreShards shards rest k.1 e₂)

  without_shard :
      (k : Bytes) (shards : List (Bytes × ByteMap Position)) (ms : List BlobIndexModel)
      → AreShards shards ms
      → All (λ e. bytes_eq k (e.0) ≡ false) shards
      → All (λ e. bytes_eq k (e.0) ≡ false) (map shard_entry ms)
  without_shard k [] [] a h = tt
  without_shard k [] (m ∷ ms) a h = absurd a
  without_shard k (s ∷ shards) [] a h = absurd a
  without_shard k (s ∷ shards) (m ∷ ms) a h = (rw (a.0.0) h.0, without_shard k shards ms a.1 h.1)

  pub shards-IsKeyed :
      (shards : List (Bytes × ByteMap Position)) (ms : List BlobIndexModel)
      → AreShards shards ms
      → IsKeyed shards
      → IsKeyed (map shard_entry ms)
  shards-IsKeyed [] [] a h = tt
  shards-IsKeyed [] (m ∷ ms) a h = absurd a
  shards-IsKeyed (s ∷ shards) [] a h = absurd a
  shards-IsKeyed (s ∷ shards) (m ∷ ms) a h =
      (rw (a.0.0) (without_shard (s.0) shards ms a.1 h.0), shards-IsKeyed shards ms a.1 h.1)

  pub same_slices :
      (shards : List (Bytes × ByteMap Position)) (ms : List BlobIndexModel) (s h : Bytes)
      → AreShards shards ms
      → slice_in (lookup (map shard_entry ms) s) h ≡ slice_in (lookup shards s) h
  unfolding ByteMap.lookup
  same_slices [] [] s h a = refl
  same_slices [] (m ∷ ms) s h a = absurd a
  same_slices (e ∷ shards) [] s h a = absurd a
  same_slices (e ∷ shards) (m ∷ ms) s h a =
      ground (arith, a.0.0, a.0.1 h, same_slices shards ms s h a.1)
