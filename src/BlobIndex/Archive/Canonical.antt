-- ===== src/BlobIndex/Archive/Canonical.antt =====
-- The archive of an index does not depend on the order in which Go iterates over its maps.
use mathlib.Core.List.{Permᴰ}
use mathlib.Core.List.Permᴰ
use mathlib.Core.Path.{subst}
use indexing_service.Prelude.{◌≡◌, ◌∙◌, refl, sym, ap, Bool, List, [], ◌∷◌, map, All, Bytes}
use indexing_service.Result.{ok, on_ok_lem, ok-injective, traverse}
use indexing_service.ByteMap.{ByteMap}
use indexing_service.BlobIndex.{Position, ShardedDagIndex}
use indexing_service.BlobIndex.Archive.{
  BlobIndexModel, Codec, SortFunc, to_list, sort_by_multihash, blob_index_data, archive,
}
use indexing_service.BlobIndex.Archive.Shards.{traverse_ok, slice_model}
use indexing_service.BlobIndex.Archive.Sorted.{Sorts, All-Permᴰ}
use indexing_service.BlobIndex.Archive.Digests.{
  Distinct, digest_of, traverse_cons, traverse-Permᴰ, sort_by_multihash-Permᴰ,
}

-- The same shards in the same order, each with the same slices in some order.
abbrev pub SlicesReordered :
    List (Bytes × ByteMap Position) → List (Bytes × ByteMap Position) → Type 0
SlicesReordered [] [] = Unit {0}
SlicesReordered [] (f ∷ fs) = ⊥
SlicesReordered (e ∷ es) [] = ⊥
SlicesReordered (e ∷ es) (f ∷ fs) = (e.0 ≡ f.0) × Permᴰ (e.1) (f.1) × SlicesReordered es fs

-- One index under two iterations over its maps.
abbrev pub Reordered : ShardedDagIndex → ShardedDagIndex → Type 0
Reordered a b =
    (a.content ≡ b.content)
    × ((mid : List (Bytes × ByteMap Position)) × Permᴰ a.shards mid × SlicesReordered mid b.shards)

module _ (sort_func : SortFunc) (codec : Codec) where
  -- The digests of the slices of a shard are all different.
  abbrev pub DistinctSlices : Bytes × ByteMap Position → Type 0
  DistinctSlices e = Distinct (map (λ s. digest_of codec (s.0)) (e.1))

  abbrev pub DistinctShards : List (Bytes × ByteMap Position) → Type 0
  DistinctShards shards = Distinct (map (λ e. digest_of codec (e.0)) shards)

  slice_digests :
      (m : List (Bytes × Position))
      → map (λ s. digest_of codec s.multihash) (map slice_model m)
        ≡ map (λ s. digest_of codec (s.0)) m
  slice_digests [] = refl
  slice_digests (s ∷ m) = ap (λ ds. digest_of codec (s.0) ∷ ds) (slice_digests m)

  module _ {leb : Bytes → Bytes → Bool} (sorts : Sorts sort_func leb) where
    blob_index_data-Permᴰ :
        (h : Bytes) (s s' : ByteMap Position) (model : BlobIndexModel)
        → Permᴰ s s'
        → DistinctSlices (h, s)
        → blob_index_data sort_func codec h s ≡ ok model
        → blob_index_data sort_func codec h s' ≡ ok model
    unfolding blob_index_data to_list
    blob_index_data-Permᴰ h s s' model p distinct e =
        let (slices, e₁, f₁) = on_ok_lem (traverse (λ s. ok (slice_model s)) s) _ model e in
        let (sorted, e₂, f₂) =
          on_ok_lem (sort_by_multihash sort_func codec slices (λ s. s.multihash)) _ model f₁ in
        let same : map slice_model s ≡ slices =
          ok-injective (sym (traverse_ok slice_model s) ∙ e₁) in
        let g =
          sort_by_multihash-Permᴰ codec sort_func (λ s. s.multihash) sorts (map slice_model s)
            (map slice_model s') sorted (Permᴰ.map slice_model p)
            (subst Distinct (sym (slice_digests s)) distinct)
            (ap (λ l. sort_by_multihash sort_func codec l (λ s. s.multihash)) same ∙ e₂) in
        rw (traverse_ok slice_model s') (rw g f₂)

    to_list-SlicesReordered :
        (es fs : List (Bytes × ByteMap Position)) (datas : List BlobIndexModel)
        → SlicesReordered es fs
        → All DistinctSlices es
        → to_list es (blob_index_data sort_func codec) ≡ ok datas
        → to_list fs (blob_index_data sort_func codec) ≡ ok datas
    unfolding to_list
    to_list-SlicesReordered [] [] datas r d e = e
    to_list-SlicesReordered [] (f ∷ fs) datas r d e = absurd r
    to_list-SlicesReordered (x ∷ es) [] datas r d e = absurd r
    to_list-SlicesReordered (x ∷ es) (y ∷ fs) datas (k, p, r) d e =
        let f = λ (e : Bytes × ByteMap Position). blob_index_data sort_func codec (e.0) (e.1) in
        let (model, e₁, f₁) = on_ok_lem (f x) _ datas e in
        let (rest, e₂, f₂) = on_ok_lem (traverse f es) _ datas f₁ in
        traverse_cons f y fs model rest
          (ap (λ h. blob_index_data sort_func codec h (y.1)) (sym k)
            ∙ blob_index_data-Permᴰ (x.0) (x.1) (y.1) model p d.0 e₁)
          (to_list-SlicesReordered es fs rest r d.1 e₂)
        ∙ f₂

  blob_index_data-multihash :
      (h : Bytes) (s : ByteMap Position) (model : BlobIndexModel)
      → blob_index_data sort_func codec h s ≡ ok model
      → h ≡ model.multihash
  unfolding blob_index_data
  blob_index_data-multihash h s model e =
      let (slices, e₁, f₁) =
        on_ok_lem (to_list s (λ h p. ok (record { multihash = h; position = p }))) _ model e in
      let (sorted, e₂, f₂) =
        on_ok_lem (sort_by_multihash sort_func codec slices (λ s. s.multihash)) _ model f₁ in
      ap (λ m. m.multihash) (ok-injective f₂)

  shard_digests :
      (es : List (Bytes × ByteMap Position)) (datas : List BlobIndexModel)
      → to_list es (blob_index_data sort_func codec) ≡ ok datas
      → map (λ e. digest_of codec (e.0)) es ≡ map (λ m. digest_of codec m.multihash) datas
  unfolding to_list
  shard_digests [] datas e = ap (map (λ m. digest_of codec m.multihash)) (ok-injective e)
  shard_digests (x ∷ es) datas e =
      let f = λ (e : Bytes × ByteMap Position). blob_index_data sort_func codec (e.0) (e.1) in
      let (model, e₁, f₁) = on_ok_lem (f x) _ datas e in
      let (rest, e₂, f₂) = on_ok_lem (traverse f es) _ datas f₁ in
      let key = ap (digest_of codec) (blob_index_data-multihash (x.0) (x.1) model e₁) in
      (λ i. key i ∷ shard_digests es rest e₂ i)
      ∙ ap (map (λ m. digest_of codec m.multihash)) (ok-injective f₂)

  -- Over a sort that permutes and gives its elements in the order of their keys: two indexes with
  -- the same content that differ only in the order of the iterations over their shards and over
  -- the slices of each shard have the same archive, if the digests of the multihashes of the
  -- shards are all different and those of the slices of each shard are too.
  pub archive-Reordered :
      {leb : Bytes → Bytes → Bool} (sorts : Sorts sort_func leb) (a b : ShardedDagIndex)
      (text : Bytes)
      → Reordered a b
      → DistinctShards a.shards
      → All DistinctSlices a.shards
      → archive sort_func codec a ≡ ok text
      → archive sort_func codec b ≡ ok text
  unfolding archive to_list
  archive-Reordered sorts a b text (content, (mid, p, r)) shards slices e =
      let data_of = λ (e : Bytes × ByteMap Position). blob_index_data sort_func codec (e.0) (e.1) in
      let (datas, e₁, f₁) = on_ok_lem (traverse data_of a.shards) _ text e in
      let (sorted, e₂, f₂) =
        on_ok_lem (sort_by_multihash sort_func codec datas (λ m. m.multihash)) _ text f₁ in
      let (datas', g, q) = traverse-Permᴰ data_of datas p e₁ in
      let g' =
        to_list-SlicesReordered sorts mid b.shards datas' r (All-Permᴰ DistinctSlices p slices) g in
      let h =
        sort_by_multihash-Permᴰ codec sort_func (λ m. m.multihash) sorts datas datas' sorted q
          (subst Distinct (shard_digests a.shards datas e₁) shards) e₂ in
      rw (← content) (rw g' (rw h f₂))
