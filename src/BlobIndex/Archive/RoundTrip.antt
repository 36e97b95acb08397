-- ===== src/BlobIndex/Archive/RoundTrip.antt =====
-- Extracting an archive.
use mathlib.Core.List.{Permᴰ}
use mathlib.Core.List.Permᴰ
use mathlib.Core.Path.{subst}
use indexing_service.Prelude.{
  ◌≡◌, ◌∙◌, refl, sym, ap, some, List, [], ◌∷◌, ◌++◌, map, inr, All, All-append, All-split, Bytes,
}
use indexing_service.Result.{ok, on_ok_lem, ok-injective, traverse}
use indexing_service.ByteMap
use indexing_service.ByteMap.{ByteMap, lookup, set}
use indexing_service.ByteMap.Laws.{IsKeyed}
use indexing_service.BlobIndex.{Position, ShardedDagIndex, new_sharded_dag_index_view}
use indexing_service.BlobIndex.Slices.{slice_in, slice_at}
use indexing_service.BlobIndex.Archive.{
  BlobIndexModel, ShardedDagIndexModel01, IpldBlock, Codec, SortFunc, to_list, sort_by_multihash,
  blob_index_data, archive, first_root, decode_car, view_shards, view_version, view, extract,
  set_slices,
}
use indexing_service.BlobIndex.Archive.Maps.{set_all, lookup-set_all, IsKeyed-Permᴰ, lookup-Permᴰ}
use indexing_service.BlobIndex.Archive.Blocks.{
  IsCodec, IsEncoded, Holds, block_map_lem, read_block_lem, All-IsEncoded,
}
use indexing_service.BlobIndex.Archive.Shards.{
  or_from-none, shard_entry, sort_by_multihash-Permᴰ, AllKeyed, to_list-AreShards, shards-IsKeyed,
  same_slices,
}

-- An index whose content is the link of a block.
abbrev rooted : Bytes → ByteMap (ByteMap Position) → ShardedDagIndex
rooted root shards = record { content = root; shards = shards }

module _ (sort_func : SortFunc) (codec : Codec) (c : IsCodec sort_func codec) where
  -- The shards of a list of links, each held as an encoded model.
  view_shards_lem :
      (ms : List BlobIndexModel) (bs : List IpldBlock) (blocks : ByteMap IpldBlock) (root : Bytes)
      (shards : ByteMap (ByteMap Position))
      → traverse codec.encode_blob_index ms ≡ ok bs
      → All (Holds blocks) bs
      → view_shards codec (map (λ b. b.link) bs) blocks (rooted root shards)
        ≡ ok (rooted root (set_all (map shard_entry ms) shards))
  unfolding view_shards set_all ByteMap.new_byte_map
  view_shards_lem [] [] blocks root shards e h = refl
  view_shards_lem [] (b ∷ bs) blocks root shards e h = cc
  view_shards_lem (m ∷ ms) bs blocks root shards e h =
      let (b, encoded, e₁) = on_ok_lem (codec.encode_blob_index m) _ _ e in
      let (bs', rest, e₂) = on_ok_lem (traverse codec.encode_blob_index ms) _ _ e₁ in
      let same : b ∷ bs' ≡ bs = ok-injective e₂ in
      let held : All (Holds blocks) (b ∷ bs') = subst (All (Holds blocks)) (sym same) h in
      let read =
        read_block_lem codec c codec.decode_blob_index blocks b m held.0
          (c.blob_index_lem m b encoded) in
      subst
        (λ xs.
          view_shards codec (map (λ b. b.link) xs) blocks (rooted root shards)
          ≡ ok (rooted root (set_all (map shard_entry (m ∷ ms)) shards)))
        same
        (rw read (
          view_shards_lem ms bs' blocks root (set shards m.multihash (set_slices m.slices [])) rest
            held.1))

  -- What archiving an index put together.
  record Parts (index : ShardedDagIndex) (bytes : Bytes) : Type 0 where
    models : List BlobIndexModel
    sorted : List BlobIndexModel
    blks : List IpldBlock
    root : IpldBlock
    modelled : to_list index.shards (blob_index_data sort_func codec) ≡ ok models
    permuted : Permᴰ sorted models
    encoded : traverse codec.encode_blob_index sorted ≡ ok blks
    root_encoded :
        codec.encode_root (record {
          dag_o_1 = some (record { content = index.content; shards = map (λ b. b.link) blks });
        })
        ≡ ok root
    file : codec.car_encode (root.link ∷ []) (blks ++ root ∷ []) ≡ bytes

  archive-Parts :
      (index : ShardedDagIndex) (bytes : Bytes)
      → archive sort_func codec index ≡ ok bytes
      → Parts index bytes
  unfolding archive
  archive-Parts index bytes e =
      let (models, e₁, f₁) =
        on_ok_lem (to_list index.shards (blob_index_data sort_func codec)) _ _ e in
      let (sorted, e₂, f₂) =
        on_ok_lem (sort_by_multihash sort_func codec models (λ b. b.multihash)) _ _ f₁ in
      let (blks, e₃, f₃) = on_ok_lem (traverse codec.encode_blob_index sorted) _ _ f₂ in
      let (root, e₄, f₄) = on_ok_lem (codec.encode_root _) _ _ f₃ in
      record {
        models = models;
        sorted = sorted;
        blks = blks;
        root = root;
        modelled = e₁;
        permuted = sort_by_multihash-Permᴰ sort_func codec c models sorted (λ b. b.multihash) e₂;
        encoded = e₃;
        root_encoded = e₄;
        file = ok-injective f₄;
      }

  extract_parts :
      (index : ShardedDagIndex) (bytes : Bytes) (p : Parts index bytes)
      → extract codec bytes ≡ ok (rooted p.root.link (set_all (map shard_entry p.sorted) []))
  unfolding extract decode_car first_root view view_version new_sharded_dag_index_view
      ByteMap.new_byte_map
  extract_parts index bytes p =
      let encoded_blks : All (IsEncoded codec) (p.blks ++ p.root ∷ []) =
        All-append _ p.blks (p.root ∷ []) (All-IsEncoded codec c p.sorted p.blks p.encoded)
          (inr (_, p.root_encoded), tt) in
      let (blocks, mapped, _, held) =
        block_map_lem codec c (p.blks ++ p.root ∷ []) [] [] encoded_blks tt tt in
      let (held_blks, held_root) = All-split (Holds blocks) p.blks (p.root ∷ []) held in
      let read =
        read_block_lem codec c codec.decode_root blocks p.root _ held_root.0
          (c.root_lem _ p.root p.root_encoded) in
      rw (← p.file) (
        rw (c.car_lem (p.root.link ∷ []) (p.blks ++ p.root ∷ [])) (
          rw (c.root_codec _ p.root p.root_encoded, first_root)
            (rw mapped (
              rw read
                (view_shards_lem p.sorted p.blks blocks p.root.link [] p.encoded held_blks)))))

  -- Over encodings that read what they write, and a sort that permutes, an index whose shards have
  -- distinct multihashes, and whose slices have distinct multihashes in each shard, is extracted
  -- again from its archive: each slice of each shard is found at its position. The content is not
  -- kept: what is extracted has the link of the root block as its content, where the root block
  -- holds the content of the index.
  pub extract-archive :
      (index : ShardedDagIndex) (bytes : Bytes)
      → archive sort_func codec index ≡ ok bytes
      → IsKeyed index.shards
      → AllKeyed sort_func codec c index.shards
      → (found : ShardedDagIndex) × (extract codec bytes ≡ ok found)
        × ((s h : Bytes) → slice_at found s h ≡ slice_at index s h)
        × ((m : ShardedDagIndexModel01) × (root : IpldBlock) × (m.content ≡ index.content)
            × (codec.encode_root (record { dag_o_1 = some m }) ≡ ok root)
            × (found.content ≡ root.link))
  unfolding slice_at lookup
  extract-archive index bytes e keyed all =
      let p = archive-Parts index bytes e in
      let are = to_list-AreShards sort_func codec c index.shards p.models all p.modelled in
      let keys = shards-IsKeyed sort_func codec c index.shards p.models are keyed in
      let q = Permᴰ.map shard_entry (Permᴰ.symm p.permuted) in
      (
        rooted p.root.link (set_all (map shard_entry p.sorted) []),
        extract_parts index bytes p,
        λ s h.
            ap (λ o. slice_in o h)
              (lookup-set_all (map shard_entry p.sorted) [] s (IsKeyed-Permᴰ q keys)
                ∙ or_from-none _
                ∙ sym (lookup-Permᴰ s q keys))
            ∙ same_slices sort_func codec c index.shards p.models s h are,
        (_, p.root, refl, p.root_encoded, refl),
      )
