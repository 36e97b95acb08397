-- ===== src/BlobIndex/Archive/Blocks.antt =====
-- The block encodings and CAR files that an archive rests on, and the blocks found in one.
use mathlib.Core.List.{Permᴰ}
use mathlib.Core.Path.{subst}
use indexing_service.Prelude.{
  ◌≡◌, ◌⊎◌, inl, inr, refl, ◌∙◌, some, List, [], ◌∷◌, map, arith, All, Bytes, bytes_eq,
  bytes_eq_iff, Bool-cases,
}
use indexing_service.Result.{Result, ok, on_ok_lem, ok-injective, traverse}
use indexing_service.ByteMap.{ByteMap, lookup, set}
use indexing_service.ByteMap.Laws.{lookup-set}
use indexing_service.BlobIndex.Archive.{
  BlobIndexModel, ShardedDagIndexModel, IpldBlock, Codec, SortFunc, dag_cbor, block_map, read_block,
}

-- A block that one of the two encodings gave.
abbrev pub IsEncoded : Codec → IpldBlock → Type 0
IsEncoded codec b =
    ((m : BlobIndexModel) × (codec.encode_blob_index m ≡ ok b))
    ⊎ ((m : ShardedDagIndexModel) × (codec.encode_root m ≡ ok b))

-- SortFunc permutes. What was encoded is decoded, a root block is DAG-CBOR, a CAR file gives back its
-- roots and its blocks, and two encoded blocks with one link have the same bytes.
pub record IsCodec (sort_func : SortFunc) (codec : Codec) : Type 1 where
  pub sort_lem : (E : Type 0) (key : E → Bytes) (es : List E) → Permᴰ (sort_func E key es) es
  pub blob_index_lem :
      (m : BlobIndexModel) (b : IpldBlock)
      → codec.encode_blob_index m ≡ ok b
      → codec.decode_blob_index b.bytes ≡ ok m
  pub root_lem :
      (m : ShardedDagIndexModel) (b : IpldBlock)
      → codec.encode_root m ≡ ok b
      → codec.decode_root b.bytes ≡ ok m
  pub root_codec :
      (m : ShardedDagIndexModel) (b : IpldBlock)
      → codec.encode_root m ≡ ok b
      → codec.cid_codec b.link ≡ dag_cbor
  pub car_lem :
      (roots : List Bytes) (blocks : List IpldBlock)
      → codec.car_decode (codec.car_encode roots blocks) ≡ ok (roots, map ok blocks)
  pub link_lem :
      (a b : IpldBlock)
      → IsEncoded codec a
      → IsEncoded codec b
      → a.link ≡ b.link
      → a.bytes ≡ b.bytes

-- A block's bytes are found under its link.
abbrev pub Holds : ByteMap IpldBlock → IpldBlock → Type 0
Holds m b = (found : IpldBlock) × (lookup m b.link ≡ some found) × (found.bytes ≡ b.bytes)

module _ {sort_func : SortFunc} (codec : Codec) (c : IsCodec sort_func codec) where
  Holds-set :
      (m : ByteMap IpldBlock) (x b : IpldBlock)
      → IsEncoded codec x
      → IsEncoded codec b
      → Holds m b
      → Holds (set m x.link x) b
  Holds-set m x b ex eb (found, at, same) = elim (Bool-cases (bytes_eq x.link b.link)) [
    | inl e ↦ (
      x,
      lookup-set m x.link b.link x ∙ ground (arith, e),
      c.link_lem x b ex eb ((bytes_eq_iff x.link b.link).0 e),
    )
    | inr e ↦ (found, lookup-set m x.link b.link x ∙ ground (arith, e, at), same)
  ]

  Holds-set_self : (m : ByteMap IpldBlock) (x : IpldBlock) → Holds (set m x.link x) x
  Holds-set_self m x =
      (x, lookup-set m x.link x.link x ∙ ground (arith, bytes_eq_iff x.link x.link), refl)

  All-held :
      (m : ByteMap IpldBlock) (x : IpldBlock) (old : List IpldBlock)
      → IsEncoded codec x
      → All (IsEncoded codec) old
      → All (Holds m) old
      → All (Holds (set m x.link x)) old
  All-held m x [] ex e h = tt
  All-held m x (b ∷ old) ex e h = (Holds-set m x b ex e.0 h.0, All-held m x old ex e.1 h.1)

  -- The map of the blocks of a file holds all of them.
  pub block_map_lem :
      (xs : List IpldBlock) (m : ByteMap IpldBlock) (old : List IpldBlock)
      → All (IsEncoded codec) xs
      → All (IsEncoded codec) old
      → All (Holds m) old
      → (blocks : ByteMap IpldBlock) × (block_map (map ok xs) m ≡ ok blocks)
        × All (Holds blocks) old
        × All (Holds blocks) xs
  unfolding block_map
  block_map_lem [] m old ex eo h = (m, refl, h, tt)
  block_map_lem (x ∷ xs) m old ex eo h =
      let (blocks, e, held, rest) =
        block_map_lem xs (set m x.link x) (x ∷ old) ex.1 (ex.0, eo)
          (Holds-set_self m x, All-held m x old ex.0 eo h) in
      (blocks, e, held.1, (held.0, rest))

  -- A block that is held is read as what its bytes decode to.
  pub read_block_lem :
      {A : Type 0} (decode : Bytes → Result A) (blocks : ByteMap IpldBlock) (b : IpldBlock) (a : A)
      → Holds blocks b
      → decode b.bytes ≡ ok a
      → read_block codec decode blocks b.link ≡ ok a
  unfolding read_block
  read_block_lem decode blocks b a (found, at, same) e = rw (at, read_block) (rw same (rw e))

  pub All-IsEncoded :
      (ms : List BlobIndexModel) (bs : List IpldBlock)
      → traverse codec.encode_blob_index ms ≡ ok bs
      → All (IsEncoded codec) bs
  All-IsEncoded [] [] e = tt
  All-IsEncoded [] (b ∷ bs) e = cc
  All-IsEncoded (m ∷ ms) bs e =
      let (b, encoded, e₁) = on_ok_lem (codec.encode_blob_index m) _ _ e in
      let (bs', rest, e₂) = on_ok_lem (traverse codec.encode_blob_index ms) _ _ e₁ in
      let same : b ∷ bs' ≡ bs = ok-injective e₂ in
      subst (All (IsEncoded codec)) same (inl (m, encoded), All-IsEncoded ms bs' rest)
