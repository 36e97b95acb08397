-- ===== src/Samples/Numbers.antt =====
-- A codec of numbers with lengths before strings, and an archive that it makes.
use mathlib.Core.List.Permᴰ
use mathlib.Core.Path.{subst}
use indexing_service.Prelude.{
  ℕ, zero, suc, ◌≡◌, ◌∙◌, refl, sym, ap, inl, inr, some, none, Option, List, [], ◌∷◌, ◌++◌, map,
  Bytes, length,
}
use indexing_service.Result.{Result, ok, err, foreign, ok-injective}
use indexing_service.BlobIndex.{ShardedDagIndex}
use indexing_service.BlobIndex.Archive.{
  BlobSliceModel, BlobIndexModel, ShardedDagIndexModel, ShardedDagIndexModel01, IpldBlock, Codec,
  SortFunc, dag_cbor,
}
use indexing_service.BlobIndex.Archive.Blocks.{IsCodec, IsEncoded}

abbrev pub take_string : ℕ → List ℕ → Bytes × List ℕ
take_string zero r = ([], r)
take_string (suc n) [] = ([], [])
take_string (suc n) (x ∷ r) = let (b, rest) = take_string n r in (x ∷ b, rest)

abbrev pub put_string : Bytes → List ℕ → List ℕ
put_string b r = length b ∷ (b ++ r)

abbrev pub get_string : List ℕ → Bytes × List ℕ
get_string [] = ([], [])
get_string (n ∷ r) = take_string n r

pub take_put : (b : Bytes) (r : List ℕ) → take_string (length b) (b ++ r) ≡ (b, r)
take_put [] r = refl
take_put (x ∷ b) r = rw (take_put b r)

abbrev pub put_strings : List Bytes → List ℕ → List ℕ
put_strings [] r = r
put_strings (b ∷ bs) r = put_string b (put_strings bs r)

abbrev pub get_strings : ℕ → List ℕ → List Bytes × List ℕ
get_strings zero r = ([], r)
get_strings (suc n) r =
    let (b, rest) = get_string r in let (bs, rest') = get_strings n rest in (b ∷ bs, rest')

pub get_put : (bs : List Bytes) (r : List ℕ) → get_strings (length bs) (put_strings bs r) ≡ (bs, r)
get_put [] r = refl
get_put (b ∷ bs) r = rw (take_put b (put_strings bs r)) (rw (get_put bs r))

abbrev put_slices : List BlobSliceModel → List ℕ
put_slices [] = []
put_slices (s ∷ ss) = put_string s.multihash (s.position.offset ∷ s.position.length ∷ put_slices ss)

abbrev slice_with : Bytes → List ℕ → (List ℕ → List BlobSliceModel) → List BlobSliceModel
slice_with b (o ∷ l ∷ r) rest =
    record { multihash = b; position = record { offset = o; length = l } } ∷ rest r
slice_with b _ rest = []

abbrev get_slices : ℕ → List ℕ → List BlobSliceModel
get_slices zero r = []
get_slices (suc n) r = let (b, r') = get_string r in slice_with b r' (get_slices n)

get_put_slices : (ss : List BlobSliceModel) → get_slices (length ss) (put_slices ss) ≡ ss
get_put_slices [] = refl
get_put_slices (s ∷ ss) =
    rw (take_put s.multihash (s.position.offset ∷ s.position.length ∷ put_slices ss))
      (ap (λ xs. s ∷ xs) (get_put_slices ss))

abbrev put_blocks : List IpldBlock → List ℕ
put_blocks [] = []
put_blocks (b ∷ bs) = put_string b.link (put_string b.bytes (put_blocks bs))

abbrev get_blocks : ℕ → List ℕ → List (Result IpldBlock)
get_blocks zero r = []
get_blocks (suc n) r =
    let (l, r') = get_string r in
    let (b, r'') = get_string r' in ok (record { link = l; bytes = b }) ∷ get_blocks n r''

get_put_blocks : (bs : List IpldBlock) → get_blocks (length bs) (put_blocks bs) ≡ map ok bs
get_put_blocks [] = refl
get_put_blocks (b ∷ bs) =
    rw (take_put b.link (put_string b.bytes (put_blocks bs)))
      (rw (take_put b.bytes (put_blocks bs)) (ap (λ xs. ok b ∷ xs) (get_put_blocks bs)))

abbrev block : List ℕ → IpldBlock
block bytes = record { link = bytes; bytes = bytes }

abbrev put_root : Option ShardedDagIndexModel01 → Result IpldBlock
put_root none = err (foreign 1)
put_root (some m) =
    ok (block (1 ∷ put_string m.content (length m.shards ∷ put_strings m.shards [])))

abbrev shards_with : Bytes → List ℕ → Result ShardedDagIndexModel
shards_with b [] = err (foreign 2)
shards_with b (n ∷ r) =
    ok (record { dag_o_1 = some (record { content = b; shards = (get_strings n r).0 }) })

abbrev get_root : List ℕ → Result ShardedDagIndexModel
get_root [] = err (foreign 3)
get_root (t ∷ r) = let (b, r') = get_string r in shards_with b r'

abbrev slices_with : Bytes → List ℕ → Result BlobIndexModel
slices_with b [] = err (foreign 4)
slices_with b (n ∷ r) = ok (record { multihash = b; slices = get_slices n r })

abbrev get_blob_index : List ℕ → Result BlobIndexModel
get_blob_index [] = err (foreign 5)
get_blob_index (t ∷ r) = let (b, r') = get_string r in slices_with b r'

abbrev get_file : List Bytes × List ℕ → Result (List Bytes × List (Result IpldBlock))
get_file (roots, []) = err (foreign 6)
get_file (roots, n ∷ r) = ok (roots, get_blocks n r)

abbrev get_car : List ℕ → Result (List Bytes × List (Result IpldBlock))
get_car [] = err (foreign 7)
get_car (n ∷ r) = get_file (get_strings n r)

abbrev pub numbers : Codec
numbers = record {
  multihash_decode = λ b. ok b;
  encode_blob_index =
      λ m. ok (block (0 ∷ put_string m.multihash (length m.slices ∷ put_slices m.slices)));
  decode_blob_index = get_blob_index;
  encode_root = λ m. put_root m.dag_o_1;
  decode_root = get_root;
  car_encode = λ roots blocks. length roots ∷ put_strings roots (length blocks ∷ put_blocks blocks);
  car_decode = get_car;
  cid_codec = λ l. dag_cbor;
}

abbrev pub unsorted : SortFunc
unsorted E key es = es

blob_index_read :
    (m : BlobIndexModel) (b : IpldBlock)
    → numbers.encode_blob_index m ≡ ok b
    → get_blob_index b.bytes ≡ ok m
blob_index_read m b e =
    subst (λ b. get_blob_index b.bytes ≡ ok m) (ok-injective e)
      (rw (take_put m.multihash (length m.slices ∷ put_slices m.slices))
        (ap (λ ss. ok (record { multihash = m.multihash; slices = ss })) (get_put_slices m.slices)))

root_read :
    (o : Option ShardedDagIndexModel01) (b : IpldBlock)
    → put_root o ≡ ok b
    → get_root b.bytes ≡ ok (record { dag_o_1 = o })
root_read none b e = cc
root_read (some m) b e =
    subst (λ b. get_root b.bytes ≡ ok (record { dag_o_1 = some m })) (ok-injective e)
      (rw (take_put m.content (length m.shards ∷ put_strings m.shards []))
        (rw (get_put m.shards [])))

block_link : (b : IpldBlock) → IsEncoded numbers b → b.link ≡ b.bytes
block_link b (inl (m, e)) = subst (λ b. b.link ≡ b.bytes) (ok-injective e) refl
block_link b (inr (m, e)) = of_root m.dag_o_1 e
  where
    of_root : (o : Option ShardedDagIndexModel01) → put_root o ≡ ok b → b.link ≡ b.bytes
    of_root none f = cc
    of_root (some m) f = subst (λ b. b.link ≡ b.bytes) (ok-injective f) refl

pub numbers-IsCodec : IsCodec unsorted numbers
numbers-IsCodec = record {
  sort_lem = λ E key es. Permᴰ.refl es;
  blob_index_lem = blob_index_read;
  root_lem = λ m b e. root_read m.dag_o_1 b e;
  root_codec = λ m b e. refl;
  car_lem = λ roots blocks.
      rw (get_put roots (length blocks ∷ put_blocks blocks))
        (ap (λ bs. ok (roots, bs)) (get_put_blocks blocks));
  link_lem = λ a b ea eb e. sym (block_link a ea) ∙ e ∙ block_link b eb;
}

-- Two shards, one with two slices.
abbrev pub two_shards : ShardedDagIndex
two_shards = record {
  content = 9 ∷ [];
  shards =
      (
        (1 ∷ []),
        (((4 ∷ []), record { offset = 0; length = 2 })
            ∷ ((5 ∷ []), record { offset = 2; length = 3 })
            ∷ []),
      )
      ∷ ((2 ∷ []), (((6 ∷ []), record { offset = 7; length = 1 }) ∷ []))
      ∷ [];
}

abbrev shard_blocks : List IpldBlock
shard_blocks =
    block (0 ∷ 1 ∷ 1 ∷ 2 ∷ 1 ∷ 4 ∷ 0 ∷ 2 ∷ 1 ∷ 5 ∷ 2 ∷ 3 ∷ [])
    ∷ block (0 ∷ 1 ∷ 2 ∷ 1 ∷ 1 ∷ 6 ∷ 7 ∷ 1 ∷ [])
    ∷ []

abbrev pub root_block : IpldBlock
root_block = block (1 ∷ 1 ∷ 9 ∷ 2 ∷ put_strings (map (λ b. b.link) shard_blocks) [])

abbrev pub file : Bytes
file = numbers.car_encode (root_block.link ∷ []) (shard_blocks ++ root_block ∷ [])

-- The index that is read from the file: its content is the link of the file's root.
abbrev pub read_index : ShardedDagIndex
read_index = record { content = root_block.link; shards = two_shards.shards }

abbrev pub read_root : IpldBlock
read_root =
    block (1 ∷ put_string root_block.link (2 ∷ put_strings (map (λ b. b.link) shard_blocks) []))

abbrev pub read_file : Bytes
read_file = numbers.car_encode (read_root.link ∷ []) (shard_blocks ++ read_root ∷ [])
