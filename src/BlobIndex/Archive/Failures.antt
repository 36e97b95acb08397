-- ===== src/BlobIndex/Archive/Failures.antt =====
-- Why the extraction of an index fails.
use mathlib.Core.Path.{subst}
use indexing_service.Prelude.{
  ◌≡◌, ◌⊎◌, inl, inr, refl, sym, Option, none, some, List, [], ◌∷◌, Bytes, Option-cases,
}
use indexing_service.Result.{
  Result, ok, err, Err, on_ok_failed, missing_block, unknown_index_version,
}
use indexing_service.ByteMap
use indexing_service.ByteMap.{ByteMap}
use indexing_service.BlobIndex.{ShardedDagIndex}
use indexing_service.BlobIndex.Errors.{
  new_unknown_format_error, new_decode_failure_error, ExtractError, an_unknown_format,
  a_decode_failure,
}
use indexing_service.BlobIndex.Archive.{
  IpldBlock, ShardedDagIndexModel, ShardedDagIndexModel01, Codec, read_block, view_shards,
  view_version, view, decode_car, extract, failing_as,
}

-- An element of a list.
abbrev pub IsAmong : Bytes → List Bytes → Type 0
IsAmong l [] = ⊥
IsAmong l (k ∷ ks) = (l ≡ k) ⊎ IsAmong l ks

module _ (codec : Codec) where
  -- A block that is missing, or that does not decode.
  abbrev pub BlockFails :
      {A : Type 0} → (Bytes → Result A) → ByteMap IpldBlock → Bytes → Err → Type 0
  BlockFails decode blocks l e =
      ((ByteMap.lookup blocks l ≡ none) × (e ≡ new_decode_failure_error (missing_block l)))
      ⊎ ((b : IpldBlock) × (reason : Err) × (ByteMap.lookup blocks l ≡ some b)
          × (decode b.bytes ≡ err reason)
          × (e ≡ new_decode_failure_error reason))

  failing_as_failed :
      {A : Type 0} (r : Result A) (f : Err → Err) (e : Err)
      → failing_as codec r f ≡ err e
      → (reason : Err) × (r ≡ err reason) × (e ≡ f reason)
  failing_as_failed (ok a) f e h = cc
  failing_as_failed (err x) f e h = (x, refl, cc)

  read_block-BlockFails :
      {A : Type 0} (decode : Bytes → Result A) (blocks : ByteMap IpldBlock) (l : Bytes) (e : Err)
      → read_block codec decode blocks l ≡ err e
      → BlockFails decode blocks l e
  unfolding read_block
  read_block-BlockFails {A} decode blocks l e h = elim (Option-cases (ByteMap.lookup blocks l)) [
    | inl q ↦ inl (q, missing (rw (q, read_block) at h))
    | inr (b, q) ↦
        let (reason, d, same) =
          failing_as_failed (decode b.bytes) new_decode_failure_error e (rw (q, read_block) at h) in
        inr (b, reason, q, d, same)
  ]
    where
      missing :
          ◌≡◌ {A = Result A} (err (new_decode_failure_error (missing_block l))) (err e)
          → e ≡ new_decode_failure_error (missing_block l)
      missing f = cc

  -- Why the extraction of a file fails with an error: the file is no CAR with a root of DAG-CBOR and
  -- readable blocks; the block of the root, or that of a shard, is missing or does not decode; or the
  -- root block has no model of the known version.
  pub data Fails (r : Bytes) (e : Err) : Type 0 where
    unreadable :
        (reason : Err)
        → decode_car codec r ≡ err reason
        → e ≡ new_unknown_format_error reason
        → Fails r e
    root_fails :
        (root : Bytes) (blocks : ByteMap IpldBlock)
        → decode_car codec r ≡ ok (root, blocks)
        → BlockFails codec.decode_root blocks root e
        → Fails r e
    no_version :
        (root : Bytes) (blocks : ByteMap IpldBlock) (m : ShardedDagIndexModel)
        → decode_car codec r ≡ ok (root, blocks)
        → read_block codec codec.decode_root blocks root ≡ ok m
        → m.dag_o_1 ≡ none
        → e ≡ new_unknown_format_error unknown_index_version
        → Fails r e
    shard_fails :
        (root : Bytes) (blocks : ByteMap IpldBlock) (m : ShardedDagIndexModel)
        (d : ShardedDagIndexModel01) (l : Bytes)
        → decode_car codec r ≡ ok (root, blocks)
        → read_block codec codec.decode_root blocks root ≡ ok m
        → m.dag_o_1 ≡ some d
        → IsAmong l d.shards
        → BlockFails codec.decode_blob_index blocks l e
        → Fails r e

  view_shards-fails :
      (ls : List Bytes) (blocks : ByteMap IpldBlock) (index : ShardedDagIndex) (e : Err)
      → view_shards codec ls blocks index ≡ err e
      → (l : Bytes) × IsAmong l ls × BlockFails codec.decode_blob_index blocks l e
  unfolding view_shards
  view_shards-fails [] blocks index e h = cc
  view_shards-fails (l ∷ ls) blocks index e h =
      elim (on_ok_failed (read_block codec codec.decode_blob_index blocks l) _ e h) [
        | inl f ↦ (l, inl refl, read_block-BlockFails codec.decode_blob_index blocks l e f)
        | inr (model, q, f) ↦
            let (l', among, fails) = view_shards-fails ls blocks _ e f in (l', inr among, fails)
      ]

  view-Fails :
      (r root : Bytes) (blocks : ByteMap IpldBlock) (e : Err)
      → decode_car codec r ≡ ok (root, blocks)
      → view codec root blocks ≡ err e
      → Fails r e
  unfolding view view_version
  view-Fails r root blocks e d h =
      elim (on_ok_failed (read_block codec codec.decode_root blocks root) _ e h) [
        | inl f ↦ root_fails root blocks d (read_block-BlockFails codec.decode_root blocks root e f)
        | inr (m, q, f) ↦ of_version m q m.dag_o_1 refl f
      ]
    where
      of_version :
          (m : ShardedDagIndexModel)
          → read_block codec codec.decode_root blocks root ≡ ok m
          → (o : Option ShardedDagIndexModel01) → m.dag_o_1 ≡ o
          → view_version codec o root blocks ≡ err e
          → Fails r e
      of_version m q none v f = no_version root blocks m d q v (cc)
      of_version m q (some s) v f =
          let (l, among, fails) = view_shards-fails s.shards blocks _ e f in
          shard_fails root blocks m s l d q v among fails

  BlockFails-ExtractError :
      {A : Type 0} (decode : Bytes → Result A) (blocks : ByteMap IpldBlock) (l : Bytes) (e : Err)
      → BlockFails decode blocks l e
      → ExtractError e
  BlockFails-ExtractError decode blocks l e (inl (q, same)) =
      subst ExtractError (sym same) (a_decode_failure _)
  BlockFails-ExtractError decode blocks l e (inr (b, reason, q, d, same)) =
      subst ExtractError (sym same) (a_decode_failure _)

  Fails-ExtractError : (r : Bytes) (e : Err) → Fails r e → ExtractError e
  Fails-ExtractError r e (unreadable reason d same) =
      subst ExtractError (sym same) (an_unknown_format reason)
  Fails-ExtractError r e (root_fails root blocks d f) =
      BlockFails-ExtractError codec.decode_root blocks root e f
  Fails-ExtractError r e (no_version root blocks m d q v same) =
      subst ExtractError (sym same) (an_unknown_format unknown_index_version)
  Fails-ExtractError r e (shard_fails root blocks m s l d q v among f) =
      BlockFails-ExtractError codec.decode_blob_index blocks l e f

  -- Extract fails with an error of its own only: an unknown format, whose reason is the error of
  -- the CAR file or the unknown version, when the root block was read and has no model of the
  -- known version; or a decode failure, when the block of the root or of one of its shards is
  -- missing, or does not decode, for the reason that it holds.
  pub extract-Fails : (r : Bytes) (e : Err) → extract codec r ≡ err e → ExtractError e × Fails r e
  unfolding extract
  extract-Fails r e h =
      let fails : Fails r e =
        elim (on_ok_failed (failing_as codec (decode_car codec r) new_unknown_format_error) _ e h) [
          | inl f ↦
              let (reason, d, same) =
                failing_as_failed (decode_car codec r) new_unknown_format_error e f in
              unreadable reason d same
          | inr ((root, blocks), q, f) ↦
              view-Fails r root blocks e (failing_as_ok (decode_car codec r) _ _ q) f
        ] in
      (Fails-ExtractError r e fails, fails)
    where
      failing_as_ok :
          (x : Result (Bytes × ByteMap IpldBlock)) (f : Err → Err) (a : Bytes × ByteMap IpldBlock)
          → failing_as codec x f ≡ ok a
          → x ≡ ok a
      failing_as_ok (ok b) f a q = q
      failing_as_ok (err y) f a q = cc
