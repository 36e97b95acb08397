-- ===== src/ProviderIndex/Narrowing.antt =====
-- What the two filters of the provider index keep.
use indexing_service.Prelude.{
  ◌≡◌, refl, Bool, true, false, not, ◌==◌, ℕ, List, [], ◌∷◌, arith, Bytes, any, All, if◌then◌else◌,
}
use indexing_service.Result.{Result, ok, err, ok-injective}
use indexing_service.ProviderResults.{ProviderResult}
use indexing_service.Metadata.{MetadataContext}
use indexing_service.ProviderIndex.{
  prepend, filter, is_empty, has_codec, filtered_codecs, encode_spaces, has_context_id,
  matching_or_all, filter_by_space,
}

-- The records that pass a test, in order.
unfoldable pub keep : (ProviderResult → Bool) → List ProviderResult → List ProviderResult
keep p [] = []
keep p (r ∷ rs) = let rest = keep p rs in if p r then r ∷ rest else rest

prepend-keep :
    (b : Bool) (r : ProviderResult) (rs : List ProviderResult)
    → prepend r b (ok rs) ≡ ok (if b then r ∷ rs else rs)
unfolding prepend
prepend-keep true r rs = refl
prepend-keep false r rs = refl

filter-keep :
    (test : ProviderResult → Result Bool) (p : ProviderResult → Bool) (rs : List ProviderResult)
    → All (λ r. test r ≡ ok (p r)) rs
    → filter test rs ≡ ok (keep p rs)
unfolding filter keep
filter-keep test p [] h = refl
filter-keep test p (r ∷ rs) h =
    rw (h.0, filter) (rw (filter-keep test p rs h.1) (prepend-keep (p r) r (keep p rs)))

keep-is_empty :
    (p : ProviderResult → Bool) (rs : List ProviderResult) → is_empty (keep p rs) ≡ not (any p rs)
unfolding is_empty keep
keep-is_empty p [] = refl
keep-is_empty p (r ∷ rs) = ground (arith, keep-is_empty p rs)

module _ {Md : Type 0} (ctx : MetadataContext Md) where
  -- Whether one of the codes is among the protocols of the metadata; false if it cannot be decoded.
  abbrev pub has_target : List ℕ → ProviderResult → Bool
  has_target codecs r = elim (ctx.unmarshal_binary r.metadata) [
    | err e ↦ false
    | ok md ↦ any (λ code. any (λ md_code. md_code == code) (ctx.protocols md)) codecs
  ]

  abbrev pub Decodes : ProviderResult → Type 0
  Decodes r = (md : Md) × (ctx.unmarshal_binary r.metadata ≡ ok md)

  has_codec-has_target :
      (codecs : List ℕ) (rs : List ProviderResult)
      → All Decodes rs
      → All (λ r. has_codec ctx codecs r ≡ ok (has_target codecs r)) rs
  unfolding has_codec
  has_codec-has_target codecs [] h = tt
  has_codec-has_target codecs (r ∷ rs) h =
      let (md, e) = h.0 in (rw (e, has_codec, has_target), has_codec-has_target codecs rs h.1)

  -- When the metadata of every record decodes, the codec filter keeps exactly the records that
  -- have one of the codes asked for, in order; it keeps all if no code is asked for.
  pub filtered_codecs-keep :
      (rs : List ProviderResult) (codecs : List ℕ)
      → All Decodes rs
      → filtered_codecs ctx rs codecs
        ≡ (if is_empty codecs then ok rs else ok (keep (has_target codecs) rs))
  unfolding filtered_codecs
  filtered_codecs-keep rs [] h = refl
  filtered_codecs-keep rs (c ∷ cs) h =
      filter-keep (has_codec ctx (c ∷ cs)) (has_target (c ∷ cs)) rs
        (has_codec-has_target (c ∷ cs) rs h)

pub none_match_empty : (rs : List ProviderResult) → any (has_context_id []) rs ≡ false
unfolding has_context_id
none_match_empty [] = refl
none_match_empty (r ∷ rs) = none_match_empty rs

matching_or_all-keep :
    (b : Bool) (rs kept : List ProviderResult)
    → is_empty kept ≡ not b
    → matching_or_all rs (ok kept) ≡ ok (if b then kept else rs)
unfolding matching_or_all
matching_or_all-keep b rs kept e = rw e (ground arith)

module _ (sum : Bytes → Result Bytes) (did_bytes : Bytes → Bytes) where
  always :
      (p : ProviderResult → Bool) (rs : List ProviderResult) → All (λ r. ok (p r) ≡ ok (p r)) rs
  always p [] = tt
  always p (r ∷ rs) = (refl, always p rs)

  encode_no_spaces :
      (hash : Bytes) (ids : List Bytes) → encode_spaces sum did_bytes hash [] ≡ ok ids → [] ≡ ids
  unfolding encode_spaces
  encode_no_spaces hash ids e = ok-injective e

  none_match :
      (ids : List Bytes)
      → [] ≡ ids
      → (rs : List ProviderResult)
      → ok rs ≡ ok (if any (has_context_id ids) rs then keep (has_context_id ids) rs else rs)
  none_match ids e rs = rw (← e) (rw (none_match_empty rs))

  -- When the context ids of the spaces can be computed, the space filter keeps exactly the records
  -- that carry one of them; but if none does it keeps all records, as it does without spaces.
  pub filter_by_space-keep :
      (rs : List ProviderResult) (hash : Bytes) (spaces ids : List Bytes)
      → encode_spaces sum did_bytes hash spaces ≡ ok ids
      → filter_by_space sum did_bytes rs hash spaces
        ≡ ok (if any (has_context_id ids) rs then keep (has_context_id ids) rs else rs)
  unfolding filter_by_space
  filter_by_space-keep rs hash [] ids e = none_match ids (encode_no_spaces hash ids e) rs
  filter_by_space-keep rs hash (s ∷ ss) ids e =
      rw (e, filter_by_space)
        (rw
          (filter-keep (λ r. ok (has_context_id ids r)) (has_context_id ids) rs
            (always (has_context_id ids) rs))
          (matching_or_all-keep (any (has_context_id ids) rs) rs (keep (has_context_id ids) rs)
            (keep-is_empty (has_context_id ids) rs)))
