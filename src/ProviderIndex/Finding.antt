-- ===== src/ProviderIndex/Finding.antt =====
-- What Find gives for spaces and kinds of claim, out of what it gives without.
use indexing_service.Prelude.{
  ◌≡◌, ◌∙◌, inl, inr, refl, sym, Bool, true, false, ◌&&◌, ◌||◌, not, ℕ, List, [], ◌∷◌, arith, Bytes,
  any, All, if◌then◌else◌, Bool-cases,
}
use indexing_service.Result.{Result, ok, err, Io, after, lift, ◌>>=◌}
use indexing_service.Types.{Cache}
use indexing_service.ProviderResults.{AddrInfo, ProviderResult, equals}
use indexing_service.ProviderResults.Equality.{equals_iff}
use indexing_service.Metadata.{MetadataContext}
use indexing_service.ProviderIndex.{
  get_provider_results, find, is_empty, has_context_id, encode_spaces, filtered_codecs,
  filter_by_space,
}
use indexing_service.ProviderIndex.Narrowing.{
  keep, has_target, Decodes, filtered_codecs-keep, filter_by_space-keep,
}

-- The records that carry one of the context ids, or all if none does.
abbrev pub matching : List Bytes → List ProviderResult → List ProviderResult
matching ids rs = if any (has_context_id ids) rs then keep (has_context_id ids) rs else rs

any-keep :
    (q t : ProviderResult → Bool) (b : Bool) (rs : List ProviderResult)
    → ((r : ProviderResult) → q r ≡ true → t r ≡ b)
    → any q (keep t rs) ≡ (any q rs && b)
unfolding keep
any-keep q t b [] f = refl
any-keep q t b (r ∷ rs) f = ground (arith, f r, any-keep q t b rs f)

if_ok : {A : Type 0} (b : Bool) (x y : A) → (if b then ok x else ok y) ≡ ok (if b then x else y)
if_ok true x y = refl
if_ok false x y = refl

module _ {Md : Type 0} (ctx : MetadataContext Md) where
  -- The records that have one of the codes, or all if there is no code.
  abbrev pub targeting : List ℕ → List ProviderResult → List ProviderResult
  targeting codes rs = if is_empty codes then rs else keep (has_target ctx codes) rs

  module _ {W : Type 0} (store : Cache W Bytes (List ProviderResult))
      (find_client : Bytes → Io W (List (List ProviderResult))) (sum : Bytes → Result Bytes)
      (did_bytes : Bytes → Bytes) where
    -- Without kinds of claim and spaces nothing is left out.
    find_all :
        (hash : Bytes) (w : W)
        → find store find_client ctx sum did_bytes
            (record { spaces = []; hash = hash; target_claims = [] })
            w
          ≡ get_provider_results store find_client hash w
    unfolding find filtered_codecs filter_by_space
    find_all hash w = passed_on (get_provider_results store find_client hash w)
      where
        passed_on :
            (x : Result (List ProviderResult) × W)
            → after x (λ rs. lift (filtered_codecs ctx rs []) >>= λ narrowed.
                lift (filter_by_space sum did_bytes narrowed hash []))
              ≡ x
        passed_on (ok rs, w') = refl
        passed_on (err e, w') = refl

    -- x
    pub find-narrowed :
        (hash : Bytes) (spaces ids : List Bytes) (codes : List ℕ) (w w' : W)
        (rs : List ProviderResult)
        → find store find_client ctx sum did_bytes
            (record { spaces = []; hash = hash; target_claims = [] })
            w
          ≡ (ok rs, w')
        → All (Decodes ctx) rs
        → encode_spaces sum did_bytes hash spaces ≡ ok ids
        → find store find_client ctx sum did_bytes
            (record { spaces = spaces; hash = hash; target_claims = codes })
            w
          ≡ (ok (matching ids (targeting codes rs)), w')
    unfolding find
    find-narrowed hash spaces ids codes w w' rs found decodes encoded =
        rw (sym (find_all hash w) ∙ found) (
          rw (filtered_codecs-keep ctx rs codes decodes ∙ if_ok (is_empty codes) rs _) (
            rw (filter_by_space-keep sum did_bytes (targeting codes rs) hash spaces ids encoded)
              refl))

  module _ (to_string : AddrInfo → Bytes) (p : ProviderResult) where
    same_target :
        (codes : List ℕ) (r : ProviderResult)
        → equals to_string p r ≡ true
        → has_target ctx codes r ≡ has_target ctx codes p
    same_target codes r e =
        let (_, metadata, _) = (equals_iff to_string p r).0 e in rw metadata refl

    same_space :
        (ids : List Bytes) (r : ProviderResult)
        → equals to_string p r ≡ true
        → has_context_id ids r ≡ has_context_id ids p
    unfolding has_context_id
    same_space ids r e =
        let (context_id, _, _) = (equals_iff to_string p r).0 e in rw context_id refl

    any-targeting :
        (codes : List ℕ) (rs : List ProviderResult)
        → any (equals to_string p) (targeting codes rs)
          ≡ (any (equals to_string p) rs && (is_empty codes || has_target ctx codes p))
    unfolding is_empty
    any-targeting [] rs = ground arith
    any-targeting (c ∷ cs) rs =
        any-keep (equals to_string p) (has_target ctx (c ∷ cs)) (has_target ctx (c ∷ cs) p) rs
          (λ r e. same_target (c ∷ cs) r e)

    any-matching :
        (ids : List Bytes) (rs : List ProviderResult)
        → any (equals to_string p) (matching ids rs) ≡ (
            any (equals to_string p) rs
            && (has_context_id ids p || not (any (has_context_id ids) rs)))
    any-matching ids rs = elim (Bool-cases (any (has_context_id ids) rs)) [
      | inl m ↦ rw m (
          ground (
            arith,
            any-keep (equals to_string p) (has_context_id ids) (has_context_id ids p) rs
                (λ r e. same_space ids r e),
          ))
      | inr m ↦ rw m (ground arith)
    ]

    -- Which records are left after the narrowing: those that have one of the codes, where there are
    -- codes, and one of the context ids, where a record that has one of the codes has one.
    pub any-narrowed :
        (ids : List Bytes) (codes : List ℕ) (rs : List ProviderResult)
        → let targeted = targeting codes rs in
          any (equals to_string p) (matching ids targeted) ≡ (
            (any (equals to_string p) rs && (is_empty codes || has_target ctx codes p))
            && (has_context_id ids p || not (any (has_context_id ids) targeted)))
    any-narrowed ids codes rs =
        ground (arith, any-matching ids (targeting codes rs), any-targeting codes rs)
