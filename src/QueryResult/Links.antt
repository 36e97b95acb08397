-- ===== src/QueryResult/Links.antt =====
-- The links that a built query result gives back.
use mathlib.Core.List.{append_assoc, append-nil}
use indexing_service.Prelude.{
  ◌≡◌, ◌≢◌, ◌∙◌, refl, sym, ap, false, Option, none, some, List, [], ◌∷◌, ◌++◌, map, arith, Bytes,
  bytes_eq, bytes_eq_iff, All, All-append,
}
use indexing_service.Result.{ok, err, nil_dereference, on_ok_lem}
use indexing_service.ByteMap
use indexing_service.ByteMap.{ByteMap, lookup, set}
use indexing_service.ByteMap.Laws.{IsKeyed, lookup-set}
use indexing_service.BlobIndex.{ShardedDagIndex}
use indexing_service.QueryResult.{
  IndexesModel, QueryResult, Libraries, links_of, model_indexes, claims, indexes, write_claims,
  write_indexes, build_indexes, with_model, build,
}

bytes_eq_comm : (a b : Bytes) → bytes_eq a b ≡ false → bytes_eq b a ≡ false
bytes_eq_comm a b h = ground (arith, bytes_eq_iff a b, bytes_eq_iff b a)

-- A key that is not among some keys.
abbrev IsNew : Bytes → List Bytes → Type 0
IsNew c keys = All (λ k. bytes_eq c k ≡ false) keys

links_of-set :
    (keys : List Bytes) (values : ByteMap Bytes) (c l : Bytes)
    → IsNew c keys
    → links_of keys (set values c l) ≡ links_of keys values
unfolding links_of
links_of-set [] values c l h = refl
links_of-set (k ∷ keys) values c l h =
    ground (arith, h.0, lookup-set values c k l, links_of-set keys values c l h.1)

links_of-append :
    (keys : List Bytes) (values : ByteMap Bytes) (c l : Bytes)
    → lookup values c ≡ some l
    → links_of (keys ++ c ∷ []) values ≡ links_of keys values ++ l ∷ []
unfolding links_of
links_of-append [] values c l h = ground (arith, h)
links_of-append (k ∷ keys) values c l h = ground (arith, links_of-append keys values c l h)

links_of-added :
    (keys : List Bytes) (values : ByteMap Bytes) (c l : Bytes)
    → IsNew c keys
    → links_of (keys ++ c ∷ []) (set values c l) ≡ links_of keys values ++ l ∷ []
links_of-added keys values c l h =
    links_of-append keys (set values c l) c l
      (lookup-set values c c l ∙ ground (arith, bytes_eq_iff c c))
    ∙ ap (λ ls. ls ++ l ∷ []) (links_of-set keys values c l h)

module _ {Claim Blocks : Type 0} (libs : Libraries Claim Blocks) where
  -- The links of indexes, each the CID of its archive.
  abbrev pub AreLinks : List (Bytes × ShardedDagIndex) → List Bytes → Type 0
  AreLinks [] [] = Unit {0}
  AreLinks [] (l ∷ ls) = ⊥
  AreLinks (e ∷ es) [] = ⊥
  AreLinks (e ∷ es) (l ∷ ls) =
      ((bytes : Bytes) × (libs.archive (e.1) ≡ ok bytes) × (libs.sum bytes ≡ ok l)) × AreLinks es ls

  abbrev AreNew : List (Bytes × ShardedDagIndex) → List Bytes → Type 0
  AreNew es keys = All (λ e. IsNew (e.0) keys) es

  still_new :
      (c : Bytes) (keys : List Bytes) (es : List (Bytes × ShardedDagIndex))
      → All (λ e. bytes_eq c (e.0) ≡ false) es
      → AreNew es keys
      → AreNew es (keys ++ c ∷ [])
  still_new c keys [] a b = tt
  still_new c keys (e ∷ es) a b =
      (All-append _ keys (c ∷ []) b.0 (bytes_eq_comm c (e.0) a.0, tt), still_new c keys es a.1 b.1)

  write_indexes_lem :
      (es : List (Bytes × ShardedDagIndex)) (bs bs' : Blocks) (m m' : IndexesModel)
      → IsKeyed es
      → AreNew es m.keys
      → write_indexes libs es bs m ≡ ok (bs', m')
      → (ls : List Bytes) × AreLinks es ls
        × (links_of m'.keys m'.values ≡ links_of m.keys m.values ++ ls)
  unfolding write_indexes
  write_indexes_lem [] bs bs' m m' k n e =
      let same : m ≡ m' = cc in ([], tt, rw (← same) (sym (append-nil _)))
  write_indexes_lem ((c, index) ∷ es) bs bs' m m' k n e =
      let (bytes, archived, e₁) = on_ok_lem (libs.archive index) _ _ e in
      let (l, summed, e₂) = on_ok_lem (libs.sum bytes) _ _ e₁ in
      let (bs₁, stored, e₃) = on_ok_lem (libs.put (record { link = l; bytes = bytes }) bs) _ _ e₂ in
      let (ls, links, rest) =
        write_indexes_lem es bs₁ bs' (record { keys = m.keys ++ c ∷ []; values = set m.values c l })
          m' k.1 (still_new c m.keys es k.0 n.1) e₃ in
      (
        l ∷ ls,
        ((bytes, archived, summed), links),
        rest
            ∙ ap (λ xs. xs ++ ls) (links_of-added m.keys m.values c l n.0)
            ∙ append_assoc (links_of m.keys m.values) (l ∷ []) ls,
      )

  write_claims_lem :
      (es : List (Bytes × Claim)) (bs bs' : Blocks) (cls cls' : List Bytes)
      → write_claims libs es bs cls ≡ ok (bs', cls')
      → cls' ≡ cls ++ map (λ e. libs.claim_link (e.1)) es
  unfolding write_claims
  write_claims_lem [] bs bs' cls cls' e =
      let same : cls ≡ cls' = cc in sym same ∙ sym (append-nil cls)
  write_claims_lem ((cid, claim) ∷ es) bs bs' cls cls' e =
      let (bs₁, written, e₁) = on_ok_lem (libs.write_into claim bs) _ _ e in
      write_claims_lem es bs₁ bs' (cls ++ libs.claim_link claim ∷ []) cls' e₁
      ∙ append_assoc cls (libs.claim_link claim ∷ []) _

  build_indexes_lem :
      (es : ByteMap ShardedDagIndex) (bs bs' : Blocks) (o : Option IndexesModel)
      → IsKeyed es
      → build_indexes libs es bs ≡ ok (bs', o)
      → ((es ≡ []) → model_indexes o ≡ err nil_dereference)
        × ((es ≢ []) → (ls : List Bytes) × AreLinks es ls × (model_indexes o ≡ ok ls))
  unfolding build_indexes model_indexes ByteMap.size ByteMap.new_byte_map
  build_indexes_lem [] bs bs' o k e =
      let same : none ≡ o = cc in (λ h. rw (← same), λ h. absurd (h refl))
  build_indexes_lem (entry ∷ es) bs bs' o k e =
      let taken : with_model libs
            (write_indexes libs (entry ∷ es) bs (record { keys = []; values = [] }))
          ≡ ok (bs', o) =
        ground (arith, e) in
      let ((bs₁, m), written, e₁) =
        on_ok_lem (write_indexes libs (entry ∷ es) bs (record { keys = []; values = [] })) _ _
          taken in
      let same : some m ≡ o = cc in
      let (ls, links, listed) =
        write_indexes_lem (entry ∷ es) bs bs₁ (record { keys = []; values = [] }) m k
          (none_there (entry ∷ es)) written in
      (λ h. cc, λ h. (ls, links, rw (← same) (ap ok listed)))
    where
      none_there : (es : List (Bytes × ShardedDagIndex)) → AreNew es []
      none_there [] = tt
      none_there (e ∷ es) = (tt, none_there es)

  -- When Build succeeds on indexes with distinct context ids, Claims gives the links of the
  -- claims, in the order of the iteration over them; Indexes dereferences nil if there are no
  -- indexes, and else gives the CIDs of the archives of all indexes, in the order of their
  -- iteration.
  pub indexes-build :
      (cs : ByteMap Claim) (es : ByteMap ShardedDagIndex) (q : QueryResult Blocks)
      → IsKeyed es
      → build libs cs es ≡ ok q
      → (claims q ≡ map (λ e. libs.claim_link (e.1)) cs)
        × ((es ≡ []) → indexes q ≡ err nil_dereference)
        × ((es ≢ []) → (ls : List Bytes) × AreLinks es ls × (indexes q ≡ ok ls))
  unfolding build claims indexes
  indexes-build cs es q k e =
      let (bs, e₁, f₁) = on_ok_lem libs.new_block_store _ _ e in
      let ((bs₁, cls), e₂, f₂) = on_ok_lem (write_claims libs cs bs []) _ _ f₁ in
      let ((bs₂, o), e₃, f₃) = on_ok_lem (build_indexes libs es bs₁) _ _ f₂ in
      let (rt, e₄, f₄) = on_ok_lem (libs.encode (record { claims = cls; indexes = o })) _ _ f₃ in
      let (bs₃, e₅, f₅) = on_ok_lem (libs.put rt bs₂) _ _ f₄ in
      let same_claims : cls ≡ q.model.claims = cc in
      let same_indexes : o ≡ q.model.indexes = cc in
      let (a, b) = build_indexes_lem es bs₁ bs₂ o k e₃ in
      (
        sym same_claims ∙ write_claims_lem cs bs bs₁ [] cls e₂,
        rw (← same_indexes) a,
        rw (← same_indexes) b,
      )
