-- ===== src/ProviderCacher/Races.antt =====
-- What two workers of the job queue can do to one another when they cache providers for one hash.
use indexing_service.Prelude.{
  ℕ, ◌+◌, ◌%◌, ◌^◌, ◌≡◌, ◌∙◌, refl, false, true, List, [], arith, ◌∷◌, ◌++◌, Bytes, bytes_eq_refl,
  any, All-append,
}
use indexing_service.Result.{ok}
use indexing_service.Types.{Cache, CacheView}
use indexing_service.ProviderResults.{AddrInfo, ProviderResult, equals}
use indexing_service.ProviderCacher.{read_existing, write_record}
use indexing_service.ProviderCacher.Records.{Sound, Readable, records}

module _ {W : Type 0} (to_string : AddrInfo → Bytes) (store : Cache W Bytes (List ProviderResult))
    (a b : ProviderResult) (v : CacheView W Bytes (List ProviderResult))
    (Encodable : ProviderResult → Type 0) (sa : Sound to_string store a v Encodable)
    (sb : Sound to_string store b v Encodable) where
  -- Over a cache that meets its contract and compares keys as bytes, in a world where all cached
  -- records can be read and encoded, and for two providers that can be encoded, are not equal, and
  -- are not among the records of a hash: when two workers both read the records of the hash before
  -- either writes, both report a written record, and the records are then the old ones and the
  -- second provider; the first is not among them.
  pub write_record-lost :
      (w : W) (hash : Bytes) (n m : ℕ)
      → Readable to_string store a v Encodable w
      → any (equals to_string a) (records to_string store a v w hash) ≡ false
      → any (equals to_string b) (records to_string store a v w hash) ≡ false
      → equals to_string a b ≡ false
      → let (ra, w₁) = read_existing to_string store a hash w in
        let (rb, w₂) = read_existing to_string store b hash w₁ in
        let old = records to_string store a v w hash in
        let (na, w₃) = write_record to_string store a hash n old w₂ in
        let (nb, w₄) = write_record to_string store b hash m old w₃ in
        (ra ≡ ok old)
        × (rb ≡ ok old)
        × (na ≡ ok ((n + 1) % 2 ^ 64))
        × (nb ≡ ok ((m + 1) % 2 ^ 64))
        × (records to_string store a v w₄ hash ≡ old ++ b ∷ [])
        × (any (equals to_string a) (records to_string store a v w₄ hash) ≡ false)
  unfolding read_existing write_record
  write_record-lost w hash n m r no_a no_b other =
      let old = records to_string store a v w hash in
      let fine_a =
        sa.storable_lem (old ++ a ∷ [])
          (All-append Encodable old (a ∷ []) (r hash).1 (sa.encodable, tt)) in
      let fine_b =
        sb.storable_lem (old ++ b ∷ [])
          (All-append Encodable old (b ∷ []) (r hash).1 (sb.encodable, tt)) in
      let w₃ = v.put w hash (old ++ a ∷ []) true in
      let at_end : v.peek (v.put w₃ hash (old ++ b ∷ []) true) hash ≡ ok (old ++ b ∷ []) =
        sb.cache.peek-put w₃ hash hash (old ++ b ∷ []) true fine_b
        ∙ rw (sb.same_lem hash hash) (rw (bytes_eq_refl hash) refl) in
      rw (sa.cache.get_lem w hash) (
        rw (sb.cache.get_lem w hash) (
          rw (r hash).0 (
            rw no_a (
              rw no_b (
                rw (sa.cache.set_lem w hash (old ++ a ∷ []) true fine_a) (
                  rw (sb.cache.set_lem w₃ hash (old ++ b ∷ []) true fine_b) (
                    refl,
                    refl,
                    refl,
                    refl,
                    rw (at_end, records) refl,
                    rw (at_end, records) (not_among old no_a other),
                  )))))))
    where
      not_among :
          (xs : List ProviderResult)
          → any (equals to_string a) xs ≡ false
          → equals to_string a b ≡ false
          → any (equals to_string a) (xs ++ b ∷ []) ≡ false
      not_among [] h e = ground arith
      not_among (x ∷ xs) h e = ground (arith, not_among xs)
