-- ===== src/ClaimLookup/Laws.antt =====
-- What the caching claim lookup does over a cache that meets its contract.
use indexing_service.Prelude.{◌≡◌, ◌↔◌, ◌∙◌, ap, true, false, ◌≤◌, arith, Bytes, if◌then◌else◌}
use indexing_service.Result.{
  Result, ok, err, Err, wrapped, fetching_claim, reading_claim_cache, is_key_not_found, Io,
}
use indexing_service.Types.{Cache, CacheView, IsCache}
use indexing_service.ClaimLookup.{ClaimLookup, Response, simple_lookup, with_cache}

module _ {W Claim : Type 0} (lookup : ClaimLookup W Claim) (store : Cache W Bytes Claim)
    (v : CacheView W Bytes Claim) (cache : IsCache store v) where
  -- Over a cache that meets its contract, a claim in the cache is returned without a fetch and
  -- without a change of the world; a read error other than a missing key is returned, wrapped, and
  -- nothing is fetched either.
  pub with_cache_hit :
      (w : W) (cid url : Bytes)
      → ((claim : Claim)
          → v.peek w cid ≡ ok claim
          → with_cache lookup store cid url w ≡ (ok claim, w))
        × ((e : Err)
            → v.peek w cid ≡ err e
            → is_key_not_found e ≡ false
            → with_cache lookup store cid url w ≡ (err (wrapped reading_claim_cache e), w))
  unfolding with_cache
  with_cache_hit w cid url =
      (λ claim e. rw (cache.get_lem w cid) (rw e), λ e p q. rw (cache.get_lem w cid) (rw p (rw q)))

  -- On a miss with a fetch that succeeds, the fetched claim is returned, and the world is the
  -- fetch's with the claim written under its CID.
  pub with_cache_miss :
      (w w' : W) (cid url : Bytes) (e : Err) (claim : Claim)
      → v.peek w cid ≡ err e
      → is_key_not_found e ≡ true
      → lookup cid url w ≡ (ok claim, w')
      → v.storable claim
      → with_cache lookup store cid url w ≡ (ok claim, v.put w' cid claim true)
  unfolding with_cache
  with_cache_miss w w' cid url e claim p q f s =
      rw (cache.get_lem w cid) (rw p (rw q (rw f (rw (cache.set_lem w' cid claim true s)))))

  -- Over a cache that meets its contract, after a lookup that missed and fetched a claim that can
  -- be stored, a second lookup of the same CID, from any URL, returns that claim and changes
  -- nothing.
  pub with_cache_twice :
      (w w' : W) (cid url url' : Bytes) (e : Err) (claim : Claim)
      → v.peek w cid ≡ err e
      → is_key_not_found e ≡ true
      → lookup cid url w ≡ (ok claim, w')
      → v.storable claim
      → let after = (with_cache lookup store cid url w).1 in
        with_cache lookup store cid url' after ≡ (ok claim, after)
  with_cache_twice w w' cid url url' e claim p q f s =
      rw (with_cache_miss w w' cid url e claim p q f s) (
        (with_cache_hit (v.put w' cid claim true) cid url').0 claim (
          cache.peek-put w' cid cid claim true s
          ∙ ap (λ b. if b then ok claim else v.peek w' cid) (cache.same_refl cid)))

  -- A fetch that fails is reported, wrapped, and nothing is written to the cache.
  pub with_cache_fetch_error :
      (w w' : W) (cid url : Bytes) (e e' : Err)
      → v.peek w cid ≡ err e
      → is_key_not_found e ≡ true
      → lookup cid url w ≡ (err e', w')
      → with_cache lookup store cid url w ≡ (err (wrapped fetching_claim e'), w')
  unfolding with_cache
  with_cache_fetch_error w w' cid url e e' p q f = rw (cache.get_lem w cid) (rw p (rw q (rw f)))

module _ {W Claim : Type 0} (http_get : Bytes → Io W Response)
    (extract : Bytes → Result Claim) where
  -- When the request is answered, the simple lookup gives a claim exactly if the status is 200 to
  -- 299 and the body can be read to its end and holds that claim.
  pub simple_lookup_iff :
      (cid url : Bytes) (w w' : W) (resp : Response) (claim : Claim)
      → http_get url w ≡ (ok resp, w')
      → (simple_lookup http_get extract cid url w ≡ (ok claim, w')) ↔ (
          (200 ≤ resp.status)
          × (resp.status ≤ 299)
          × ((body : Bytes) × (resp.body ≡ ok body) × (extract body ≡ ok claim)))
  unfolding simple_lookup
  simple_lookup_iff cid url w w' resp claim g =
      rw g (λ h. ground arith, λ (lo, hi, (body, b, x)). ground arith)
