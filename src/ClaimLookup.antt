-- ===== src/ClaimLookup.antt =====
-- pkg/service/claimlookup: fetching a claim by HTTP (simplelookup.go), and the same behind a cache
-- (cachinglookup.go).
pub mod Laws
mod Examples
use indexing_service.Prelude.{ℕ, Bool, true, ◌||◌, Bytes, ltb, if◌then◌else◌}
use indexing_service.Result.{
  Result, ok, err, Err, wrapped, failure_response, reading_claim_cache, fetching_claim,
  caching_claim, failed_to_fetch_claim, reading_claim_body, is_key_not_found, Io, ◌>>=◌, ◌>>◌, pure,
  raise, lift, try, within,
}
use indexing_service.Types.{Cache}

-- The interface of claimlookup/interface.go: the CID of the claim, and the URL.
abbrev pub ClaimLookup : Type 0 → Type 0 → Type 0
ClaimLookup W Claim = Bytes → Bytes → Io W Claim

-- An HTTP response: the status, and what reading the body gives.
pub record Response : Type 0 where
  pub status : ℕ
  pub body : Result Bytes

module _ {W Claim : Type 0} (http_get : Bytes → Io W Response)
    (extract : Bytes → Result Claim) where
  -- `http_get` is the client's Get, `extract` is delegation.Extract.
  unfoldable pub simple_lookup : ClaimLookup W Claim
  unfolding ◌>>=◌
  simple_lookup cid url = do
    resp ← within failed_to_fetch_claim (http_get url)
    body ← within reading_claim_body (lift resp.body)
    if ltb resp.status 200 || ltb 299 resp.status
        then raise (failure_response resp.status body)
        else lift (extract body)

module _ {W Claim : Type 0} (lookup : ClaimLookup W Claim) (store : Cache W Bytes Claim) where
  -- The part after a miss.
  fetch_and_cache : ClaimLookup W Claim
  unfolding ◌>>=◌
  fetch_and_cache cid url = do
    claim ← within fetching_claim (lookup cid url)
    within caching_claim (store.set cid claim true)
    pure claim

  after_read : Bytes → Bytes → Result Claim → Io W Claim
  after_read cid url (ok claim) = pure claim
  after_read cid url (err e) =
      if is_key_not_found e then fetch_and_cache cid url else raise (wrapped reading_claim_cache e)

  pub with_cache : ClaimLookup W Claim
  unfolding after_read fetch_and_cache ◌>>=◌
  with_cache cid url = do found ← try (store.get cid); after_read cid url found
