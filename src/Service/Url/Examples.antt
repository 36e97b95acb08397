-- ===== src/Service/Url/Examples.antt =====
-- A provider with an address that does not convert and one that is a path with a place.
use indexing_service.Prelude.{refl, [], ◌∷◌, Bytes, bytes_eq}
use indexing_service.Result.{Result, ok, err, foreign}
use indexing_service.ProviderResults.{AddrInfo}
use indexing_service.Service.Url.{
  Url, http, claim_part, is_prefix, contains, has_place, replace_from, replace_all, find_url,
  url_for_resource,
}
use indexing_service.Service.Url.First.{FromFirst, url_for_resource-FromFirst}

abbrev convert : Bytes → Result Url
convert [] = err (foreign 1)
convert (x ∷ xs) = ok (record { scheme = http; path = x ∷ xs; rest = [] })

abbrev provider : AddrInfo
provider = record { id = []; addrs = [] ∷ (b'/' ∷ claim_part) ∷ [] }

url_for_resource-FromFirst_example :
    FromFirst convert claim_part
      (9 ∷ [])
      provider.addrs
      (record { scheme = http; path = b'/' ∷ 9 ∷ []; rest = [] })
unfolding url_for_resource find_url has_place contains is_prefix replace_all replace_from bytes_eq
url_for_resource-FromFirst_example =
    url_for_resource-FromFirst convert claim_part (9 ∷ []) provider
      (record { scheme = http; path = b'/' ∷ 9 ∷ []; rest = [] }) refl
