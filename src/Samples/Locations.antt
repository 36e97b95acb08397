-- ===== src/Samples/Locations.antt =====
-- A record of one location claim, and libraries that read it.
use indexing_service.Prelude.{none, some, [], ◌∷◌, Bytes}
use indexing_service.Result.{ok}
use indexing_service.ProviderResults.{ProviderResult}
use indexing_service.Metadata.{MetadataContext, location_commitment}
use indexing_service.Service.Url.{http, claim_part}
use indexing_service.Service.Handler.{Libraries}

-- The metadata of a record is the CID of its location claim.
abbrev pub locations : MetadataContext Bytes
locations = record {
  unmarshal_binary = λ b. ok b;
  protocols = λ b. 1 ∷ [];
  get = λ b code.
      some (location_commitment (record { shard = none; range = none; expiration = 0; claim = b }));
}

abbrev pub libraries : Libraries Bytes
libraries = record {
  metadata = locations;
  hash = λ b. b;
  cid_string = λ b. b;
  to_url = λ b. ok (record { scheme = http; path = b; rest = [] });
  url_string = λ u. u.path;
  raw_cid = λ b. b;
}

-- The address of the provider is a place for a claim.
abbrev pub location_record : ProviderResult
location_record = record {
  context_id = 4 ∷ [];
  metadata = 9 ∷ [];
  provider = some (record { id = []; addrs = claim_part ∷ [] });
}
