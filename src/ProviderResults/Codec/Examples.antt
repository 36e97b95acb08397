-- ===== src/ProviderResults/Codec/Examples.antt =====
-- A record over a codec that writes lengths before its texts.
use indexing_service.Prelude.{◌≡◌, refl, some, [], ◌∷◌}
use indexing_service.Result.{ok}
use indexing_service.ProviderResults.{ProviderResult}
use indexing_service.ProviderResults.Codec.{
  unmarshal_cbor, marshal_cbor, write_node, peer_id_to_bytes, multiaddr_to_bytes,
}
use indexing_service.ProviderResults.Codec.Laws.{HasProvider, unmarshal_cbor-marshal_cbor}
use indexing_service.Samples.Records.{lib, reads, addresses_read}

abbrev written : ProviderResult
written = record {
  context_id = 1 ∷ [];
  metadata = 2 ∷ 3 ∷ [];
  provider = some (record { id = 4 ∷ []; addrs = (5 ∷ []) ∷ [] });
}

unmarshal_cbor-marshal_cbor_example :
    (HasProvider lib written × Unit {0})
    × (unmarshal_cbor lib tt (1 ∷ 1 ∷ 1 ∷ 2 ∷ 2 ∷ 3 ∷ 1 ∷ 4 ∷ 1 ∷ 1 ∷ 5 ∷ []) ≡ ok (written ∷ []))
unfolding marshal_cbor write_node peer_id_to_bytes multiaddr_to_bytes
unmarshal_cbor-marshal_cbor_example =
    unmarshal_cbor-marshal_cbor lib tt (written ∷ []) _ reads
      ((λ p e. record { id_lem = refl; addrs_lem = addresses_read p.addrs }), tt) refl
