-- ===== src/ProviderResults/Examples.antt =====
-- Two provider records that differ in an address that is printed alike are equal.
use indexing_service.Prelude.{◌≡◌, refl, true, some, [], ◌∷◌, bytes_eq}
use indexing_service.ProviderResults.{ProviderResult, equals}

abbrev first_record : ProviderResult
first_record = record {
  context_id = 1 ∷ [];
  metadata = 2 ∷ [];
  provider = some (record { id = 3 ∷ []; addrs = [] });
}

abbrev second_record : ProviderResult
second_record = record {
  context_id = 1 ∷ [];
  metadata = 2 ∷ [];
  provider = some (record { id = 3 ∷ []; addrs = (4 ∷ []) ∷ [] });
}

printed_alike : equals (λ a. a.id) first_record second_record ≡ true
unfolding equals bytes_eq
printed_alike = refl
