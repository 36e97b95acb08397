-- ===== src/ProviderIndex/Examples.antt =====
-- The provider index at a cache in memory.
use indexing_service.Prelude.{ℕ, none, List, [], ◌∷◌}
use indexing_service.ByteMap
use indexing_service.ByteMap.{ByteMap}
use indexing_service.ProviderResults.{ProviderResult}

abbrev coded : ℕ → ProviderResult
coded n = record { context_id = 7 ∷ n ∷ []; metadata = n ∷ []; provider = none }

abbrev two_records : List ProviderResult
two_records = coded 1 ∷ coded 2 ∷ []
