-- ===== src/ByteMap/Examples.antt =====
-- A map of two entries.
use indexing_service.Prelude.{ℕ, ◌≡◌, refl, none, [], ◌∷◌, bytes_eq}
use indexing_service.ByteMap.{ByteMap, lookup, set}

abbrev two_entries : ByteMap ℕ
two_entries = ((1 ∷ []), 10) ∷ ((2 ∷ []), 20) ∷ []

replaced : set two_entries (2 ∷ []) 30 ≡ ((1 ∷ []), 10) ∷ ((2 ∷ []), 30) ∷ []
unfolding set bytes_eq
replaced = refl

missing : lookup two_entries (3 ∷ []) ≡ none
unfolding lookup bytes_eq
missing = refl
