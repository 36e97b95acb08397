-- ===== src/ClaimLookup/Examples.antt =====
-- The theorems about the claim lookups at a cache in memory.
use indexing_service.Prelude.{ℕ, ◌≡◌, ◌≤◌, refl, ◌↔◌, [], ◌∷◌, Bytes}
use indexing_service.Result.{ok, err, foreign}
use indexing_service.ByteMap.{ByteMap}
use indexing_service.ClaimLookup.{ClaimLookup, Response, simple_lookup}
use indexing_service.ClaimLookup.Laws.{simple_lookup_iff}

-- Every URL answers with itself.
abbrev echo : ClaimLookup (ByteMap Bytes) Bytes
echo cid url w = (ok url, w)

abbrev down : ClaimLookup (ByteMap Bytes) Bytes
down cid url w = (err (foreign 3), w)

abbrev one_claim : ByteMap Bytes
one_claim = ((1 ∷ []), (9 ∷ [])) ∷ []

abbrev created : Response
created = record { status = 201; body = ok (6 ∷ []) }

simple_lookup_iff_example :
    (simple_lookup {W = ℕ} (λ url w. (ok created, w)) (λ b. ok b) [] [] 0 ≡ (ok (6 ∷ []), 0)) ↔ (
      (200 ≤ 201)
      × (201 ≤ 299)
      × ((body : Bytes) × (created.body ≡ ok body) × (ok body ≡ ok (6 ∷ []))))
simple_lookup_iff_example =
    simple_lookup_iff {W = ℕ} (λ url w. (ok created, w)) (λ b. ok b) [] [] 0 0 created (6 ∷ []) refl
