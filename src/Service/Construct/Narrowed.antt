-- ===== src/Service/Construct/Narrowed.antt =====
-- What a constructed service finds for spaces and kinds of claim.
use indexing_service.Prelude.{◌≡◌, ◌&&◌, ◌||◌, not, List, [], ℕ, Bytes, any, All}
use indexing_service.Result.{Result, ok}
use indexing_service.ProviderResults.{ProviderResult, equals}
use indexing_service.ProviderIndex.{QueryKey, encode_spaces, has_context_id, is_empty}
use indexing_service.ProviderIndex.Narrowing.{Decodes, has_target}
use indexing_service.ProviderIndex.Finding.{matching, targeting, find-narrowed, any-narrowed}
use indexing_service.Service.Construct.{
  ServiceConfig, Environment, Constructed, providers_cache, construct,
}
use indexing_service.Service.Construct.Parts.{construct-Parts}

module _ {W Md Claim : Type 0} (env : Environment W Md Claim) (sc : ServiceConfig)
    (c : Constructed W Claim) (built : construct env sc ≡ ok c) where
  -- What the job handler of a query gets for its question.
  abbrev pub answer : QueryKey → W → Result (List ProviderResult) × W
  answer = c.service.services.provider_index

  -- In a constructed service, when the provider index, asked for a hash without spaces and kinds
  -- of claim, finds records whose metadata all decodes, and the context ids of the spaces can be
  -- computed, then, asked for the hash with spaces and kinds of claim, it finds those of these
  -- records that have one of the kinds, or all if no kind is asked for, and of them those that
  -- carry one of the context ids, or all if none does, in order. So a provider is among them
  -- exactly if it was among the records, has one of the kinds or none is asked for, and carries
  -- one of the context ids or no record of those kinds does.
  pub answer-narrowed :
      (p : ProviderResult) (hash : Bytes) (spaces ids : List Bytes) (codes : List ℕ) (w w' : W)
      (rs : List ProviderResult)
      → answer (record { spaces = []; hash = hash; target_claims = [] }) w ≡ (ok rs, w')
      → All (Decodes env.metadata) rs
      → encode_spaces env.sum env.did_bytes hash spaces ≡ ok ids
      → let targeted = targeting env.metadata codes rs in
        let narrowed = matching ids targeted in
        (answer (record { spaces = spaces; hash = hash; target_claims = codes }) w
          ≡ (ok narrowed, w'))
        × (any (equals env.to_string p) narrowed ≡ (
            (any (equals env.to_string p) rs && (is_empty codes || has_target env.metadata codes p))
            && (has_context_id ids p || not (any (has_context_id ids) targeted))))
  answer-narrowed p hash spaces ids codes w w' rs found decodes encoded =
      let parts = construct-Parts env sc c built in
      (
        rw parts.providers (
            find-narrowed env.metadata (providers_cache env sc) parts.find_client env.sum
              env.did_bytes hash spaces ids codes w w' rs (rw parts.providers at found) decodes
              encoded),
        any-narrowed env.metadata env.to_string p ids codes rs,
      )
