-- ===== src/ProviderResults/Equality.antt =====
-- Equals compares the context id, the metadata and the printed address, and nothing else.
use indexing_service.Prelude.{
  ◌≡◌, ◌↔◌, refl, ap, true, Option, none, some, arith, Bytes, bytes_eq_iff,
}
use indexing_service.ProviderResults.{AddrInfo, ProviderResult, equal_provider, equals}

module _ (to_string : AddrInfo → Bytes) where
  -- The address as it is printed, if there is one.
  abbrev pub printed : Option AddrInfo → Option Bytes
  printed none = none
  printed (some a) = some (to_string a)

  equal_provider_iff :
      (a b : Option AddrInfo) → (equal_provider to_string a b ≡ true) ↔ (printed a ≡ printed b)
  unfolding equal_provider
  equal_provider_iff none none = (λ h. refl, λ h. refl)
  equal_provider_iff none (some b) = (λ h. cc, λ h. cc)
  equal_provider_iff (some a) none = (λ h. cc, λ h. cc)
  equal_provider_iff (some a) (some b) = (
    λ h. ap some ((bytes_eq_iff (to_string a) (to_string b)).0 h),
    λ h. (bytes_eq_iff (to_string a) (to_string b)).1 (cc),
  )

  -- Two records are equal for Equals exactly if they have the same context id, the same metadata
  -- and the same printed address or none both.
  pub equals_iff :
      (a b : ProviderResult)
      → (equals to_string a b ≡ true) ↔ (
          (a.context_id ≡ b.context_id)
          × (a.metadata ≡ b.metadata)
          × (printed a.provider ≡ printed b.provider))
  unfolding equals
  equals_iff a b = (
    λ h. ground (
      arith,
      bytes_eq_iff a.context_id b.context_id,
      bytes_eq_iff a.metadata b.metadata,
      equal_provider_iff a.provider b.provider,
    ),
    λ (c, m, p). ground (
      arith,
      bytes_eq_iff a.context_id b.context_id,
      bytes_eq_iff a.metadata b.metadata,
      equal_provider_iff a.provider b.provider,
    ),
  )

  pub equals_refl : (a : ProviderResult) → equals to_string a a ≡ true
  equals_refl a = (equals_iff a a).1 (refl, refl, refl)
