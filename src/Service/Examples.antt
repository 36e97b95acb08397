-- ===== src/Service/Examples.antt =====
-- Jobs for hashes of two bytes.
use indexing_service.Prelude.{◌≡◌, ◌∙◌, refl, sym, none, some, [], ◌∷◌, Bytes, length, arith}
use indexing_service.Service.Jobs.{Job, standard}
use indexing_service.Service.Keys.{append-cancel_length, key-injective}

abbrev job_for : Bytes → Job
job_for mh = record {
  mh = mh;
  index_for_mh = some (3 ∷ 4 ∷ []);
  index_provider_record = none;
  job_type = standard;
}

key-injective_example :
    let j = job_for (1 ∷ 2 ∷ []) in
    (j.mh ≡ j.mh) × (j.job_type ≡ j.job_type) × (j.index_for_mh ≡ j.index_for_mh)
key-injective_example =
    key-injective (λ b. length b ≡ 2) (λ e. cc)
      (λ a b x y p q e. append-cancel_length a b x y (p ∙ sym q) e) (job_for (1 ∷ 2 ∷ []))
      (job_for (1 ∷ 2 ∷ [])) refl refl (λ x e. ground arith) (λ x e. ground arith) refl
