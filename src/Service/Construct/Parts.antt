-- ===== src/Service/Construct/Parts.antt =====
-- The parts of a constructed service.
use indexing_service.Prelude.{◌≡◌, sym, ap, List, Bytes}
use indexing_service.Result.{ok, Io, ok-injective, on_ok_lem}
use indexing_service.ProviderResults.{ProviderResult}
use indexing_service.JobQueue.{new_job_queue}
use indexing_service.Service.Instance
use indexing_service.Service.Instance.{new_indexing_service, parallel_walk}
use indexing_service.Service.Construct.{
  ServiceConfig, Environment, Constructed, claim_lookup, blob_index_lookup, provider_index,
  job_handler, queue_config, construct,
}

module _ {W Md Claim : Type 0} (env : Environment W Md Claim) (sc : ServiceConfig)
    (c : Constructed W Claim) where
  pub record Parts : Type 0 where
    pub find_client : Bytes → Io W (List (List ProviderResult))
    pub found : env.find_new sc.indexer_url ≡ ok find_client
    pub claims : c.service.services.claim_lookup ≡ claim_lookup env sc
    pub indexes : c.service.services.blob_index_lookup ≡ blob_index_lookup env sc
    pub providers : c.service.services.provider_index ≡ provider_index env sc find_client
    pub walker : c.service.job_walker ≡ parallel_walk 5
    pub caching : c.handler ≡ job_handler env sc
    pub queue : c.job_queue ≡ new_job_queue (queue_config env)

  pub construct-Parts : construct env sc ≡ ok c → Parts
  unfolding construct new_indexing_service Instance.apply Instance.with_concurrency
  construct-Parts built =
      let (find, e, f) = on_ok_lem (env.find_new sc.indexer_url) _ c built in
      let g = sym (ok-injective f) in
      record {
        find_client = find;
        found = e;
        claims = ap (λ c. c.service.services.claim_lookup) g;
        indexes = ap (λ c. c.service.services.blob_index_lookup) g;
        providers = ap (λ c. c.service.services.provider_index) g;
        walker = ap (λ c. c.service.job_walker) g;
        caching = ap (λ c. c.handler) g;
        queue = ap (λ c. c.job_queue) g;
      }
