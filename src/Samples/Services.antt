-- ===== src/Samples/Services.antt =====
-- A service constructed over a redis database in memory.
use indexing_service.Prelude.{◌≡◌, refl, true, none, List, [], ◌∷◌, Bytes}
use indexing_service.Result.{Result, ok, err, foreign}
use indexing_service.ProviderResults.{ProviderResult}
use indexing_service.JobQueue.{new_job_queue}
use indexing_service.Service.Instance.{new_indexing_service, with_concurrency}
use indexing_service.Service.Construct.{
  ServiceConfig, Environment, Constructed, blob_index_lookup, claim_lookup, provider_index,
  job_handler, queue_config, construct,
}
use indexing_service.Samples.{Database, database_client}
use indexing_service.Samples.Numbers.{numbers, unsorted, file}
use indexing_service.Samples.Records.{lib}

abbrev pub none_found : Bytes → Database → Result (List (List ProviderResult)) × Database
none_found hash w = (ok [], w)

-- Every URL serves its own bytes as a claim, and one file as an index.
abbrev pub env : Environment Database (Unit {0}) Bytes
env = record {
  new_client = λ options. database_client;
  find_new = λ url. ok none_found;
  http_get = λ url w. (ok (record { status = 200; body = ok url }), w);
  http_do = λ request w. (ok (record { status = 200; body = ok file }), w);
  is_url = λ url. true;
  send = λ job w. (ok tt, w);
  encodings = record {
    TypeSystem = Unit;
    SchemaType = Unit;
    libraries = lib;
    provider_results_type = tt;
    delegation_extract = λ text. ok text;
    delegation_archive = λ claim. ok claim;
    cid_hash = λ cid. cid;
  };
  codec = numbers;
  sort_func = unsorted;
  extract_broken = λ body. err (foreign 11);
  to_string = λ a. a.id;
  metadata = record {
    unmarshal_binary = λ text. ok tt;
    protocols = λ md. 3 ∷ [];
    get = λ md code. none;
  };
  sum = λ text. ok text;
  did_bytes = λ did. did;
}

abbrev pub config : ServiceConfig
config = record {
  redis_url = [];
  redis_passwd = [];
  providers_db = 0;
  claims_db = 1;
  indexes_db = 2;
  indexer_url = [];
}

abbrev pub service : Constructed Database Bytes
service = record {
  service =
      new_indexing_service (blob_index_lookup env config) (claim_lookup env config)
        (provider_index env config none_found) (with_concurrency 5 ∷ []);
  handler = job_handler env config;
  job_queue = new_job_queue (queue_config env);
}

pub construct-env : construct env config ≡ ok service
unfolding construct
construct-env = refl
