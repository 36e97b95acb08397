-- ===== src/Command/Flags.antt =====
-- What the flags of the command decide.
use indexing_service.Prelude.{◌≡◌, ◌≢◌, ◌∙◌, refl, sym, false}
use indexing_service.Command.{
  Name, port, private_key, did, redis_url, redis_passwd, provider_redis_db, claims_redis_db,
  indexes_redis_db, providers_redis_db, ipni_endpoint, has_flag, CliContext, Environment,
  service_config, start,
}

-- A context gives 0 for the number of a flag that the command does not have.
pub record IsContext (c : CliContext) : Type 0 where
  pub unknown_lem : (n : Name) → has_flag n ≡ false → c.int n ≡ 0

-- Two contexts that differ at most in the flag of the providers' database.
pub record AgreeOnOthers (c d : CliContext) : Type 0 where
  pub strings : (n : Name) → c.string n ≡ d.string n
  pub ints : (n : Name) → n ≢ provider_redis_db → c.int n ≡ d.int n

module _ {W : Type 0} (env : Environment W) (c d : CliContext) (is_c : IsContext c)
    (is_d : IsContext d) (agree : AgreeOnOthers c d) where
  service_config-agree : service_config c ≡ service_config d
  unfolding service_config has_flag
  service_config-agree =
      let providers =
        is_c.unknown_lem providers_redis_db refl ∙ sym (is_d.unknown_lem providers_redis_db refl) in
      λ i. record {
        redis_url = agree.strings redis_url i;
        redis_passwd = agree.strings redis_passwd i;
        providers_db = providers i;
        claims_db = agree.ints claims_redis_db (λ e. cc) i;
        indexes_db = agree.ints indexes_redis_db (λ e. cc) i;
        indexer_url = agree.strings ipni_endpoint i;
      }

  -- Over a context that gives 0 for flags that the command does not have, the command does the
  -- same on any two command lines that differ in the flag of the database of providers alone.
  pub start-agree : (w : W) → start env c w ≡ start env d w
  unfolding start
  start-agree w =
      rw
        (
          agree.strings private_key,
          agree.strings did,
          service_config-agree,
          agree.ints port (λ e. cc),
        )
        refl
