-- ===== src/Command.antt =====
-- cmd/main.go: the command that starts the server, from its flags.
mod Examples
pub mod Flags
use indexing_service.Prelude.{
  ℕ, Bool, true, false, Option, none, some, List, [], ◌∷◌, ◌++◌, Bytes, any, ◌==◌,
}
use indexing_service.Result.{
  Result, ok, err, Err, wrapped, parsing_private_key, parsing_did, wrapping_did, Io, on_ok,
}
use indexing_service.Service.Construct.{ServiceConfig}
use indexing_service.Server.Setup.{Signer, Service, ServerOption, with_identity, with_service}

-- The names of flags, as they are declared and as they are read.
pub data Name : Type 0 where
  port private_key did redis_url redis_passwd : Name
  provider_redis_db claims_redis_db indexes_redis_db : Name
  -- The name under which the number of the providers' database is read.
  providers_redis_db : Name
  ipni_endpoint : Name

-- The default of a flag: of an IntFlag or of a StringFlag.
pub data Value : Type 0 where
  int_value : ℕ → Value
  string_value : Bytes → Value

-- A flag with its other names and the environment variables that set it. The texts that explain it
-- are left out.
pub record Flag : Type 0 where
  pub name : Name
  pub aliases : List Bytes
  pub env_vars : List Bytes
  pub value : Value

-- The flags of the command `start`.
unfoldable pub flags : List Flag
flags =
    record { name = port; aliases = (b'p' ∷ []) ∷ []; env_vars = []; value = int_value 9000 }
    ∷ record {
      name = private_key;
      aliases = (b'p' ∷ b'k' ∷ []) ∷ [];
      env_vars = [];
      value = string_value [];
    }
    ∷ record { name = did; aliases = []; env_vars = []; value = string_value [] }
    ∷ record {
      name = redis_url;
      aliases = (b'r' ∷ b'e' ∷ b'd' ∷ b'i' ∷ b's' ∷ []) ∷ [];
      env_vars = (b'R' ∷ b'E' ∷ b'D' ∷ b'I' ∷ b'S' ∷ b'_' ∷ b'U' ∷ b'R' ∷ b'L' ∷ []) ∷ [];
      value = string_value [];
    }
    ∷ record {
      name = redis_passwd;
      aliases = (b'r' ∷ b'p' ∷ []) ∷ [];
      env_vars =
          (b'R' ∷ b'E' ∷ b'D' ∷ b'I' ∷ b'S' ∷ b'_' ∷ b'P' ∷ b'A' ∷ b'S' ∷ b'S' ∷ b'W' ∷ b'D' ∷ [])
          ∷ [];
      value = string_value [];
    }
    ∷ record {
      name = provider_redis_db;
      aliases = (b'p' ∷ b'r' ∷ b'd' ∷ []) ∷ [];
      env_vars = [];
      value = int_value 0;
    }
    ∷ record {
      name = claims_redis_db;
      aliases = (b'c' ∷ []) ∷ [];
      env_vars = [];
      value = int_value 1;
    }
    ∷ record {
      name = indexes_redis_db;
      aliases = (b'c' ∷ []) ∷ [];
      env_vars = [];
      value = int_value 2;
    }
    ∷ record {
      name = ipni_endpoint;
      aliases = (b'i' ∷ b'p' ∷ b'n' ∷ b'i' ∷ []) ∷ [];
      env_vars = [];
      value = string_value (
          b'h' ∷ b't' ∷ b't' ∷ b'p' ∷ b's' ∷ b':' ∷ b'/' ∷ b'/' ∷ b'c' ∷ b'i' ∷ b'd' ∷ b'.' ∷ b'c'
          ∷ b'o' ∷ b'n' ∷ b't' ∷ b'a' ∷ b'c' ∷ b't' ∷ []);
    }
    ∷ []

-- Names told apart by numbers.
name_id : Name → ℕ
name_id port = 0
name_id private_key = 1
name_id did = 2
name_id redis_url = 3
name_id redis_passwd = 4
name_id provider_redis_db = 5
name_id claims_redis_db = 6
name_id indexes_redis_db = 7
name_id providers_redis_db = 8
name_id ipni_endpoint = 9

-- Whether the command `start` has a flag of that name.
unfoldable pub has_flag : Name → Bool
unfolding flags name_id
has_flag n = any (λ f. name_id f.name == name_id n) flags

-- The methods String and Int of a cli.Context.
pub record CliContext : Type 0 where
  pub string : Name → Bytes
  pub int : Name → ℕ

-- What the action calls: ed25519.Parse, did.Parse, signer.Wrap, the text of the address, Construct
-- with the service and its shutdown, and ListenAndServe.
pub record Environment (W : Type 0) : Type 0 where
  pub parse_key : Bytes → Result Signer
  pub parse_did : Bytes → Result Bytes
  pub wrap : Signer → Bytes → Result Signer
  pub address : ℕ → Bytes
  pub construct : ServiceConfig → W → Result (Service W × (W → W)) × W
  pub listen_and_serve : Bytes → List (ServerOption W) → Io W (Unit {0})

abbrev failing_with : {A : Type 0} → Result A → (Err → Err) → Result A
failing_with (ok a) f = ok a
failing_with (err e) f = err (f e)

-- The fields of the service's configuration that the flags give.
unfoldable pub service_config : CliContext → ServiceConfig
service_config c = record {
  redis_url = c.string redis_url;
  redis_passwd = c.string redis_passwd;
  providers_db = c.int providers_redis_db;
  claims_db = c.int claims_redis_db;
  indexes_db = c.int indexes_redis_db;
  indexer_url = c.string ipni_endpoint;
}

module _ {W : Type 0} (env : Environment W) where
  -- The DID counts only with a key.
  unfoldable pub wrapped_identity : Signer → Bytes → Result Signer
  wrapped_identity id [] = ok id
  wrapped_identity id (b ∷ bs) =
      on_ok (failing_with (env.parse_did (b ∷ bs)) (λ e. wrapped parsing_did e))
        λ d. failing_with (env.wrap id d) (λ e. wrapped wrapping_did e)

  unfoldable pub identity_options : Bytes → Bytes → Result (List (ServerOption W))
  unfolding wrapped_identity
  identity_options [] d = ok []
  identity_options (b ∷ bs) d =
      on_ok (failing_with (env.parse_key (b ∷ bs)) (λ e. wrapped parsing_private_key e))
        λ id. on_ok (wrapped_identity id d) λ id'. ok (with_identity id' ∷ [])

  -- The deferred shutdown runs when the server has ended, in whatever way.
  abbrev then_shutdown : Result (Unit {0}) × W → (W → W) → Result (Unit {0}) × W
  then_shutdown (result, w) shutdown = (result, shutdown w)

  abbrev with_constructed :
      Bytes → List (ServerOption W) → Result (Service W × (W → W)) × W → Result (Unit {0}) × W
  with_constructed address opts (err e, w) = (err e, w)
  with_constructed address opts (ok (service, shutdown), w) =
      then_shutdown (env.listen_and_serve address (opts ++ with_service service ∷ []) w) shutdown

  unfoldable pub started : Bytes → ServiceConfig → Result (List (ServerOption W)) → Io W (Unit {0})
  started address sc (err e) w = (err e, w)
  started address sc (ok opts) w = with_constructed address opts (env.construct sc w)

  -- The action of `start`.
  unfoldable pub start : CliContext → Io W (Unit {0})
  unfolding identity_options service_config started
  start c =
      started (env.address (c.int port)) (service_config c)
        (identity_options (c.string private_key) (c.string did))
