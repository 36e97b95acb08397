-- ===== src/Command/Examples.antt =====
-- The command on two command lines that name different databases of providers.
use indexing_service.Prelude.{ℕ, ◌+◌, suc, none, some, ◌≡◌, ◌≢◌, refl, false, [], ◌∷◌}
use indexing_service.Result.{ok, err, not_implemented}
use indexing_service.Command.{
  Name, port, provider_redis_db, providers_redis_db, has_flag, CliContext, Environment, start,
}
use indexing_service.Command.Flags.{IsContext, AgreeOnOthers, start-agree}

abbrev number : ℕ → Name → ℕ
number db provider_redis_db = db
number db port = 9000
number db _ = 0

abbrev line : ℕ → CliContext
line db = record { string = λ n. []; int = number db }

line-IsContext : (db : ℕ) → IsContext (line db)
unfolding has_flag
line-IsContext db = record { unknown_lem = unknown }
  where
    unknown : (n : Name) → has_flag n ≡ false → number db n ≡ 0
    unknown providers_redis_db e = refl
    unknown provider_redis_db e = cc
    unknown port e = cc
    unknown _ e = refl

lines-AgreeOnOthers : AgreeOnOthers (line 3) (line 4)
lines-AgreeOnOthers = record { strings = λ n. refl; ints = same }
  where
    same : (n : Name) → n ≢ provider_redis_db → number 3 n ≡ number 4 n
    same provider_redis_db h = absurd (h refl)
    same port h = refl
    same _ h = refl

-- The world counts the servers that were started and shut down.
abbrev env : Environment ℕ
env = record {
  parse_key = λ k. ok (record { did = k; unwrapped = none });
  parse_did = λ d. ok d;
  wrap = λ s d. ok (record { did = d; unwrapped = some s.did });
  address = λ p. p ∷ [];
  construct = λ config w. (ok ((λ q w'. (err not_implemented, w')), suc), w + config.providers_db);
  listen_and_serve = λ address opts w. (ok tt, w + 1);
}

start-agree_example : start env (line 3) 0 ≡ start env (line 4) 0
start-agree_example =
    start-agree env (line 3) (line 4) (line-IsContext 3) (line-IsContext 4) lines-AgreeOnOthers 0
