-- ===== src/ContentClaims.antt =====
-- pkg/service/contentclaims: the methods of the ucanto server for the assert capabilities.
use indexing_service.Prelude.{List, [], ◌∷◌}
use indexing_service.Result.{Result, Io, pure}
use indexing_service.Server.Setup.{Signer}

-- The abilities of assert.Equals, assert.Index and assert.Location.
pub data Ability : Type 0 where
  assert_equals assert_index assert_location : Ability

-- A method gets an invocation; what it does to the world, and its unit result.
abbrev pub Method : Type 0 → Type 0 → Type 0
Method W Invocation = Invocation → Io W (Unit {0})

module _ {W Invocation : Type 0} where
  -- The handlers only log that they are not implemented.
  pub not_yet : Method W Invocation
  not_yet invocation = pure tt

  -- The methods by their ability, in one order of the iteration over the map.
  pub new_service : List (Ability × Method W Invocation)
  unfolding not_yet
  new_service = (assert_equals, not_yet) ∷ (assert_index, not_yet) ∷ (assert_location, not_yet) ∷ []

  -- `server_new` is server.NewServer with the options WithServiceMethod.
  pub new_server :
      {Server : Type 0}
      → (Signer → List (Ability × Method W Invocation) → Result Server)
      → Signer
      → Result Server
  unfolding new_service
  new_server server_new id = server_new id new_service
