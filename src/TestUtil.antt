-- ===== src/TestUtil.antt =====
-- pkg/internal/testutil/helpers.go: the helpers of the tests, as what they let a test go on with. A
-- failed requirement and a panic end the test.
pub mod Equal
mod Examples
use indexing_service.Prelude.{
  ℕ, ◌==◌, Bool, true, false, ◌&&◌, not, Option, none, some, List, [], ◌∷◌, Bytes, bytes_eq,
}
use indexing_service.Result.{Err}
use indexing_service.ByteMap
use indexing_service.ByteMap.{ByteMap}
use indexing_service.BlobIndex.{Position, ShardedDagIndex}

-- Must and Must2: none if the test fails.
unfoldable pub must {ℓ} : {A : Type ℓ} → A → Option Err → Option A
must val none = some val
must val (some e) = none

unfoldable pub must2 {ℓ κ} : {A : Type ℓ} {B : Type κ} → A → B → Option Err → Option (A × B)
must2 val1 val2 none = some (val1, val2)
must2 val1 val2 (some e) = none

abbrev same_position : Position → Position → Bool
same_position p q = p.offset == q.offset && p.length == q.length

-- What Get gives for a multihash that is absent.
abbrev no_position : Position
no_position = record { offset = 0; length = 0 }

-- The loop over the slices of a shard.
unfoldable pub same_slices : ByteMap Position → List (Bytes × Position) → Bool
same_slices expected [] = true
same_slices expected ((mh, position) ∷ slices) =
    ByteMap.has expected mh
    && same_position (ByteMap.get no_position expected mh) position
    && same_slices expected slices

-- The loop over the shards.
unfoldable pub same_shards : ByteMap (ByteMap Position) → List (Bytes × ByteMap Position) → Bool
unfolding same_slices
same_shards expected [] = true
same_shards expected ((key, shard) ∷ shards) =
    ByteMap.has expected key
    && ByteMap.size (ByteMap.get [] expected key) == ByteMap.size shard
    && same_slices (ByteMap.get [] expected key) shard
    && same_shards expected shards

-- RequireEqualIndex: whether the test goes on; none for a nil index.
unfoldable pub require_equal_index : Option ShardedDagIndex → Option ShardedDagIndex → Bool
unfolding same_shards
require_equal_index none none = true
require_equal_index none (some actual) = false
require_equal_index (some expected) none = false
require_equal_index (some expected) (some actual) =
    not (ByteMap.size actual.shards == 0)
    && ByteMap.size expected.shards == ByteMap.size actual.shards
    && same_shards expected.shards actual.shards

-- Whether require.Equal finds the parts of two delegations equal.
pub record Comparisons (D : Type 0) : Type 0 where
  pub issuer : D → D → Bool
  pub audience : D → D → Bool
  pub capabilities : D → D → Bool
  pub expiration : D → D → Bool
  pub signature : D → D → Bool
  pub version : D → D → Bool
  pub facts : D → D → Bool
  pub nonce : D → D → Bool
  pub not_before : D → D → Bool
  pub proofs : D → D → Bool

module _ {D : Type 0} (same : Comparisons D) where
  -- RequireEqualDelegation: whether the test goes on; none for a nil delegation.
  unfoldable pub require_equal_delegation : Option D → Option D → Bool
  require_equal_delegation none none = true
  require_equal_delegation none (some actual) = false
  require_equal_delegation (some expected) none = false
  require_equal_delegation (some expected) (some actual) =
      same.issuer expected actual
      && same.audience expected actual
      && same.capabilities expected actual
      && same.expiration expected actual
      && same.signature expected actual
      && same.version expected actual
      && same.facts expected actual
      && same.nonce expected actual
      && same.not_before expected actual
      && same.proofs expected actual
