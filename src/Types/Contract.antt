-- ===== src/Types/Contract.antt =====
-- What the users of a cache (pkg/types/types.go) rely on.
use indexing_service.Prelude.{◌≡◌, Bool, true, if◌then◌else◌}
use indexing_service.Result.{Result, ok, Io}

pub record Cache (W K V : Type 0) : Type 0 where
  pub set : K → V → Bool → Io W (Unit {0})
  pub set_expirable : K → Bool → Io W (Unit {0})
  pub get : K → Io W V

-- A cache seen from outside: which keys share an entry, which values can be stored, what is stored
-- in a world, and the world after a write.
pub record CacheView (W K V : Type 0) : Type 1 where
  pub same : K → K → Bool
  pub storable : V → Type 0
  pub peek : W → K → Result V
  pub put : W → K → V → Bool → W

pub record IsCache {W K V : Type 0} (c : Cache W K V) (v : CacheView W K V) : Type 0 where
  pub get_lem : (w : W) (k : K) → c.get k w ≡ (v.peek w k, w)
  pub set_lem :
      (w : W) (k : K) (x : V) (expires : Bool)
      → v.storable x
      → c.set k x expires w ≡ (ok tt, v.put w k x expires)
  pub peek-put :
      (w : W) (k j : K) (x : V) (expires : Bool)
      → v.storable x
      → v.peek (v.put w k x expires) j ≡ (if v.same k j then ok x else v.peek w j)
  pub same_refl : (k : K) → v.same k k ≡ true
