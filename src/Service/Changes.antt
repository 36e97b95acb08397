-- ===== src/Service/Changes.antt =====
-- The changes that job handlers make to the state of a query, and what every sequence of them keeps.
use mathlib.Core.Path.{subst₂}
use indexing_service.Prelude.{
  ◌≡◌, ◌∙◌, refl, Bool, true, false, not, some, Bytes, bytes_eq, bytes_eq_iff, arith, if◌then◌else◌,
}
use indexing_service.ByteMap.{ByteMap, lookup, has, set}
use indexing_service.ByteMap.Laws.{lookup-set}
use indexing_service.BlobIndex.{ShardedDagIndex}
use indexing_service.Service.Jobs.{
  Job, QueryState, key, first_visit, visit, claim_missing, add_claim, index_missing, add_index,
}

-- Every entry of a map is one of those meant for its key.
abbrev pub AllGood : {T : Type 0} → (Bytes → T → Type 0) → ByteMap T → Type 0
AllGood {T} Good m = (k : Bytes) (v : T) → lookup m k ≡ some v → Good k v

-- A map that has all the entries of another.
abbrev pub HasAll : {T : Type 0} → ByteMap T → ByteMap T → Type 0
HasAll {T} m m' = (k : Bytes) (v : T) → lookup m k ≡ some v → lookup m' k ≡ some v

module _ {T : Type 0} where
  -- A key that is absent is written without touching another entry.
  HasAll-set : (m : ByteMap T) (k : Bytes) (v : T) → not (has m k) ≡ true → HasAll m (set m k v)
  unfolding has
  HasAll-set m k v h j w e = ground (arith, lookup-set m k j v, bytes_eq_iff k j)

  AllGood-set :
      (Good : Bytes → T → Type 0) (m : ByteMap T) (k : Bytes) (v : T)
      → Good k v
      → AllGood Good m
      → AllGood Good (set m k v)
  AllGood-set Good m k v g all j w e =
      by_key (bytes_eq k j) (bytes_eq_iff k j).0 (rw (lookup-set m k j v) at e)
    where
      by_key :
          (b : Bool) → (b ≡ true → k ≡ j) → (if b then some v else lookup m j) ≡ some w → Good j w
      by_key true same e' = let same_value : v ≡ w = cc in subst₂ Good (same refl) same_value g
      by_key false same e' = all j w e'

  has-lookup : (m : ByteMap T) (k : Bytes) → has m k ≡ true → (v : T) × (lookup m k ≡ some v)
  unfolding has
  has-lookup m k h = ground arith

  lookup-has : (m : ByteMap T) (k : Bytes) (v : T) → lookup m k ≡ some v → has m k ≡ true
  unfolding has
  lookup-has m k v h = rw (h, has)

  -- So a key that is there stays there.
  pub has-HasAll : (m m' : ByteMap T) (k : Bytes) → HasAll m m' → has m k ≡ true → has m' k ≡ true
  has-HasAll m m' k f h = let (v, e) = has-lookup m k h in lookup-has m' k v (f k v e)

  pub has-set_self : (m : ByteMap T) (k : Bytes) (v : T) → has (set m k v) k ≡ true
  has-set_self m k v =
      lookup-has (set m k v) k v (rw (lookup-set m k k v) (ground (arith, bytes_eq_iff k k)))

module _ {Claim : Type 0} (Good : Bytes → Claim → Type 0)
    (GoodIndex : Bytes → ShardedDagIndex → Type 0) where
  -- A first visit, and a claim or an index that is new and one of those meant for its key.
  pub data Change (qs : QueryState Claim) : QueryState Claim → Type 0 where
    visits_job : (j : Job) → first_visit j qs ≡ true → Change qs (visit j qs)
    adds_claim :
        (cid : Bytes) (claim : Claim)
        → claim_missing cid qs ≡ true
        → Good cid claim
        → Change qs (add_claim cid claim qs)
    adds_index :
        (id : Bytes) (index : ShardedDagIndex)
        → index_missing id qs ≡ true
        → GoodIndex id index
        → Change qs (add_index id index qs)

  -- Any number of changes, by any handlers.
  pub data Changes (qs : QueryState Claim) : QueryState Claim → Type 0 where
    unchanged : Changes qs qs
    and_then : {q q' : QueryState Claim} → Changes qs q → Change q q' → Changes qs q'

  pub Changes-trans : {a b c : QueryState Claim} → Changes a b → Changes b c → Changes a c
  Changes-trans f unchanged = f
  Changes-trans f (and_then g ch) = and_then (Changes-trans f g) ch

  -- What lies between an earlier and a later state of a query.
  pub record Later (qs qs' : QueryState Claim) : Type 0 where
    pub same_query : qs'.q ≡ qs.q
    pub visits_kept : HasAll qs.visits qs'.visits
    pub claims_kept : HasAll qs.qr.claims qs'.qr.claims
    pub indexes_kept : HasAll qs.qr.indexes qs'.qr.indexes
    pub claims_good : AllGood Good qs.qr.claims → AllGood Good qs'.qr.claims
    pub indexes_good : AllGood GoodIndex qs.qr.indexes → AllGood GoodIndex qs'.qr.indexes

  Change-Later : {qs qs' : QueryState Claim} → Change qs qs' → Later qs qs'
  unfolding first_visit visit claim_missing add_claim index_missing add_index
  Change-Later {qs = qs} (visits_job j h) = record {
    same_query = refl;
    visits_kept = HasAll-set qs.visits (key j) tt h;
    claims_kept = λ k v e. e;
    indexes_kept = λ k v e. e;
    claims_good = λ g. g;
    indexes_good = λ g. g;
  }
  Change-Later {qs = qs} (adds_claim cid claim h good) = record {
    same_query = refl;
    visits_kept = λ k v e. e;
    claims_kept = HasAll-set qs.qr.claims cid claim h;
    indexes_kept = λ k v e. e;
    claims_good = AllGood-set Good qs.qr.claims cid claim good;
    indexes_good = λ g. g;
  }
  Change-Later {qs = qs} (adds_index id index h good) = record {
    same_query = refl;
    visits_kept = λ k v e. e;
    claims_kept = λ k v e. e;
    indexes_kept = HasAll-set qs.qr.indexes id index h;
    claims_good = λ g. g;
    indexes_good = AllGood-set GoodIndex qs.qr.indexes id index good;
  }

  -- After any number of changes by job handlers the query is the same, nothing that was visited or
  -- found is lost or replaced, and what was found is meant for its key if it was so before.
  pub Changes-Later : {qs qs' : QueryState Claim} → Changes qs qs' → Later qs qs'
  Changes-Later unchanged = record {
    same_query = refl;
    visits_kept = λ k v e. e;
    claims_kept = λ k v e. e;
    indexes_kept = λ k v e. e;
    claims_good = λ g. g;
    indexes_good = λ g. g;
  }
  Changes-Later (and_then f ch) =
      let a = Changes-Later f in
      let b = Change-Later ch in
      record {
        same_query = b.same_query ∙ a.same_query;
        visits_kept = λ k v e. b.visits_kept k v (a.visits_kept k v e);
        claims_kept = λ k v e. b.claims_kept k v (a.claims_kept k v e);
        indexes_kept = λ k v e. b.indexes_kept k v (a.indexes_kept k v e);
        claims_good = λ g. b.claims_good (a.claims_good g);
        indexes_good = λ g. b.indexes_good (a.indexes_good g);
      }
