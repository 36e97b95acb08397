-- ===== src/Metadata/Init.antt =====
-- What the order in which the package variables are set does to the codec.
use indexing_service.Prelude.{ℕ, ◌==◌, ◌≡◌, ◌≢◌, refl, Bool-cases, inl, inr, none, arith}
use indexing_service.Result.{Result, ok, err, Err, nil_dereference, after, ok-injective, on_ok_lem}
use indexing_service.Metadata.{Protocol}
use indexing_service.Metadata.Codec.{
  id, declared, prototypes_of, prototype_at, Schema, Package, init, initialise, Library, Reader,
  read_byte, marshal_binary, decode_as, check_id, read_from,
}
use mathlib.Core.Path.{subst}

prototype_at-declared :
    {P : Type 0} (code : ℕ) → prototype_at (prototypes_of {P = P} declared) code ≡ none
unfolding prototype_at prototypes_of
prototype_at-declared code = ground arith

err_ne_ok : {A : Type 0} {e : Err} {a : A} → err e ≡ ok a → ⊥
err_ne_ok h = cc

module _ {P S : Type 0} (lib : Library P) (read : Reader S) where
  -- Every prototype is nil.
  abbrev AllNil : Package P → Type 0
  AllNil p = (code : ℕ) → prototype_at p.node_prototypes code ≡ none

  initialise-AllNil : (load : Result (Schema P)) (p : Package P) → initialise load ≡ ok p → AllNil p
  unfolding initialise init
  initialise-AllNil load p e code =
      let (schema, loaded, f) = on_ok_lem load _ p e in
      subst (λ p. prototype_at p.node_prototypes code ≡ none) (ok-injective f)
        (prototype_at-declared code)

  check_id-AllNil :
      (p : Package P) (val m : Protocol) (v : ℕ) (w : S × ℕ)
      → AllNil p
      → (check_id lib p read val v w).0 ≢ ok m
  unfolding check_id decode_as
  check_id-AllNil p val m v w nil h = elim (Bool-cases (v == id val)) [
    | inl e ↦ err_ne_ok (rw (e, nil (id val)) at h)
    | inr e ↦ err_ne_ok (rw e at h)
  ]

  -- After the initialisation of the package, MarshalBinary of any metadata dereferences nil, and
  -- ReadFrom gives no metadata from any reader.
  pub initialise-nil_dereference :
      (load : Result (Schema P)) (p : Package P) (val m : Protocol) (s : S)
      → initialise load ≡ ok p
      → (marshal_binary lib p m ≡ err nil_dereference) × ((read_from lib p read val s).0.0 ≢ ok m)
  unfolding marshal_binary read_from
  initialise-nil_dereference load p val m s e =
      let nil = initialise-AllNil load p e in
      (rw (nil (id m)) refl, never (lib.read_uvarint (read_byte read) (s, 0)))
    where
      never : (x : Result ℕ × (S × ℕ)) → (after x (check_id lib p read val)).0 ≢ ok m
      never (ok v, w) h = check_id-AllNil p val m v w (initialise-AllNil load p e) h
      never (err x, w) h = err_ne_ok h
