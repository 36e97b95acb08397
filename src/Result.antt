-- ===== src/Result.antt =====
-- Go's `error` values (the sentinel errors of the packages, and the contexts that `fmt.Errorf` wraps
-- with `%w`), results, and functions that read and change a world and may fail.
use indexing_service.Prelude.{
  ℕ, ◌≡◌, ◌⊎◌, inl, inr, refl, Bool, true, false, List, [], ◌∷◌, map, All, Bytes,
}

-- The texts before `%w`.
pub data Context : Type 0 where
  accessing_redis : Context
  reading_claim_cache fetching_claim caching_claim : Context
  failed_to_fetch_claim reading_claim_body : Context
  reading_index_cache fetching_index caching_index queueing_caching : Context
  failed_to_fetch_index : Context
  -- UnknownFormatError and DecodeFailureErorr of pkg/blobindex, which unwrap to their reason.
  unknown_format decode_failure : Context
  parsing_private_key parsing_did wrapping_did : Context

pub data Err : Type 0 where
  key_not_found redis_nil queue_shutdown : Err
  no_claim_endpoint no_initial_job not_implemented : Err
  missing_root_block unknown_index_version : Err
  unexpected_root_codec : ℕ → Err
  missing_block : Bytes → Err
  wrapped : Context → Err → Err
  -- A response with this status outside 200-299, and its body.
  failure_response : ℕ → Bytes → Err
  -- An error that code outside the repository returned.
  foreign : ℕ → Err
  -- A nil dereference: a panic, which nothing in the modelled code recovers from.
  nil_dereference : Err
  -- An index outside a slice, and a type assertion that fails, likewise.
  index_out_of_range failed_assertion : Err
  -- "transport id does not match": the code that was expected, and the code that was read.
  id_mismatch : ℕ → ℕ → Err

-- The errors that stand for panics.
unfoldable pub is_panic : Err → Bool
is_panic nil_dereference = true
is_panic index_out_of_range = true
is_panic failed_assertion = true
is_panic _ = false

-- `errors.Is(err, types.ErrKeyNotFound)` looks through `%w`.
unfoldable pub is_key_not_found : Err → Bool
is_key_not_found key_not_found = true
is_key_not_found (wrapped c e) = is_key_not_found e
is_key_not_found _ = false

pub data Result {ℓ} (A : Type ℓ) : Type ℓ where
  ok : A → Result A
  err : Err → Result A

-- A call with an effect on the world `W`: what was written before an error stays written.
abbrev pub Io : Type 0 → Type 0 → Type 0
Io W A = W → Result A × W

module _ {W A B : Type 0} where
  abbrev pub after : Result A × W → (A → Io W B) → Result B × W
  after (ok a, w) f = f a w
  after (err e, w) f = (err e, w)

  infixl 10 ◌>>=◌ ◌>>◌
  unfoldable pub ◌>>=◌ : Io W A → (A → Io W B) → Io W B
  ◌>>=◌ m f w = after (m w) f

  abbrev pub ◌>>◌ : Io W A → Io W B → Io W B
  m >> n = m >>= λ _. n

module _ {W A : Type 0} where
  abbrev pub pure : A → Io W A
  pure a w = (ok a, w)

  abbrev pub raise : Err → Io W A
  raise e w = (err e, w)

  abbrev pub lift : Result A → Io W A
  lift r w = (r, w)

  -- The result of a call as a value, for code that goes on after an error.
  abbrev pub try : Io W A → Io W (Result A)
  try m w = (ok (m w).0, (m w).1)

  abbrev rename : Context → Result A × W → Result A × W
  rename c (ok a, w) = (ok a, w)
  rename c (err e, w) = (err (wrapped c e), w)

  -- `if err != nil { return nil, fmt.Errorf("...: %w", err) }`.
  abbrev pub within : Context → Io W A → Io W A
  within c m w = rename c (m w)

pub ok-injective {ℓ} : {A : Type ℓ} {a b : A} → ok a ≡ ok b → a ≡ b
ok-injective e = cc

pub Result-cases {ℓ} :
    {A : Type ℓ} (P : Result A → Type ℓ) (r : Result A)
    → ((a : A) → r ≡ ok a → P (ok a))
    → ((e : Err) → r ≡ err e → P (err e))
    → P r
Result-cases P (ok a) f g = f a refl
Result-cases P (err e) f g = g e refl

-- The rest of a function after a call that may fail.
abbrev pub on_ok {ℓ κ} : {A : Type ℓ} {B : Type κ} → Result A → (A → Result B) → Result B
on_ok (ok a) f = f a
on_ok (err e) f = err e

-- A loop that collects results and stops at the first error.
abbrev pub traverse {ℓ κ} : {A : Type ℓ} {B : Type κ} → (A → Result B) → List A → Result (List B)
traverse f [] = ok []
traverse f (a ∷ xs) = on_ok (f a) (λ b. on_ok (traverse f xs) (λ bs. ok (b ∷ bs)))

-- Decoding what was encoded.
pub traverse-map {ℓ κ} :
    {A : Type ℓ} {B : Type κ} (f : B → Result A) (g : A → B) (xs : List A)
    → All (λ a. f (g a) ≡ ok a) xs
    → traverse f (map g xs) ≡ ok xs
traverse-map f g [] h = refl
traverse-map f g (a ∷ xs) h = rw (h.0) (rw (traverse-map f g xs h.1))

-- A sequence that succeeds is two calls that succeed.
pub on_ok_lem {ℓ κ} :
    {A : Type ℓ} {B : Type κ} (r : Result A) (f : A → Result B) (b : B)
    → on_ok r f ≡ ok b
    → (a : A) × (r ≡ ok a) × (f a ≡ ok b)
on_ok_lem (ok a) f b e = (a, refl, e)
on_ok_lem (err x) f b e = cc

-- A sequence that fails does so in its first call or in the rest.
pub on_ok_failed {ℓ κ} :
    {A : Type ℓ} {B : Type κ} (r : Result A) (f : A → Result B) (e : Err)
    → on_ok r f ≡ err e
    → (r ≡ err e) ⊎ ((a : A) × (r ≡ ok a) × (f a ≡ err e))
on_ok_failed (ok a) f e h = inr (a, refl, h)
on_ok_failed (err x) f e h = inl (cc)
