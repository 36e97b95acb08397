-- ===== src/JobWalker/Ensures.antt =====
-- Calls that keep a predicate of the state whether they fail or not, with what their result
-- satisfies when they succeed; a rule for each way to build a call.
use indexing_service.Prelude.{◌≡◌, refl, Bool, true, false, if◌then◌else◌}
use indexing_service.Result.{Result, ok, err, Io, after, ◌>>=◌, ◌>>◌, pure, lift}

pub record Ensures {S A : Type 0} (P : S → Type 0) (Q : A → Type 0) (m : Io S A) : Type 0 where
  pub keeps : (s : S) → P s → P (m s).1
  pub gives : (s : S) → P s → (a : A) → (m s).0 ≡ ok a → Q a

-- With no claim about the result.
abbrev pub Keeps : {S A : Type 0} → (S → Type 0) → Io S A → Type 0
Keeps P m = Ensures P (λ _. Unit {0}) m

module _ {S A : Type 0} {P : S → Type 0} where
  pub Keeps-pure : (a : A) → Keeps P (pure a)
  Keeps-pure a = record { keeps = λ s h. h; gives = λ s h b e. tt }

  pub Ensures-lift : (r : Result A) → Ensures P (λ a. r ≡ ok a) (lift r)
  Ensures-lift r = record { keeps = λ s h. h; gives = λ s h a e. e }

  pub Keeps-if : (b : Bool) (m n : Io S A) → Keeps P m → Keeps P n → Keeps P (if b then m else n)
  Keeps-if true m n km kn = km
  Keeps-if false m n km kn = kn

  pub Keeps-weaken : {Q : A → Type 0} (m : Io S A) → Ensures P Q m → Keeps P m
  Keeps-weaken m e = record { keeps = e.keeps; gives = λ s h a x. tt }

module _ {S A B : Type 0} {P : S → Type 0} where
  -- The rest may use what the first call gives.
  pub Keeps-bind :
      {Q : A → Type 0} (m : Io S A) (f : A → Io S B)
      → Ensures P Q m
      → ((a : A) → Q a → Keeps P (f a))
      → Keeps P (m >>= f)
  unfolding ◌>>=◌
  Keeps-bind {Q} m f em kf = record {
    keeps = λ s h. rest (m s).0 (m s).1 (em.keeps s h) (em.gives s h);
    gives = λ s h a e. tt;
  }
    where
      rest : (r : Result A) (s : S) → P s → ((a : A) → r ≡ ok a → Q a) → P (after (r, s) f).1
      rest (ok a) s h q = (kf a (q a refl)).keeps s h
      rest (err e) s h q = h

  pub Keeps-then : (m : Io S A) (n : Io S B) → Keeps P m → Keeps P n → Keeps P (m >> n)
  Keeps-then m n km kn = Keeps-bind m (λ _. n) km (λ a _. kn)

module _ {S A B : Type 0} where
  -- A sequence that succeeds is two calls that succeed.
  pub bind_ok :
      (m : Io S A) (f : A → Io S B) (s s' : S) (b : B)
      → (m >>= f) s ≡ (ok b, s')
      → (a : A) × (s₁ : S) × (m s ≡ (ok a, s₁)) × (f a s₁ ≡ (ok b, s'))
  unfolding ◌>>=◌
  bind_ok m f s s' b e = first (m s).0 (m s).1 refl refl e
    where
      first :
          (r : Result A) (s₁ : S)
          → (m s).0 ≡ r
          → (m s).1 ≡ s₁
          → after (r, s₁) f ≡ (ok b, s')
          → (a : A) × (s₁ : S) × (m s ≡ (ok a, s₁)) × (f a s₁ ≡ (ok b, s'))
      first (ok a) s₁ p q e' = (a, s₁, (λ i. (p i, q i)), e')
      first (err x) s₁ p q e' = cc
