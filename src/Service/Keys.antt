-- ===== src/Service/Keys.antt =====
-- The key under which a job is marked as visited.
use indexing_service.Prelude.{
  ◌≡◌, refl, ap, ◌∙◌, sym, Option, none, some, [], ◌∷◌, ◌++◌, Bytes, arith, length,
}
use mathlib.Core.List.{append_assoc}
use mathlib.Core.Path.{subst}
use indexing_service.Service.Jobs.{
  JobType, standard, location, equals_or_location, Job, type_text, suffix, key,
}

append-cancel : (a x y : Bytes) → a ++ x ≡ a ++ y → x ≡ y
append-cancel [] x y e = e
append-cancel (c ∷ a) x y e = append-cancel a x y (cc)

-- Byte strings of one length are told apart whatever follows them.
pub append-cancel_length : (a b x y : Bytes) → length a ≡ length b → a ++ x ≡ b ++ y → a ≡ b
append-cancel_length [] [] x y l e = refl
append-cancel_length [] (d ∷ b) x y l e = absurd (omega arith)
append-cancel_length (c ∷ a) [] x y l e = absurd (omega arith)
append-cancel_length (c ∷ a) (d ∷ b) x y l e =
    let tails : a ≡ b = append-cancel_length a b x y (omega arith) (cc) in cc

-- The texts of the job types differ in their first byte.
type_text_suffix :
    (t u : JobType) (x y : Bytes) → type_text t ++ x ≡ type_text u ++ y → (t ≡ u) × (x ≡ y)
unfolding type_text
type_text_suffix standard standard x y e = (refl, append-cancel (type_text standard) x y e)
type_text_suffix standard location x y e = (ground arith, ground arith)
type_text_suffix standard equals_or_location x y e = (ground arith, ground arith)
type_text_suffix location standard x y e = (ground arith, ground arith)
type_text_suffix location location x y e = (refl, append-cancel (type_text location) x y e)
type_text_suffix location equals_or_location x y e = (ground arith, ground arith)
type_text_suffix equals_or_location standard x y e = (ground arith, ground arith)
type_text_suffix equals_or_location location x y e = (ground arith, ground arith)
type_text_suffix equals_or_location equals_or_location x y e =
    (refl, append-cancel (type_text equals_or_location) x y e)

suffix-injective :
    (M : Bytes → Type 0)
    → ¬ M []
    → (a b : Option Bytes) → ((x : Bytes) → a ≡ some x → M x)
    → ((x : Bytes) → b ≡ some x → M x)
    → suffix a ≡ suffix b
    → a ≡ b
suffix-injective M e none none p q h = refl
suffix-injective M e none (some y) p q h = absurd (e (subst M (sym h) (q y refl)))
suffix-injective M e (some x) none p q h = absurd (e (subst M h (p x refl)))
suffix-injective M e (some x) (some y) p q h = ap some h

module _ (M : Bytes → Type 0) (not_empty : ¬ M [])
    (prefix_free : (a b x y : Bytes) → M a → M b → a ++ x ≡ b ++ y → a ≡ b) where
  -- Among hashes none of which is empty or begins another, two jobs with the same key have the
  -- same hash, the same type, and the same hash, or none both, that an index is sought for.
  pub key-injective :
      (j k : Job)
      → M j.mh
      → M k.mh
      → ((x : Bytes) → j.index_for_mh ≡ some x → M x)
      → ((x : Bytes) → k.index_for_mh ≡ some x → M x)
      → key j ≡ key k
      → (j.mh ≡ k.mh) × (j.job_type ≡ k.job_type) × (j.index_for_mh ≡ k.index_for_mh)
  unfolding key
  key-injective j k mj mk oj ok e =
      let regrouped =
        sym (append_assoc j.mh (type_text j.job_type) (suffix j.index_for_mh))
        ∙ e
        ∙ append_assoc k.mh (type_text k.job_type) (suffix k.index_for_mh) in
      let same : j.mh ≡ k.mh = prefix_free j.mh k.mh _ _ mj mk regrouped in
      let rest : type_text j.job_type ++ suffix j.index_for_mh
          ≡ type_text k.job_type ++ suffix k.index_for_mh =
        append-cancel k.mh _ _
          (ap (λ m. m ++ (type_text j.job_type ++ suffix j.index_for_mh)) (sym same) ∙ regrouped) in
      let (t, s) = type_text_suffix j.job_type k.job_type _ _ rest in
      (same, t, suffix-injective M not_empty j.index_for_mh k.index_for_mh oj ok s)

-- A location job for a hash that ends in equals_or_ has the key of the equals-or-location job for
-- what stands before that ending, if both seek an index for the same hash or for none.
pub key-collision :
    (h : Bytes) (x : Option Bytes) (j k : Job)
    → j.mh ≡ h ++ b'e' ∷ b'q' ∷ b'u' ∷ b'a' ∷ b'l' ∷ b's' ∷ b'_' ∷ b'o' ∷ b'r' ∷ b'_' ∷ []
    → j.job_type ≡ location
    → j.index_for_mh ≡ x
    → k.mh ≡ h
    → k.job_type ≡ equals_or_location
    → k.index_for_mh ≡ x
    → key j ≡ key k
unfolding key
key-collision h x j k a b c d e f =
    rw (a, b, c, d, e, f) (ap (λ t. t ++ suffix x) (append_assoc h _ _))
