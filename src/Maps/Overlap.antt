-- ===== src/Maps/Overlap.antt =====
-- How many keys two maps share.
use ml_metadata_l_metadata_s.Prelude.{
  ℕ, ◌+◌, String, Bool, true, false, List, [], ◌∷◌, ◌≡◌, refl, arith, str_eq, eq_iff, if◌then◌else◌,
  length, sym, subst, inl, inr, Bool-cases,
}
use ml_metadata_l_metadata_s.Maps.Lookup.{contains, IsMap}

abbrev one_if : Bool → ℕ
one_if true = 1
one_if false = 0

module _ {ℓ κ} {V : Type ℓ} {W : Type κ} where
  -- The keys of the first map that are, and that are not, keys of the second.
  unfoldable pub shared : List (String × V) → List (String × W) → ℕ
  shared [] n = 0
  shared ((k, v) ∷ m) n = one_if (contains k n) + shared m n

  unfoldable pub missing : List (String × V) → List (String × W) → ℕ
  missing [] n = 0
  missing ((k, v) ∷ m) n = (if contains k n then 0 else 1) + missing m n

  present-head :
      (j : String) (v : V) (m : List (String × V)) (n : List (String × W))
      → missing ((j, v) ∷ m) n ≡ 0
      → contains j n ≡ true
  unfolding missing
  present-head j v m n h = ground arith

  missing-tail :
      (j : String) (v : V) (m : List (String × V)) (n : List (String × W))
      → missing ((j, v) ∷ m) n ≡ 0
      → missing m n ≡ 0
  unfolding missing
  missing-tail j v m n h = ground arith

  pub shared-missing :
      (m : List (String × V)) (n : List (String × W)) → shared m n + missing m n ≡ length m
  unfolding shared missing
  shared-missing [] n = refl
  shared-missing ((k, v) ∷ m) n = ground (arith, shared-missing m n)

  -- If none is missing, every key of the first is a key of the second.
  pub missing-zero :
      (m : List (String × V)) (n : List (String × W)) (k : String)
      → missing m n ≡ 0
      → contains k m ≡ true
      → contains k n ≡ true
  unfolding missing contains
  missing-zero [] n k h c = cc
  missing-zero ((j, v) ∷ m) n k h c = elim (Bool-cases (str_eq j k)) [
    | inl same ↦ subst (λ x. contains x n ≡ true) ((eq_iff j k).0 same) (present-head j v m n h)
    | inr other ↦ missing-zero m n k (missing-tail j v m n h) (rw other at c)
  ]

  -- If every key of the first is a key of the second, none is missing.
  pub missing-of_contains :
      (m : List (String × V)) (n : List (String × W))
      → ((k : String) → contains k m ≡ true → contains k n ≡ true)
      → missing m n ≡ 0
  unfolding missing contains
  missing-of_contains [] n h = refl
  missing-of_contains ((j, v) ∷ m) n h =
      ground (arith, h j, eq_iff j j, missing-of_contains m n (λ k c. h k (ground arith)))

  -- A key more on the right counts once if the left map has it.
  shared-cons :
      (m : List (String × V)) (k : String) (w : W) (n : List (String × W))
      → IsMap m
      → contains k n ≡ false
      → shared m ((k, w) ∷ n) ≡ one_if (contains k m) + shared m n
  unfolding shared contains
  shared-cons [] k w n d h = refl
  shared-cons ((j, v) ∷ m) k w n d h = elim (Bool-cases (str_eq k j)) [
    | inl same ↦
        let e : k ≡ j = (eq_iff k j).0 same in
        ground (arith, e, eq_iff j k, shared-cons m k w n d.1 h)
    | inr other ↦ ground (arith, other, eq_iff j k, eq_iff k j, shared-cons m k w n d.1 h)
  ]

shared-nil {ℓ κ} : {V : Type ℓ} (W : Type κ) (n : List (String × V)) → shared {W = W} n [] ≡ 0
unfolding shared contains
shared-nil W [] = refl
shared-nil W ((j, w) ∷ n) = omega (arith, shared-nil W n)

module _ {ℓ κ} {V : Type ℓ} {W : Type κ} where
  -- Two maps share as many keys counted from either side.
  pub shared_comm :
      (m : List (String × V)) (n : List (String × W)) → IsMap m → IsMap n → shared m n ≡ shared n m
  unfolding shared
  shared_comm [] n d e = sym (shared-nil V n)
  shared_comm ((k, v) ∷ m) n d e = omega (arith, shared_comm m n d.1 e, shared-cons n k v m e d.0)
