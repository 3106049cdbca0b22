-- ===== src/Maps/Lookup.antt =====
-- Lookup and the keys of a map.
use ml_metadata_l_metadata_s.Prelude.{
  String, Bool, true, false, Option, none, some, List, [], ◌∷◌, ◌++◌, ◌≡◌, refl, ◌↔◌, arith, str_eq,
  eq_iff, if◌then◌else◌, Bool-cases, inl, inr, subst,
}

module _ {ℓ} {V : Type ℓ} where
  -- `m.find(k)`, with `none` for `m.end()`
  unfoldable pub lookup : String → List (String × V) → Option V
  lookup k [] = none
  lookup k ((j, v) ∷ m) = if str_eq j k then some v else lookup k m

  -- `m.find(k) != m.end()`
  unfoldable pub contains : String → List (String × V) → Bool
  contains k [] = false
  contains k ((j, v) ∷ m) = if str_eq j k then true else contains k m

  -- The keys are distinct.
  abbrev pub IsMap : List (String × V) → Type 0
  IsMap [] = Unit
  IsMap ((k, v) ∷ m) = (contains k m ≡ false) × IsMap m

  -- `some v` first, else the second.
  abbrev pub or_else : Option V → Option V → Option V
  or_else none y = y
  or_else (some v) y = some v

  pub contains-lookup :
      (k : String) (m : List (String × V)) → (contains k m ≡ false) ↔ (lookup k m ≡ none)
  unfolding lookup contains
  contains-lookup k [] = (λ _. refl, λ _. refl)
  contains-lookup k ((j, v) ∷ m) = ground (arith, contains-lookup k m)

  pub lookup-append :
      (k : String) (m n : List (String × V)) → lookup k (m ++ n) ≡ or_else (lookup k m) (lookup k n)
  unfolding lookup
  lookup-append k [] n = refl
  lookup-append k ((j, v) ∷ m) n = ground (arith, lookup-append k m n)

  -- An entry of the rest of a map is an entry of the map.
  pub lookup-tail :
      (j k : String) (x v : V) (m : List (String × V))
      → contains j m ≡ false
      → lookup k m ≡ some v
      → lookup k ((j, x) ∷ m) ≡ some v
  unfolding lookup
  lookup-tail j k x v m h e = elim (Bool-cases (str_eq j k)) [
    | inl same ↦
        cc (e, (contains-lookup k m).0 (subst (λ y. contains y m ≡ false) ((eq_iff j k).0 same) h))
    | inr differs ↦ rw differs e
  ]

  pub contains_self : (k : String) (v : V) (m : List (String × V)) → contains k ((k, v) ∷ m) ≡ true
  unfolding contains
  contains_self k v m = ground (arith, eq_iff k k)

  pub contains-tail :
      (j k : String) (x : V) (m : List (String × V))
      → contains k m ≡ true
      → contains k ((j, x) ∷ m) ≡ true
  unfolding contains
  contains-tail j k x m h = ground arith

  pub lookup_self : (k : String) (v : V) (m : List (String × V)) → lookup k ((k, v) ∷ m) ≡ some v
  unfolding lookup
  lookup_self k v m = ground (arith, eq_iff k k)

  -- The key of a first entry is not found behind it.
  pub lookup-behind :
      (j k : String) (m : List (String × V))
      → contains j m ≡ false
      → str_eq j k ≡ true
      → lookup k m ≡ none
  lookup-behind j k m h e =
      (contains-lookup k m).0 (subst (λ y. contains y m ≡ false) ((eq_iff j k).0 e) h)
