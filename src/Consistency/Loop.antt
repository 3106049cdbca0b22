-- ===== src/Consistency/Loop.antt =====
-- What a successful check has established, and what it returns.
use ml_metadata_l_metadata_s.Prelude.{
  ℕ, ◌+◌, ◌-◌, String, Bool, true, false, [], ◌∷◌, none, some, ◌≡◌, refl, ap, arith, str_eq, eq_iff,
  if◌then◌else◌, length, Bool-cases, Option-cases, inl, inr,
}
use ml_metadata_l_metadata_s.Status.{ok}
use ml_metadata_l_metadata_s.Maps.{
  lookup, contains, lookup-tail, lookup_self, contains_self, contains-tail, IsMap, contains-lookup,
  missing, shared-missing, shared_comm,
}
use ml_metadata_l_metadata_s.Messages.{PropertyType, same_type_iff}
use ml_metadata_l_metadata_s.Consistency.{Properties, count_omitted, new_fields}

-- The loop adds the number of stored keys that the given type lacks.
pub count_omitted-missing :
    (stored other : Properties) (can_omit : Bool) (n r : ℕ)
    → count_omitted stored other can_omit n ≡ ok r
    → r ≡ n + missing stored other
unfolding count_omitted missing
count_omitted-missing [] other can_omit n r h = ground arith
count_omitted-missing ((k, v) ∷ rest) other can_omit n r h = ground (
  arith,
  contains-lookup k other,
  count_omitted-missing rest other can_omit n r,
  count_omitted-missing rest other can_omit (n + 1) r,
)

-- Where both types have a key, the loop has compared the two.
pub count_omitted_agree :
    (stored other : Properties) (can_omit : Bool) (n r : ℕ) (k : String) (v w : PropertyType)
    → count_omitted stored other can_omit n ≡ ok r
    → lookup k stored ≡ some v
    → lookup k other ≡ some w
    → v ≡ w
unfolding count_omitted lookup
count_omitted_agree [] other can_omit n r k v w h s o = cc
count_omitted_agree ((j, x) ∷ rest) other can_omit n r k v w h s o =
    elim (Bool-cases (str_eq j k)) [
      | inl same ↦ ground (arith, same_type_iff w x, ap (λ y. lookup y other) ((eq_iff j k).0 same))
      | inr differs ↦ ground (
        arith,
        count_omitted_agree rest other can_omit n r k v w,
        count_omitted_agree rest other can_omit (n + 1) r k v w,
      )
    ]

-- Without leave to omit, the loop ends with nothing omitted.
pub count_omitted_none :
    (stored other : Properties) (r : ℕ) → count_omitted stored other false 0 ≡ ok r → r ≡ 0
unfolding count_omitted
count_omitted_none [] other r h = ground arith
count_omitted_none ((k, v) ∷ rest) other r h = ground (arith, count_omitted_none rest other r)

pub lookup-new_fields :
    (stored other : Properties) (k : String)
    → lookup k (new_fields stored other) ≡ (if contains k stored then none else lookup k other)
unfolding lookup new_fields
lookup-new_fields stored [] k = ground arith
lookup-new_fields stored ((j, v) ∷ rest) k = elim (Bool-cases (str_eq j k)) [
  | inl same ↦
      let e = (eq_iff j k).0 same in
      ground (arith, ap (λ y. contains y stored) e, lookup-new_fields stored rest k)
  | inr differs ↦ ground (arith, lookup-new_fields stored rest k)
]

-- The two sizes agree exactly if no key of the given type is new.
pub sizes-missing :
    (stored other : Properties)
    → IsMap stored
    → IsMap other
    → length stored - missing stored other + missing other stored ≡ length other
sizes-missing stored other d e =
    omega (
      arith,
      shared-missing stored other,
      shared-missing other stored,
      shared_comm stored other d e,
    )

-- The loop succeeds if the types agree and, without leave to omit, no key is omitted.
pub count_omitted_succeeds :
    (stored other : Properties) (can_omit : Bool) (n : ℕ)
    → IsMap stored
    → ((k : String) (v w : PropertyType)
        → lookup k stored ≡ some v
        → lookup k other ≡ some w
        → v ≡ w)
    → (can_omit ≡ false
        → (n ≡ 0) × ((k : String) → contains k stored ≡ true → contains k other ≡ true))
    → (r : ℕ) × (count_omitted stored other can_omit n ≡ ok r)
unfolding count_omitted
count_omitted_succeeds [] other can_omit n d agree omits = (n, refl)
count_omitted_succeeds ((j, x) ∷ rest) other can_omit n d agree omits =
    let agree' = λ (k : String) (v w : PropertyType) (s : lookup k rest ≡ some v).
      agree k v w (lookup-tail j k x v rest d.0 s) in
    let (r, e) =
      count_omitted_succeeds rest other can_omit n d.1 agree'
        (λ never. ((omits never).0, λ k s. (omits never).1 k (contains-tail j k x rest s))) in
    elim (Option-cases (lookup j other)) [
      | inl gone ↦ elim (Bool-cases can_omit) [
        | inl may ↦
            let (r', e') =
              count_omitted_succeeds rest other can_omit (n + 1) d.1 agree' (λ never. cc) in
            (r', ground arith)
        | inr never ↦
            cc ((contains-lookup j other).1 gone, (omits never).1 j (contains_self j x rest))
      ]
      | inr (w, found) ↦
          (r, ground (arith, same_type_iff w x, agree j x w (lookup_self j x rest) found, omits))
    ]
