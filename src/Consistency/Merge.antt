-- ===== src/Consistency/Merge.antt =====
-- A successful check, and when a check succeeds.
use ml_metadata_l_metadata_s.Prelude.{
  ℕ, ◌-◌, String, Bool, true, false, ◌++◌, some, ◌≡◌, refl, arith, str_eq, eq_iff, length, ◌==◌,
  ==_iff, Bool-cases, inl, inr, subst,
}
use ml_metadata_l_metadata_s.Status.{ok, IsOk, >>=-eq-ok}
use ml_metadata_l_metadata_s.Maps.{
  lookup, contains, IsMap, or_else, contains-lookup, lookup-append, missing, missing-zero,
  missing-of_contains,
}
use ml_metadata_l_metadata_s.Messages.{PropertyType, TypeMessage, text_of}
use ml_metadata_l_metadata_s.Consistency.{
  Properties, count_omitted, new_fields, merge_types, check_fields_consistent,
}
use ml_metadata_l_metadata_s.Consistency.Loop.{
  count_omitted-missing, count_omitted_agree, count_omitted_none, count_omitted_succeeds,
  lookup-new_fields, sizes-missing,
}

-- What a check with the flags `can_add` and `can_omit` accepts: one name, no property with two
-- types, and no key omitted or added without leave.
pub record IsConsistent (stored other : TypeMessage) (can_add can_omit : Bool) : Type 0 where
  pub same_name : text_of stored.name ≡ text_of other.name
  pub agree :
      (k : String) (v w : PropertyType)
      → lookup k stored.properties ≡ some v
      → lookup k other.properties ≡ some w
      → v ≡ w
  pub omits :
      can_omit ≡ false
      → (k : String) → contains k stored.properties ≡ true
      → contains k other.properties ≡ true
  pub adds :
      can_add ≡ false
      → (k : String) → contains k other.properties ≡ true
      → contains k stored.properties ≡ true

-- The result has the stored fields and, behind them, the given ones.
pub record IsMerged (stored other out : TypeMessage) : Type 0 where
  pub same_id : out.id ≡ stored.id
  pub name_kept : out.name ≡ stored.name
  pub same_version : out.version ≡ stored.version
  pub merged :
      (k : String)
      → lookup k out.properties ≡ or_else (lookup k stored.properties) (lookup k other.properties)

lookup_old :
    (k : String) (m n : Properties)
    → (contains k n ≡ true → contains k m ≡ true)
    → lookup k m ≡ or_else (lookup k m) (lookup k n)
lookup_old k m n h = ground (arith, contains-lookup k m, contains-lookup k n, h)

lookup_merged :
    (k : String) (m n : Properties)
    → lookup k (m ++ new_fields m n) ≡ or_else (lookup k m) (lookup k n)
lookup_merged k m n =
    ground (arith, lookup-append k m (new_fields m n), lookup-new_fields m n k, contains-lookup k m)

-- What `merge_types` has done when it succeeds, where `missing stored other` fields were omitted.
merge_types-ok :
    (stored other out : TypeMessage) (can_add : Bool) (omitted : ℕ)
    → IsMap stored.properties
    → IsMap other.properties
    → omitted ≡ missing stored.properties other.properties
    → merge_types stored other can_add omitted ≡ ok out
    → IsMerged stored other out × (can_add ≡ false → missing other.properties stored.properties ≡ 0)
unfolding merge_types
merge_types-ok stored other out can_add omitted d e m h =
    elim (Bool-cases (length stored.properties - omitted == length other.properties)) [
      | inl whole ↦
          let none_new : missing other.properties stored.properties ≡ 0 =
            omega
              (arith, (==_iff _ _).0 whole, sizes-missing stored.properties other.properties d e) in
          let same : stored ≡ out = ground arith in
          (
            subst (IsMerged stored other) same (record {
              same_id = refl;
              name_kept = refl;
              same_version = refl;
              merged = λ k.
                  lookup_old k stored.properties other.properties
                    (missing-zero other.properties stored.properties k none_new);
            }),
            λ _. none_new,
          )
      | inr more ↦
          let same : extended ≡ out = ground arith in
          (
            subst (IsMerged stored other) same (record {
              same_id = refl;
              name_kept = refl;
              same_version = refl;
              merged = λ k. lookup_merged k stored.properties other.properties;
            }),
            λ never. ground arith,
          )
    ]
  where
    extended : TypeMessage
    extended = record stored {
      properties = stored.properties ++ new_fields stored.properties other.properties;
    }

-- A check that succeeds has passed the test of the names, the loop and the merge.
check_fields_consistent-ok :
    (stored other out : TypeMessage) (can_add can_omit : Bool)
    → check_fields_consistent stored other can_add can_omit ≡ ok out
    → (text_of stored.name ≡ text_of other.name)
      × (r : ℕ) × (count_omitted stored.properties other.properties can_omit 0 ≡ ok r)
      × (merge_types stored other can_add r ≡ ok out)
unfolding check_fields_consistent
check_fields_consistent-ok stored other out can_add can_omit h =
    elim (Bool-cases (str_eq (text_of stored.name) (text_of other.name))) [
      | inl same ↦
          let (r, counted, merged) =
            >>=-eq-ok (count_omitted stored.properties other.properties can_omit 0)
              (merge_types stored other can_add) (rw same at h) in
          ((eq_iff _ _).0 same, r, counted, merged)
      | inr differs ↦ ground arith
    ]

-- A check that succeeds accepts nothing but consistent types, and returns the stored type with the
-- given type's new properties added: its id and version stay, and each key has its stored property
-- or else its given one. The property maps of both types have distinct keys.
pub check_fields_consistent_sound :
    (stored other out : TypeMessage) (can_add can_omit : Bool)
    → IsMap stored.properties
    → IsMap other.properties
    → check_fields_consistent stored other can_add can_omit ≡ ok out
    → IsConsistent stored other can_add can_omit × IsMerged stored other out
unfolding check_fields_consistent
check_fields_consistent_sound stored other out can_add can_omit d e h =
    let (named, r, counted, merged) =
      check_fields_consistent-ok stored other out can_add can_omit h in
    let count = count_omitted-missing stored.properties other.properties can_omit 0 r counted in
    let (result, none_new) =
      merge_types-ok stored other out can_add r d e (omega (arith, count)) merged in
    (
      record {
        same_name = named;
        agree = λ k v w.
            count_omitted_agree stored.properties other.properties can_omit 0 r k v w counted;
        omits = λ never k. missing-zero stored.properties other.properties k (
            omega (
              arith,
              count,
              count_omitted_none stored.properties other.properties r (rw never at counted),
            ));
        adds = λ never k. missing-zero other.properties stored.properties k (none_new never);
      },
      result,
    )

merge_types-IsOk :
    (stored other : TypeMessage) (can_add : Bool) (omitted : ℕ)
    → (can_add ≡ false → length stored.properties - omitted ≡ length other.properties)
    → IsOk (merge_types stored other can_add omitted)
unfolding merge_types
merge_types-IsOk stored other can_add omitted h = ground (arith, h)

-- The check accepts every consistent pair of types: with the theorem above, it succeeds exactly on
-- these. The property maps have distinct keys.
pub check_fields_consistent_complete :
    (stored other : TypeMessage) (can_add can_omit : Bool)
    → IsMap stored.properties
    → IsMap other.properties
    → IsConsistent stored other can_add can_omit
    → IsOk (check_fields_consistent stored other can_add can_omit)
unfolding check_fields_consistent
check_fields_consistent_complete stored other can_add can_omit d e h =
    let (r, counted) =
      count_omitted_succeeds stored.properties other.properties can_omit 0 d h.agree
        (λ never. (refl, h.omits never)) in
    let named = (eq_iff _ _).1 h.same_name in
    rw (named, counted)
      (merge_types-IsOk stored other can_add r (λ never. omega (
        arith,
        count_omitted-missing stored.properties other.properties can_omit 0 r counted,
        sizes-missing stored.properties other.properties d e,
        missing-of_contains other.properties stored.properties (h.adds never),
      )))
