-- ===== src/Types/Update.antt =====
-- UpdateTypeImpl writes the properties that are new and no others.
use ml_metadata_l_metadata_s.Prelude.{
  ℕ, ◌≡◌, ap, ◌∙◌, String, some, List, [], ◌∷◌, str_eq, eq_iff, arith, subst, sym, Bool-cases, inl,
  inr, Option-cases,
}
use ml_metadata_l_metadata_s.Status.{ok}
use ml_metadata_l_metadata_s.Exec.{bind-ok}
use ml_metadata_l_metadata_s.Maps.{lookup}
use ml_metadata_l_metadata_s.Messages.{PropertyType, same_type, same_type_iff, unknown}
use ml_metadata_l_metadata_s.Tables.{Db}
use ml_metadata_l_metadata_s.Tables.TypeQueries.{insert_type_property}
use ml_metadata_l_metadata_s.Types.{update_type_properties}
use ml_metadata_l_metadata_s.Types.Rows.{
  stored_property, Adds, Adds-nil, Adds-cons, insert_type_property-Adds,
}

-- A key that is stored already changes nothing.
Adds-stored :
    (t : ℕ) (k : String) (v w : PropertyType) (given : List (String × PropertyType)) (db db' : Db)
    → stored_property db t k ≡ some w
    → Adds t given db db'
    → Adds t ((k, v) ∷ given) db db'
unfolding lookup
Adds-stored t k v w given db db' s g = record {
  types_kept = g.types_kept;
  parents_kept = g.parents_kept;
  last_kept = g.last_kept;
  here = λ j. ground (arith, g.here j, eq_iff k j);
  elsewhere = λ u j apart. g.elsewhere u j apart;
}

-- The stored properties that the loop reads are in the table.
abbrev pub AreStored : List (String × PropertyType) → ℕ → Db → Type 0
AreStored stored t db =
    (k : String) (w : PropertyType) → lookup k stored ≡ some w → stored_property db t k ≡ some w

AreStored-Adds :
    (stored given : List (String × PropertyType)) (t : ℕ) {db db' : Db}
    → AreStored stored t db
    → Adds t given db db'
    → AreStored stored t db'
AreStored-Adds stored given t s a k w h = ground (arith, a.here k, s k w h)

-- What a successful run of the loop has done.
abbrev pub Updates :
    ℕ → List (String × PropertyType) → List (String × PropertyType) → Db → Db → Type 0
Updates t stored given db db' =
    Adds t given db db'
    × ((k : String) (v w : PropertyType)
        → lookup k given ≡ some v
        → lookup k stored ≡ some w
        → w ≡ v)

agree-cons :
    (stored given : List (String × PropertyType)) (k : String) (v : PropertyType)
    → ((w : PropertyType) → lookup k stored ≡ some w → w ≡ v)
    → ((j : String) (u w : PropertyType)
        → lookup j given ≡ some u
        → lookup j stored ≡ some w
        → w ≡ u)
    → (j : String) (u w : PropertyType) → lookup j ((k, v) ∷ given) ≡ some u
    → lookup j stored ≡ some w
    → w ≡ u
unfolding lookup
agree-cons stored given k v first rest j u w h s = elim (Bool-cases (str_eq k j)) [
  | inl same ↦
      let at : v ≡ u = ground arith in
      let key : k ≡ j = (eq_iff k j).0 same in
      first w (ap (λ (x : String). lookup x stored) key ∙ s) ∙ at
  | inr other ↦ rest j u w (rw other at h) s
]

pub update_type_properties-Updates :
    (t : ℕ) (stored given : List (String × PropertyType)) (db : Db)
    → AreStored stored t db
    → (update_type_properties t stored given db).0 ≡ ok tt
    → Updates t stored given db (update_type_properties t stored given db).1
unfolding update_type_properties lookup
update_type_properties-Updates t stored [] db s h = (Adds-nil t db, λ k v w a b. ground arith)
update_type_properties-Updates t stored ((k, v) ∷ given) db s h =
    elim (Bool-cases (same_type v unknown)) [
      | inl bad ↦ ground arith
      | inr good ↦ elim (Option-cases (lookup k stored)) [
        | inr (w, found) ↦ elim (Bool-cases (same_type w v)) [
          | inl same ↦
              let (a, agree) =
                update_type_properties-Updates t stored given db s (rw (good, found, same) at h) in
              rw (good, found, same)
                (
                  Adds-stored t k v w given db _ (s k w found) a,
                  agree-cons stored given k v (λ u at. ground (arith, same_type_iff w v)) agree,
                )
          | inr differs ↦ ground arith
        ]
        | inl missing ↦
            let (_, inserted, rest, e) =
              bind-ok (insert_type_property t k v) (λ _. update_type_properties t stored given) db
                (rw (good, missing) at h) in
            let a = insert_type_property-Adds t k v db inserted in
            let (b, agree) =
              update_type_properties-Updates t stored given (insert_type_property t k v db).1
                (AreStored-Adds stored ((k, v) ∷ []) t s a) rest in
            rw (good, missing)
              (
                subst (Adds t ((k, v) ∷ given) db) (sym e) (Adds-cons t k v given a b),
                agree-cons stored given k v (λ u at. ground arith) agree,
              )
      ]
    ]
