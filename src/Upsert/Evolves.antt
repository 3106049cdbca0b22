-- ===== src/Upsert/Evolves.antt =====
-- UpsertType on a type that is stored: the conflicts it answers, and what it leaves stored.
use ml_metadata_l_metadata_s.Prelude.{
  ℕ, String, ◌≡◌, refl, sym, ap, ◌∙◌, Bool, inl, inr, Option, none, some, List, arith,
}
use ml_metadata_l_metadata_s.Status.{already_exists, ok, err, Result-cases, ok-injective, err-ok}
use ml_metadata_l_metadata_s.Exec.{pure, bind-ok, ◌>>◌}
use ml_metadata_l_metadata_s.Exec.Preserves.{Preserves}
use ml_metadata_l_metadata_s.Maps.{lookup, or_else, IsMap}
use ml_metadata_l_metadata_s.Messages.{
  Kind, PropertyType, TypeMessage, text_of, number_of, get_type_version,
}
use ml_metadata_l_metadata_s.Tables.{Db}
use ml_metadata_l_metadata_s.Consistency.{check_fields_consistent}
use ml_metadata_l_metadata_s.Consistency.Merge.{
  IsConsistent, IsMerged, check_fields_consistent_sound,
}
use ml_metadata_l_metadata_s.Types.{
  first_type, find_types_from_rows, find_type_by_name_and_version, update_type,
}
use ml_metadata_l_metadata_s.Types.Persist.{get_type_version-twice, update_type-merge}
use ml_metadata_l_metadata_s.Types.Find.{
  find_type-named, create_parent_type_inheritance_link-OnTypes,
}
use ml_metadata_l_metadata_s.Tables.TypeQueries.{select_type_by_name_and_version}
use ml_metadata_l_metadata_s.Upsert.{upsert_type_inheritance_link, evolve_type, upsert_type}
use ml_metadata_l_metadata_s.Upsert.Keeps.{upsert_type_inheritance_link-Preserves}

-- A type whose name and version are stored, with fields that are not consistent with the stored
-- ones, is refused with ALREADY_EXISTS, and nothing is written. Both property maps have distinct
-- keys.
pub upsert_type_conflict :
    (kind : Kind) (type stored : TypeMessage) (can_add can_omit : Bool) (db : Db)
    → (find_type_by_name_and_version kind (text_of type.name) type.version db).0 ≡ ok stored
    → IsMap stored.properties
    → IsMap type.properties
    → ¬ IsConsistent stored type can_add can_omit
    → upsert_type kind type can_add can_omit db ≡ (err already_exists, db)
unfolding upsert_type
upsert_type_conflict kind type stored can_add can_omit db found d e differ =
    elim (Result-cases (check_fields_consistent stored type can_add can_omit)) [
      | inl (out, good) ↦
          absurd
            (differ (check_fields_consistent_sound stored type out can_add can_omit d e good).0)
      | inr (c, bad) ↦ rw (found, bad) refl
    ]

or_else-absorbs {ℓ} : {A : Type ℓ} (a b : Option A) → or_else a (or_else a b) ≡ or_else a b
or_else-absorbs none b = refl
or_else-absorbs (some a) b = refl

-- The link to the base type leaves what a search answers.
link_keeps_find :
    (kind j : Kind) (type : TypeMessage) (id : ℕ) (name : String) (version : Option String)
    (m : TypeMessage)
    → Preserves
        (λ (db : Db). (find_type_by_name_and_version j name version db).0 ≡ ok m)
        (upsert_type_inheritance_link kind type id)
unfolding find_type_by_name_and_version
link_keeps_find kind j type id name version m =
    upsert_type_inheritance_link-Preserves
      (λ (db : Db). (find_type_by_name_and_version j name version db).0 ≡ ok m)
      (create_parent_type_inheritance_link-OnTypes (λ types properties.
        first_type (
          find_types_from_rows properties
            (select_type_by_name_and_version name (get_type_version version) j types))
        ≡ ok m))
      kind type id

find_type-twice :
    (kind : Kind) (name : String) (version : Option String) (db : Db)
    → find_type_by_name_and_version kind name (get_type_version version) db
      ≡ find_type_by_name_and_version kind name version db
unfolding find_type_by_name_and_version
find_type-twice kind name version db = rw (get_type_version-twice version) refl

-- What an evolution that succeeds returns and leaves.
pub record Evolves (kind : Kind) (type stored : TypeMessage) (db' : Db) (id : ℕ) : Type 0 where
  pub same_id : id ≡ number_of stored.id
  pub fields : List (String × PropertyType)
  pub refound :
      (find_type_by_name_and_version kind (text_of type.name) type.version db').0
      ≡ ok (record stored { properties = fields })
  pub merged :
      (k : String)
      → lookup k fields ≡ or_else (lookup k stored.properties) (lookup k type.properties)

evolved :
    (kind : Kind) (type stored out : TypeMessage) (can_add can_omit : Bool) (db : Db) (id : ℕ)
    → (find_type_by_name_and_version kind (text_of type.name) type.version db).0 ≡ ok stored
    → IsMerged stored type out
    → (evolve_type kind type can_add can_omit stored (ok out) db).0 ≡ ok id
    → Evolves kind type stored (evolve_type kind type can_add can_omit stored (ok out) db).1 id
evolved kind type stored out can_add can_omit db id found g h =
    let link = upsert_type_inheritance_link kind type (number_of stored.id) in
    let (_, updated, q, e) =
      bind-ok (update_type kind out) (λ _. link >> pure (number_of stored.id)) db h in
    let (_, linked, r, f) =
      bind-ok link (λ _. pure (number_of stored.id)) (update_type kind out db).1 q in
    let (named, versioned) =
      find_type-named kind (text_of type.name) type.version db stored found in
    let name_eq : text_of out.name ≡ text_of type.name = ap text_of (g.name_kept ∙ named) in
    let version_eq : out.version ≡ get_type_version type.version = g.same_version ∙ versioned in
    let (m, fields, before, after, keys, _, _) = update_type-merge kind out db updated in
    let here : (d : Db)
        → find_type_by_name_and_version kind (text_of out.name) out.version d
          ≡ find_type_by_name_and_version kind (text_of type.name) type.version d =
      λ d. rw (name_eq, version_eq) (find_type-twice kind (text_of type.name) type.version d) in
    let same : m ≡ stored = ok-injective (sym before ∙ ap (λ p. p.0) (here db) ∙ found) in
    let now : (find_type_by_name_and_version kind (text_of type.name) type.version
          (update_type kind out db).1).0
        ≡ ok (record stored { properties = fields }) =
      sym (ap (λ p. p.0) (here (update_type kind out db).1))
      ∙ after
      ∙ ap (λ (x : TypeMessage). ok (record x { properties = fields })) same in
    record {
      same_id = ground (arith, r);
      fields = fields;
      refound = rw (e ∙ f) (
          link_keeps_find kind kind type (number_of stored.id) (text_of type.name) type.version
            (record stored { properties = fields }) (update_type kind out db).1 now);
      merged = λ k.
          keys k
          ∙ ap (λ (x : TypeMessage). or_else (lookup k x.properties) (lookup k out.properties)) same
          ∙ rw (g.merged k)
              (or_else-absorbs (lookup k stored.properties) (lookup k type.properties));
    }

-- A type whose name and version are stored goes to the stored id. If the call succeeds, the given
-- fields were consistent with the stored ones, and the type is found as it was, but with the given
-- properties that were new. Both property maps have distinct keys.
pub upsert_type_evolve :
    (kind : Kind) (type stored : TypeMessage) (can_add can_omit : Bool) (db : Db) (id : ℕ)
    → (find_type_by_name_and_version kind (text_of type.name) type.version db).0 ≡ ok stored
    → IsMap stored.properties
    → IsMap type.properties
    → (upsert_type kind type can_add can_omit db).0 ≡ ok id
    → IsConsistent stored type can_add can_omit
      × Evolves kind type stored (upsert_type kind type can_add can_omit db).1 id
unfolding upsert_type
upsert_type_evolve kind type stored can_add can_omit db id found d e h =
    elim (Result-cases (check_fields_consistent stored type can_add can_omit)) [
      | inr (c, bad) ↦ absurd (err-ok (rw (found, bad) at h))
      | inl (out, good) ↦
          let (consistent, g) =
            check_fields_consistent_sound stored type out can_add can_omit d e good in
          (
            consistent,
            rw (found, good)
                (evolved kind type stored out can_add can_omit db id found g
                  (rw (found, good) at h)),
          )
    ]
