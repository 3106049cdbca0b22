-- ===== src/Properties/Modify.antt =====
-- ModifyProperties leaves exactly the given properties.
use ml_metadata_l_metadata_s.Prelude.{
  ℕ, ◌+◌, String, ◌≡◌, refl, ◌∙◌, subst, Bool, true, false, not, Bool-cases, Option-cases, ==_iff,
  inl, inr, Option, none, some, List, [], ◌∷◌, str_eq, eq_iff, arith,
}
use ml_metadata_l_metadata_s.Status.{ok}
use ml_metadata_l_metadata_s.Maps.{lookup, contains, IsMap, lookup-behind}
use ml_metadata_l_metadata_s.Messages.{Value}
use ml_metadata_l_metadata_s.Tables.{PropertyRow, Columns}
use ml_metadata_l_metadata_s.Tables.NodeQueries.{columns_at}
use ml_metadata_l_metadata_s.Values.{Codec, value_case, same_case}
use ml_metadata_l_metadata_s.Values.RoundTrip.{IsStorable}
use ml_metadata_l_metadata_s.Properties.{write_changed, modify_properties}
use ml_metadata_l_metadata_s.Properties.Rows.{unless}
use ml_metadata_l_metadata_s.Properties.Delete.{is_stale, delete_stale-columns}
use ml_metadata_l_metadata_s.Properties.Steps.{Holds, ReadyCase, IsReady, write_property-Steps}

-- Every given value is storable.
abbrev pub AreStorable : Codec → List (String × Value) → Type 0
AreStorable codec [] = Unit
AreStorable codec ((k, v) ∷ rest) = IsStorable codec v × AreStorable codec rest

abbrev AreReady :
    Codec → ℕ → Bool → List (String × Value) → List (String × Value) → List PropertyRow → Type 0
AreReady codec id is_custom prev curr rows =
    (k : String) (v : Value)
    → lookup k curr ≡ some v
    → IsReady codec (columns_at id is_custom k rows) v (lookup k prev)

-- What a key holds after the loop: its given value, or what it held.
abbrev Written : Codec → Option Columns → Option Columns → Option Value → Type 0
Written codec before after none = after ≡ before
Written codec before after (some v) = Holds codec after (some v)

behind-apart :
    (name k : String) (v : Value) (curr : List (String × Value))
    → contains name curr ≡ false
    → lookup k curr ≡ some v
    → str_eq name k ≡ false
behind-apart name k v curr m h = elim (Bool-cases (str_eq name k)) [
  | inl same ↦ cc (lookup-behind name k curr m same, h)
  | inr other ↦ other
]

-- One step and the rest of the loop, by the columns under each key before, between and after.
Written-cons :
    (codec : Codec) (before mid after : String → Option Columns) (name : String) (v : Value)
    (rest : List (String × Value))
    → contains name rest ≡ false
    → Holds codec (mid name) (some v)
    → ((k : String) → str_eq name k ≡ false → mid k ≡ before k)
    → ((k : String) → Written codec (mid k) (after k) (lookup k rest))
    → (k : String) → Written codec (before k) (after k) (lookup k ((name, v) ∷ rest))
unfolding lookup
Written-cons codec before mid after name v rest m here others done k =
    elim (Bool-cases (str_eq name k)) [
      | inl same ↦
          let kept : after k ≡ mid k =
            subst (Written codec (mid k) (after k)) (lookup-behind name k rest m same) (done k) in
          rw (same, kept) (subst (λ x. Holds codec (mid x) (some v)) ((eq_iff name k).0 same) here)
      | inr other ↦
          rw other
            (subst (λ o. Written codec o (after k) (lookup k rest)) (others k other) (done k))
    ]

write_changed-Written :
    (codec : Codec) (id : ℕ) (is_custom : Bool) (prev curr : List (String × Value))
    (rows : List PropertyRow)
    → IsMap curr
    → AreStorable codec curr
    → AreReady codec id is_custom prev curr rows
    → (n : ℕ) × (rows' : List PropertyRow) × (write_changed codec id is_custom prev curr rows
        ≡ (ok n, rows'))
      × ((k : String)
          → Written codec
              (columns_at id is_custom k rows)
              (columns_at id is_custom k rows')
              (lookup k curr))
unfolding write_changed lookup
write_changed-Written codec id is_custom prev [] rows m s ready = (0, rows, refl, λ k. refl)
write_changed-Written codec id is_custom prev ((name, v) ∷ curr) rows m s ready =
    let (j, mid, e, steps) =
      write_property-Steps codec id is_custom name v (lookup name prev) rows s.0
        (ready name v (rw ((eq_iff name name).1 refl) refl)) in
    let still : AreReady codec id is_custom prev curr mid = λ k w at.
      let other = behind-apart name k w curr m.0 at in
      rw (steps.1 k other) (ready k w (rw other at)) in
    let (n, rows', f, rest) =
      write_changed-Written codec id is_custom prev curr mid m.1 s.1 still in
    (
      j + n,
      rows',
      rw (e, f) refl,
      Written-cons codec (λ k. columns_at id is_custom k rows) (λ k. columns_at id is_custom k mid)
          (λ k. columns_at id is_custom k rows') name v curr m.0 steps.0 steps.1 rest,
    )

same_case-sym : (v w : Value) → same_case v w ≡ same_case w v
same_case-sym v w =
    ground (arith, ==_iff (value_case v) (value_case w), ==_iff (value_case w) (value_case v))

by_case :
    (codec : Codec) (b : Bool) (o : Option Columns) (p : Value)
    → Holds codec o (some p)
    → ReadyCase codec b (unless (not b) o) p
by_case codec true o p h = h
by_case codec false o p h = refl

-- What the first loop leaves is what the second one needs.
deleted-AreReady :
    (codec : Codec) (curr : List (String × Value)) (k : String) (v : Value) (prev : Option Value)
    (o : Option Columns)
    → Holds codec o prev
    → lookup k curr ≡ some v
    → IsReady codec (unless (is_stale curr k prev) o) v prev
deleted-AreReady codec curr k v none none h at = refl
deleted-AreReady codec curr k v none (some c) h at = absurd h
deleted-AreReady codec curr k v (some p) none h at = absurd h
deleted-AreReady codec curr k v (some p) (some c) h at =
    rw (at, same_case-sym v p) (by_case codec (same_case p v) (some c) p h)

-- A key that is not given holds nothing in the end.
deleted-gone :
    (codec : Codec) (curr : List (String × Value)) (k : String) (prev : Option Value)
    (o : Option Columns)
    → Holds codec o prev
    → lookup k curr ≡ none
    → unless (is_stale curr k prev) o ≡ none
deleted-gone codec curr k none none h at = refl
deleted-gone codec curr k none (some c) h at = absurd h
deleted-gone codec curr k (some p) none h at = absurd h
deleted-gone codec curr k (some p) (some c) h at = rw at refl

-- ModifyProperties succeeds, and what is stored for the node in the space of the properties, custom or
-- not, is then exactly the given properties: each given key reads as its value, no other key is there.
-- Before, the previous properties were stored; both maps have distinct keys and the given values are
-- storable.
pub modify_properties_stores :
    (codec : Codec) (curr prev : List (String × Value)) (id : ℕ) (is_custom : Bool)
    (rows : List PropertyRow)
    → IsMap curr
    → IsMap prev
    → AreStorable codec curr
    → ((k : String) → Holds codec (columns_at id is_custom k rows) (lookup k prev))
    → (n : ℕ) × (rows' : List PropertyRow) × (modify_properties codec curr prev id is_custom rows
        ≡ (ok n, rows'))
      × ((k : String) → Holds codec (columns_at id is_custom k rows') (lookup k curr))
unfolding modify_properties
modify_properties_stores codec curr prev id is_custom rows m p s h =
    let (j, mid, e, deleted) = delete_stale-columns id curr prev rows p in
    let ready : AreReady codec id is_custom prev curr mid = λ k v at.
      rw (deleted is_custom k) (
        deleted-AreReady codec curr k v (lookup k prev) (columns_at id is_custom k rows) (h k)
          at) in
    let (n, rows', f, written) = write_changed-Written codec id is_custom prev curr mid m s ready in
    (
      j + n,
      rows',
      rw (e, f) refl,
      λ k. elim (Option-cases (lookup k curr)) [
        | inr (v, at) ↦ rw at (
            subst (Written codec (columns_at id is_custom k mid) (columns_at id is_custom k rows'))
              at (written k))
        | inl absent ↦
            let gone =
              deleted is_custom k
              ∙ deleted-gone codec curr k (lookup k prev) (columns_at id is_custom k rows) (h k)
                  absent in
            let same =
              subst
                (Written codec (columns_at id is_custom k mid) (columns_at id is_custom k rows'))
                absent (written k) in
            rw (absent, same ∙ gone) tt
      ],
    )
