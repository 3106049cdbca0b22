-- ===== src/Properties/Delete.antt =====
-- The first loop of ModifyProperties.
use ml_metadata_l_metadata_s.Prelude.{
  ℕ, ◌+◌, String, ◌≡◌, refl, ap, sym, ◌∙◌, Bool, true, false, not, Bool-cases, inl, inr, Option,
  none, some, List, [], ◌∷◌, str_eq, eq_iff,
}
use ml_metadata_l_metadata_s.Status.{ok}
use ml_metadata_l_metadata_s.Maps.{lookup, IsMap, lookup-behind}
use ml_metadata_l_metadata_s.Messages.{Value}
use ml_metadata_l_metadata_s.Tables.{PropertyRow}
use ml_metadata_l_metadata_s.Tables.NodeQueries.{columns_at, delete_rows, delete_property}
use ml_metadata_l_metadata_s.Properties.{keeps_case, delete_stale}
use ml_metadata_l_metadata_s.Properties.Rows.{unless, columns_at-delete_rows}

-- Whether a key is deleted, by its previous value.
abbrev pub is_stale : List (String × Value) → String → Option Value → Bool
is_stale curr k none = false
is_stale curr k (some v) = not (keeps_case curr k v)

at_name :
    (curr : List (String × Value)) (name k : String) (v : Value)
    → str_eq name k ≡ true
    → keeps_case curr k v ≡ keeps_case curr name v
at_name curr name k v e = ap (λ x. keeps_case curr x v) (sym ((eq_iff name k).0 e))

pub delete_stale-columns :
    (id : ℕ) (curr prev : List (String × Value)) (rows : List PropertyRow)
    → IsMap prev
    → (n : ℕ) × (rows' : List PropertyRow) × (delete_stale id curr prev rows ≡ (ok n, rows'))
      × ((is_custom : Bool) (k : String)
          → columns_at id is_custom k rows'
            ≡ unless (is_stale curr k (lookup k prev)) (columns_at id is_custom k rows))
unfolding delete_stale delete_property lookup
delete_stale-columns id curr [] rows m = (0, rows, refl, λ c k. refl)
delete_stale-columns id curr ((name, v) ∷ prev) rows m =
    elim (Bool-cases (keeps_case curr name v)) [
      | inl kept ↦
          let (n, rows', e, rest) = delete_stale-columns id curr prev rows m.1 in
          (
            n,
            rows',
            rw kept e,
            λ c k. elim (Bool-cases (str_eq name k)) [
              | inl same ↦
                  rw (same, at_name curr name k v same ∙ kept)
                    (rest c k
                      ∙ ap (λ o. unless (is_stale curr k o) (columns_at id c k rows))
                          (lookup-behind name k prev m.0 same))
              | inr other ↦ rw other (rest c k)
            ],
          )
      | inr stale ↦
          let (n, rows', e, rest) =
            delete_stale-columns id curr prev (delete_rows id name rows) m.1 in
          (
            n + 1,
            rows',
            rw (stale, e) refl,
            λ c k. elim (Bool-cases (str_eq name k)) [
              | inl same ↦
                  rw (same, at_name curr name k v same ∙ stale)
                    (rest c k
                      ∙ ap
                          (λ o.
                            unless (is_stale curr k o)
                              (columns_at id c k (delete_rows id name rows)))
                          (lookup-behind name k prev m.0 same)
                      ∙ columns_at-delete_rows id name k c rows
                      ∙ ap (λ b. unless b (columns_at id c k rows)) same)
              | inr other ↦ rw other (
                  rest c k
                  ∙ ap (unless (is_stale curr k (lookup k prev))) (
                      columns_at-delete_rows id name k c rows
                      ∙ ap (λ b. unless b (columns_at id c k rows)) other))
            ],
          )
    ]
