-- ===== src/Properties/Spaces.antt =====
-- The first properties of a node leave the other space, custom or not, alone.
use ml_metadata_l_metadata_s.Prelude.{
  ℕ, ◌+◌, String, ◌≡◌, refl, ◌∙◌, Bool, true, false, ◌&&◌, Option, none, some, List, [], ◌∷◌,
}
use ml_metadata_l_metadata_s.Status.{Result, ok, err}
use ml_metadata_l_metadata_s.Exec.{pure, ◌>>=◌, ◌>>◌}
use ml_metadata_l_metadata_s.Exec.Preserves.{Preserves, bind-Preserves}
use ml_metadata_l_metadata_s.Maps.{lookup}
use ml_metadata_l_metadata_s.Messages.{Value}
use ml_metadata_l_metadata_s.Tables.{PropertyRow, Columns, no_columns}
use ml_metadata_l_metadata_s.Tables.NodeQueries.{
  is_of, same_flag, columns_at, insert_row, insert_property,
}
use ml_metadata_l_metadata_s.Values.{Codec, write_value}
use ml_metadata_l_metadata_s.Properties.{delete_stale, write_changed, modify_properties}
use ml_metadata_l_metadata_s.Properties.Rows.{columns_at-append}
use ml_metadata_l_metadata_s.Properties.Steps.{or_else-none}

and_false : (b : Bool) → (b && false) ≡ false
and_false true = refl
and_false false = refl

module _ (id : ℕ) (is_custom other : Bool) (apart : same_flag is_custom other ≡ false) (k : String)
    (o : Option Columns) where
  abbrev Kept : List PropertyRow → Type 0
  Kept rows = columns_at id other k rows ≡ o

  insert_row-Kept :
      (name : String) (there : Option Columns) (r : Result Columns)
      → Preserves Kept (insert_row id name is_custom there r)
  insert_row-Kept name there (err c) rows h = h
  insert_row-Kept name (some c) (ok columns) rows h = h
  insert_row-Kept name none (ok columns) rows h =
      let row : PropertyRow = record {
        node_id = id;
        name = name;
        is_custom = is_custom;
        columns = columns;
      } in
      columns_at-append id other k rows row
      ∙ rw (apart, and_false (is_of id k row)) (or_else-none (columns_at id other k rows) ∙ h)

  insert_property-Kept :
      (codec : Codec) (name : String) (v : Value)
      → Preserves Kept (insert_property codec id name is_custom v)
  unfolding insert_property
  insert_property-Kept codec name v rows h =
      insert_row-Kept name (columns_at id is_custom name rows) (write_value codec v no_columns) rows
        h

  write_changed-Kept :
      (codec : Codec) (curr : List (String × Value))
      → Preserves Kept (write_changed codec id is_custom [] curr)
  unfolding write_changed lookup
  write_changed-Kept codec [] = λ rows h. h
  write_changed-Kept codec ((name, v) ∷ curr) =
      let insert = insert_property codec id name is_custom v in
      let rest = write_changed codec id is_custom [] curr in
      bind-Preserves Kept (insert >> pure 1) (λ m. rest >>= λ n. pure (m + n))
        (bind-Preserves Kept insert (λ _. pure 1) (insert_property-Kept codec name v)
          (λ _ rows h. h))
        (λ m.
          bind-Preserves Kept rest (λ n. pure (m + n)) (write_changed-Kept codec curr)
            (λ n rows h. h))

  pub modify_properties-Kept :
      (codec : Codec) (curr : List (String × Value))
      → Preserves Kept (modify_properties codec curr [] id is_custom)
  unfolding modify_properties delete_stale
  modify_properties-Kept codec curr =
      let write = write_changed codec id is_custom [] curr in
      bind-Preserves Kept (delete_stale id curr []) (λ m. write >>= λ n. pure (m + n)) (λ rows h. h)
        (λ m.
          bind-Preserves Kept write (λ n. pure (m + n)) (write_changed-Kept codec curr)
            (λ n rows h. h))
