-- ===== src/ListNodes/ById.antt =====
-- Listing in the order of ids needs no more than that ids are keys.
use ml_metadata_l_metadata_s.Prelude.{ℕ, ◌<◌}
use ml_metadata_l_metadata_s.Tables.{NodeRow}
use ml_metadata_l_metadata_s.ListQuery.{llong_max}

abbrev id_column : NodeRow → ℕ
id_column row = row.id

-- Positive ids, below LLONG_MAX.
abbrev pub HasGoodId : NodeRow → Type 0
HasGoodId row = (0 < row.id) × (row.id < llong_max)
