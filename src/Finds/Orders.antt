-- ===== src/Finds/Orders.antt =====
-- The rows of a query come in an order that the engine chooses.
use mathlib.Core.List.{Permᴰ, append-nil}
use mathlib.Core.List.Permᴰ
use ml_metadata_l_metadata_s.Prelude.{ℕ, refl, ap, sym, subst, List, [], ◌∷◌, ◌++◌}
use ml_metadata_l_metadata_s.Messages.{Step}
use ml_metadata_l_metadata_s.Tables.{EventRow}
use ml_metadata_l_metadata_s.Finds.{RowOrder, event_message, events_from_rows}

-- An engine gives each row that is selected once.
abbrev pub Permutes : RowOrder → Type 0
Permutes row_order =
    (column : EventRow → ℕ) (rows : List EventRow) → Permᴰ (row_order column rows) rows

-- The messages come in the order of the rows.
pub events_from_rows-perm :
    (paths : List (ℕ × Step)) {rows others : List EventRow}
    → Permᴰ rows others
    → Permᴰ (events_from_rows paths rows) (events_from_rows paths others)
unfolding events_from_rows
events_from_rows-perm paths Permᴰ.nil = Permᴰ.nil
events_from_rows-perm paths (Permᴰ.cons same p) =
    Permᴰ.cons (ap (event_message paths) same) (events_from_rows-perm paths p)
events_from_rows-perm paths (Permᴰ.swap {l = l} first second) =
    Permᴰ.swap (ap (event_message paths) first) (ap (event_message paths) second)
events_from_rows-perm paths (Permᴰ.trans p q) =
    Permᴰ.trans (events_from_rows-perm paths p) (events_from_rows-perm paths q)

-- An engine that gives the last row first.
abbrev pub backwards : RowOrder
backwards column [] = []
backwards column (row ∷ rows) = backwards column rows ++ row ∷ []

pub backwards-Permutes : Permutes backwards
backwards-Permutes column [] = Permᴰ.nil
backwards-Permutes column (row ∷ rows) = Permᴰ.trans (Permᴰ.middle row (backwards column rows) []) (
    Permᴰ.cons refl (
      subst (λ l. Permᴰ l rows) (sym (append-nil (backwards column rows)))
        (backwards-Permutes column rows)))
