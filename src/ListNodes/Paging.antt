-- ===== src/ListNodes/Paging.antt =====
-- A client that follows the page tokens.
use ml_metadata_l_metadata_s.Prelude.{
  ℕ, zero, suc, ◌≤◌, String, ◌≡◌, refl, ap, ◌∙◌, Bool, true, false, ltb, Option, none, some, List,
  [], ◌∷◌, ◌++◌, map, reverse, ◌==◌, str_eq, length, length-append, All, if◌then◌else◌, arith,
}
use mathlib.Core.List.{reverse-cons}
use ml_metadata_l_metadata_s.Status.{Result, ok, err, err-ok, ◌>>=◌}
use ml_metadata_l_metadata_s.Messages.{Kind, pos, Node, number_of}
use ml_metadata_l_metadata_s.Tables.{Db, NodeRow}
use ml_metadata_l_metadata_s.Values.{Codec}
use ml_metadata_l_metadata_s.ListQuery.{
  Field, field_unspecified, by_create_time, by_last_update_time, by_id, ListOptions, PageToken,
  TokenCodec, beyond, column_of, where_rows, row_ids,
}
use ml_metadata_l_metadata_s.ListQuery.Order.{InOrder, Distinct, where_rows_keep, where_rows_drop}
use ml_metadata_l_metadata_s.ListNodes.{
  next_page, pop_back, same_time_ids, token_of, token_backwards, build_next_page_token,
}
use ml_metadata_l_metadata_s.ListNodes.Fetch.{Reads, Reads-id}
use ml_metadata_l_metadata_s.ListNodes.Threshold.{
  Precedes, behind, Alone, options_at, later-behind, earlier-behind, self-behind,
}
use ml_metadata_l_metadata_s.ListNodes.Splits.{
  InOrder-append, Distinct-others, pop_back-map, reverse-map, length-map,
}

abbrev pub prepend : List Node → Option (Result (List Node)) → Option (Result (List Node))
prepend nodes none = none
prepend nodes (some (err c)) = some (err c)
prepend nodes (some (ok more)) = some (ok (nodes ++ more))

-- The next call, if there is a token.
abbrev pub follow :
    (String → Option (Result (List Node)))
    → Result (List Node × String)
    → Option (Result (List Node))
follow next (err c) = some (err c)
follow next (ok (nodes, text)) =
    if str_eq text "" then some (ok nodes) else prepend nodes (next text)

-- The nodes of all pages, from a token on; none if there are more pages than `fuel`.
unfoldable pub all_pages :
    ℕ → (String → Result (List Node × String)) → String → Option (Result (List Node))
all_pages zero call text = none
all_pages (suc fuel) call text = follow (all_pages fuel call) (call text)

-- The rows behind a page are those that its token selects.
pub rest-selected :
    (field : Field) (is_asc : Bool) (before : List NodeRow) (last : NodeRow) (rest : List NodeRow)
    → InOrder (Precedes field is_asc) (before ++ last ∷ rest)
    → Distinct (row_ids (before ++ last ∷ rest))
    → where_rows (behind field is_asc last []) (before ++ last ∷ rest) ≡ rest
rest-selected field is_asc before last rest ordered d =
    let (above, below) = InOrder-append (Precedes field is_asc) before last rest ordered in
    let others = Distinct-others before last rest d in
    where_rows_drop (behind field is_asc last []) before (last ∷ rest) (earlier before above)
    ∙ where_rows_drop (behind field is_asc last []) (last ∷ []) rest
        (self-behind field is_asc last, tt)
    ∙ where_rows_keep (behind field is_asc last []) rest (later rest below others)
  where
    earlier :
        (rows : List NodeRow)
        → All (λ (row : NodeRow). Precedes field is_asc row last) rows
        → All (λ (row : NodeRow). behind field is_asc last [] row ≡ false) rows
    earlier [] a = tt
    earlier (row ∷ rows) (h, a) = (earlier-behind field is_asc last row h, earlier rows a)

    later :
        (rows : List NodeRow)
        → All (Precedes field is_asc last) rows
        → All (λ (row : NodeRow). (last.id == row.id) ≡ false) rows
        → All (λ (row : NodeRow). behind field is_asc last [] row ≡ true) rows
    later [] a n = tt
    later (row ∷ rows) (h, a) (m, n) = (later-behind field is_asc last row h m, later rows a n)

All-snoc {ℓ κ} :
    {A : Type ℓ} (P : A → Type κ) (xs : List A) (y : A) → All P xs → P y → All P (xs ++ y ∷ [])
All-snoc P [] y a p = (p, tt)
All-snoc P (x ∷ xs) y (q, a) p = (q, All-snoc P xs y a p)

All-reverse {ℓ κ} : {A : Type ℓ} (P : A → Type κ) (xs : List A) → All P xs → All P (reverse xs)
All-reverse P [] a = tt
All-reverse P (x ∷ xs) (p, a) =
    rw (reverse-cons x xs) (All-snoc P (reverse xs) x (All-reverse P xs a) p)

not_same_time :
    (time : ℕ) (nodes : List Node)
    → All (λ (node : Node). (number_of node.last_update_time_since_epoch == time) ≡ false) nodes
    → same_time_ids time nodes ≡ []
unfolding same_time_ids
not_same_time time [] a = refl
not_same_time time (node ∷ nodes) (h, a) = rw h refl

beyond_other : (is_asc : Bool) (a b : ℕ) → beyond is_asc true a b ≡ true → (a == b) ≡ false
beyond_other true a b h = ground arith
beyond_other false a b h = ground arith

module _ (values : Codec) (kind : Kind) (db : Db) (read : NodeRow → Node) where
  other_times :
      (is_asc : Bool) (last : NodeRow) (rows : List NodeRow)
      → All (Reads values (db.properties kind) read) rows
      → All (λ (row : NodeRow). Precedes by_last_update_time is_asc row last) rows
      → All
          (λ (node : Node).
            (number_of node.last_update_time_since_epoch == last.update_time) ≡ false)
          (map read rows)
  other_times is_asc last [] r a = tt
  other_times is_asc last (row ∷ rows) (h, r) (p, a) = (
    rw (Reads-id values (db.properties kind) read row h).2
        (beyond_other is_asc row.update_time last.update_time p),
    other_times is_asc last rows r a,
  )

  pub page-Alone :
      (field : Field) (is_asc : Bool) (column : NodeRow → ℕ) (last : NodeRow) (rows : List NodeRow)
      → column_of field ≡ ok column
      → All (Reads values (db.properties kind) read) rows
      → All (λ (row : NodeRow). Precedes field is_asc row last) rows
      → Alone field last (reverse (map read rows))
  page-Alone field_unspecified is_asc column last rows e r a = absurd (err-ok e)
  page-Alone by_create_time is_asc column last rows e r a = tt
  page-Alone by_id is_asc column last rows e r a = tt
  page-Alone by_last_update_time is_asc column last rows e r a =
      not_same_time last.update_time (reverse (map read rows))
        (All-reverse _ (map read rows) (other_times is_asc last rows r a))

-- The last page, and a page with another one behind it.
module _ (codec : TokenCodec) (n : ℕ) (is_asc : Bool) (filter_query : String) (field : Field)
    (text : String) (read : NodeRow → Node) where
  abbrev page_options : ListOptions
  page_options = options_at codec (pos (suc n)) is_asc filter_query field text

  pub next_page-last :
      (rows : List NodeRow)
      → length rows ≤ suc n
      → next_page codec page_options (map read rows) ≡ ok (map read rows, "")
  next_page-last rows h =
      let small : ltb (suc n) (length (map read rows)) ≡ false =
        ground (arith, length-map read rows) in
      rw small

  pub next_page-more :
      (page : List NodeRow) (last extra : NodeRow) (token : PageToken)
      → length page ≡ n
      → token_of page_options (read last) (reverse (map read page)) field ≡ ok token
      → next_page codec page_options (map read (page ++ last ∷ extra ∷ []))
        ≡ ok (map read (page ++ last ∷ []), codec.escape (codec.serialize token))
  unfolding build_next_page_token
  next_page-more page last extra token h made =
      let nodes = map read (page ++ last ∷ extra ∷ []) in
      let long : length nodes ≡ suc (suc n) = omega (
        arith,
        length-map read (page ++ last ∷ extra ∷ []),
        length-append page (last ∷ extra ∷ []),
      ) in
      let more : ltb (suc n) (length nodes) ≡ true = ground arith in
      let write : Result PageToken → Result String =
        λ r. r >>= λ t. ok (codec.escape (codec.serialize t)) in
      let finish : List Node → Result (List Node × String) =
        λ kept. build_next_page_token codec page_options kept >>= λ t. ok (kept, t) in
      ap (λ (b : Bool). if b then finish (pop_back nodes) else ok (nodes, "")) more
      ∙ ap finish (pop_back-map read page last extra)
      ∙ ap
          (λ (back : List Node).
            write (token_backwards page_options back) >>= λ t. ok (map read (page ++ last ∷ []), t))
          (reverse-map read page last)
      ∙ ap (λ (r : Result PageToken). write r >>= λ t. ok (map read (page ++ last ∷ []), t)) made
