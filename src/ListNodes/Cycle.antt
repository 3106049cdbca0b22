-- ===== src/ListNodes/Cycle.antt =====
-- Three nodes that were updated at one time, listed by that time in pages of one node.
use ml_metadata_l_metadata_s.Prelude.{
  ℕ, zero, suc, ◌<◌, String, ◌≡◌, refl, ap, subst, ◌∙◌, Bool, true, false, none, some, List, [],
  ◌∷◌, map, ◌==◌, str_eq, take, All, if◌then◌else◌, arith,
}
use ml_metadata_l_metadata_s.Status.{Result, ok}
use ml_metadata_l_metadata_s.Messages.{Kind, pos, Node}
use ml_metadata_l_metadata_s.Tables.{Db, NodeRow}
use ml_metadata_l_metadata_s.Types.Parents.{has_id}
use ml_metadata_l_metadata_s.Values.{Codec}
use ml_metadata_l_metadata_s.ListQuery.{
  by_last_update_time, PageToken, TokenCodec, FilterQuery, beyond, ordering_field_clause,
  comes_before, order_rows, where_rows, row_ids, ordering_threshold_clause,
}
use ml_metadata_l_metadata_s.ListQuery.Order.{Distinct, where_rows-All, where_rows-Distinct}
use ml_metadata_l_metadata_s.ListNodes.{next_page, same_time_ids}
use ml_metadata_l_metadata_s.ListNodes.Rows.{Held, Distinct-Held}
use ml_metadata_l_metadata_s.ListNodes.Fetch.{Reads}
use ml_metadata_l_metadata_s.ListNodes.Threshold.{
  behind, TokenLaws, options_at, token-behind, read_back,
}
use ml_metadata_l_metadata_s.ListNodes.Page.{
  matching, matching-All, matching-Distinct, list_nodes-rows,
}
use ml_metadata_l_metadata_s.ListNodes.Paging.{all_pages, follow, prepend, next_page-more}
use ml_metadata_l_metadata_s.ListNodes.Complete.{call_from}

module _ (filter : FilterQuery) (codec : TokenCodec) (values : Codec) (kind : Kind) (db : Db)
    (read : NodeRow → Node) (a b c : NodeRow)
    (laws : TokenLaws codec (options_at codec (pos 1) true "" by_last_update_time ""))
    (table : db.nodes kind ≡ a ∷ b ∷ c ∷ []) (ids : (a.id < b.id) × (b.id < c.id))
    (times : (a.update_time ≡ b.update_time) × (b.update_time ≡ c.update_time))
    (reads : All (Reads values (db.properties kind) read) (db.nodes kind)) where
  abbrev call : String → Result (List Node × String)
  call = call_from filter codec values kind db none 0 by_last_update_time true ""

  in_order : matching kind db none (λ _. true) true (λ row. row.update_time) ≡ a ∷ b ∷ c ∷ []
  unfolding matching order_rows where_rows
  in_order =
      let before = comes_before true (λ row. row.update_time) in
      let b_c : before b c ≡ true = ground arith in
      let a_b : before a b ≡ true = ground arith in rw (table, b_c, a_b) refl

  keys : Distinct (row_ids (db.nodes kind))
  unfolding row_ids has_id
  keys =
      let a_b : (b.id == a.id) ≡ false = ground arith in
      let a_c : (c.id == a.id) ≡ false = ground arith in
      let b_c : (c.id == b.id) ≡ false = ground arith in
      rw (table, a_b, a_c, b_c) (refl, (refl, (refl, tt)))

  -- A call that selects two rows answers the first, and a token that names it.
  one_page :
      (first second : NodeRow) (others : List NodeRow) (text : String) (threshold : NodeRow → Bool)
      → ordering_threshold_clause codec (options_at codec (pos 1) true "" by_last_update_time text)
        ≡ ok threshold
      → where_rows threshold (a ∷ b ∷ c ∷ []) ≡ first ∷ second ∷ others
      → Reads values (db.properties kind) read first
      → (token : PageToken) × (call text
          ≡ ok (read first ∷ [], codec.escape (codec.serialize token)))
        × (ordering_threshold_clause codec (
              options_at codec
                (pos 1)
                true
                ""
                by_last_update_time
                (codec.escape (codec.serialize token)))
            ≡ ok (behind by_last_update_time true first []))
        × (str_eq (codec.escape (codec.serialize token)) "" ≡ false)
  unfolding same_time_ids
  one_page first second others text threshold selects selected reads_first =
      let base = matching kind db none (λ _. true) true (λ row. row.update_time) in
      let base_keys =
        matching-Distinct kind db none (λ _. true) true (λ row. row.update_time) keys in
      let base_held =
        matching-All kind db none (λ _. true) true (λ row. row.update_time) (Held (db.nodes kind))
          (Distinct-Held (db.nodes kind) keys) in
      let (token, made, same, after) =
        token-behind codec (pos 1) true "" values (db.properties kind) read by_last_update_time laws
          text first [] reads_first refl in
      let answer : call text ≡ ok (read first ∷ [], codec.escape (codec.serialize token)) =
        list_nodes-rows filter codec kind db (λ _. true) 0 2 by_last_update_time
          (λ row. row.update_time) true "" text threshold refl refl (omega arith) (omega arith)
          selects values read none reads (where_rows-Distinct threshold base base_keys)
          (where_rows-All (Held (db.nodes kind)) threshold base base_held)
        ∙ ap
            (λ rows.
              next_page codec (options_at codec (pos 1) true "" by_last_update_time text)
                (map read (take 2 rows)))
            (ap (where_rows threshold) in_order ∙ selected)
        ∙ next_page-more codec 0 true "" by_last_update_time text read [] first second token refl
            made in
      (
        token,
        answer,
        read_back codec (pos 1) true "" by_last_update_time laws token same ∙ after,
        laws.not_empty token same,
      )

  behind_a : where_rows (behind by_last_update_time true a []) (a ∷ b ∷ c ∷ []) ≡ b ∷ c ∷ []
  unfolding where_rows has_id
  behind_a = ground arith

  behind_b : where_rows (behind by_last_update_time true b []) (a ∷ b ∷ c ∷ []) ≡ a ∷ c ∷ []
  unfolding where_rows has_id
  behind_b = ground arith

  abbrev Names : NodeRow → String → Type 0
  Names row text =
      ordering_threshold_clause codec (options_at codec (pos 1) true "" by_last_update_time text)
      ≡ ok (behind by_last_update_time true row [])

  two_readable : Reads values (db.properties kind) read a × Reads values (db.properties kind) read b
  two_readable =
      let all = subst (All (Reads values (db.properties kind) read)) table reads in (all.0, all.1.0)

  -- A call that names its first row, and the calls after it.
  follow_page :
      (fuel : ℕ) (text : String) (first second : NodeRow) (others : List NodeRow)
      (threshold : NodeRow → Bool)
      → ordering_threshold_clause codec (options_at codec (pos 1) true "" by_last_update_time text)
        ≡ ok threshold
      → where_rows threshold (a ∷ b ∷ c ∷ []) ≡ first ∷ second ∷ others
      → Reads values (db.properties kind) read first
      → ((next : String) → Names first next → all_pages fuel call next ≡ none)
      → follow (all_pages fuel call) (call text) ≡ none
  follow_page fuel text first second others threshold selects selected r more =
      let (token, answer, names, full) =
        one_page first second others text threshold selects selected r in
      ap (follow (all_pages fuel call)) answer
      ∙ ap
          (λ (x : Bool).
            if x
            then some (ok (read first ∷ []))
            else prepend (read first ∷ [])
                (all_pages fuel call (codec.escape (codec.serialize token))))
          full
      ∙ ap (prepend (read first ∷ [])) (more (codec.escape (codec.serialize token)) names)

  -- Calls after a token that names `a` or `b` answer `b` or `a`, for ever.
  no_end :
      (fuel : ℕ)
      → ((text : String) → Names a text → all_pages fuel call text ≡ none)
        × ((text : String) → Names b text → all_pages fuel call text ≡ none)
  unfolding all_pages
  no_end zero = (λ text h. refl, λ text h. refl)
  no_end (suc fuel) =
      let (after_a, after_b) = no_end fuel in
      (
        λ text h.
            follow_page fuel text b c [] (behind by_last_update_time true a []) h behind_a
              two_readable.1 after_b,
        λ text h.
            follow_page fuel text a c [] (behind by_last_update_time true b []) h behind_b
              two_readable.0 after_a,
      )

  all_selected :
      where_rows (λ row. beyond true false 0 row.update_time) (a ∷ b ∷ c ∷ []) ≡ a ∷ b ∷ c ∷ []
  unfolding where_rows
  all_selected = ground arith

  -- Three nodes, the only ones of their kind, with one time of the last update, listed in the order
  -- of that time, ascending, without a filter, in pages of one node: a client that follows the page
  -- tokens does not come to an end, with any number of calls. The ids grow, the nodes can be read,
  -- and the tokens survive base64 and the wire format.
  pub all_pages_cycle : (fuel : ℕ) → all_pages fuel call "" ≡ none
  unfolding all_pages ordering_threshold_clause ordering_field_clause
  all_pages_cycle zero = refl
  all_pages_cycle (suc fuel) =
      follow_page fuel "" a b (c ∷ []) (λ row. beyond true false 0 row.update_time) refl
        all_selected two_readable.0 (no_end fuel).0
