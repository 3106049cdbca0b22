-- ===== src/ListNodes/Splits.antt =====
-- A list cut behind the rows of a page, and what its parts keep.
use ml_metadata_l_metadata_s.Prelude.{
  ℕ, zero, suc, ◌≤◌, ◌≡◌, refl, ap, ◌∙◌, false, List, [], ◌∷◌, ◌++◌, map, reverse, ◌==◌, length,
  take, All, arith,
}
use mathlib.Core.List.{reverse-append, map-append}
use ml_metadata_l_metadata_s.Messages.{Node}
use ml_metadata_l_metadata_s.Tables.{NodeRow}
use ml_metadata_l_metadata_s.Types.Parents.{has_id}
use ml_metadata_l_metadata_s.ListQuery.{row_ids}
use ml_metadata_l_metadata_s.ListQuery.Order.{InOrder, Distinct}
use ml_metadata_l_metadata_s.ListNodes.{pop_back}

-- The first rows and no more, or a page with its last row, and a row more.
pub data Cut {ℓ} {A : Type ℓ} (n : ℕ) (rows : List A) : Type ℓ where
  whole : take (suc (suc n)) rows ≡ rows → length rows ≤ suc n → Cut n rows
  cut :
      (page : List A) (last extra : A) (rest : List A)
      → rows ≡ page ++ last ∷ extra ∷ rest
      → take (suc (suc n)) rows ≡ page ++ last ∷ extra ∷ []
      → length page ≡ n
      → Cut n rows

module _ {ℓ} {A : Type ℓ} where
  Cut-cons : (n : ℕ) (x : A) (rows : List A) → Cut n rows → Cut (suc n) (x ∷ rows)
  Cut-cons n x rows (whole h k) = whole (ap (◌∷◌ x) h) (omega arith)
  Cut-cons n x rows (cut page last extra rest h k m) =
      cut (x ∷ page) last extra rest (ap (◌∷◌ x) h) (ap (◌∷◌ x) k) (omega arith)

  pub Cut-at : (n : ℕ) (rows : List A) → Cut n rows
  Cut-at n [] = whole refl (omega arith)
  Cut-at zero (x ∷ []) = whole refl (omega arith)
  Cut-at zero (x ∷ y ∷ rows) = cut [] x y rows refl refl refl
  Cut-at (suc n) (x ∷ rows) = Cut-cons n x rows (Cut-at n rows)

  pub All-append {κ} : (P : A → Type κ) (xs ys : List A) → All P (xs ++ ys) → All P xs × All P ys
  All-append P [] ys a = (tt, a)
  All-append P (x ∷ xs) ys (p, a) = let (l, r) = All-append P xs ys a in ((p, l), r)

  pub take-nil : (n : ℕ) → take {A = A} n [] ≡ []
  take-nil zero = refl
  take-nil (suc n) = refl

  pub length-take-le : (n : ℕ) (xs : List A) → length (take n xs) ≤ n
  length-take-le zero xs = omega arith
  length-take-le (suc n) [] = omega arith
  length-take-le (suc n) (x ∷ xs) = omega (arith, length-take-le n xs)

  pub take-All {κ} : (P : A → Type κ) (n : ℕ) (xs : List A) → All P xs → All P (take n xs)
  take-All P zero xs a = tt
  take-All P (suc n) [] a = tt
  take-All P (suc n) (x ∷ xs) (p, a) = (p, take-All P n xs a)

has_id-take :
    (i n : ℕ) (rows : List NodeRow)
    → has_id i (row_ids rows) ≡ false
    → has_id i (row_ids (take n rows)) ≡ false
unfolding has_id row_ids
has_id-take i zero rows h = refl
has_id-take i (suc n) [] h = refl
has_id-take i (suc n) (row ∷ rows) h = ground (arith, has_id-take i n rows)

pub take-Distinct :
    (n : ℕ) (rows : List NodeRow) → Distinct (row_ids rows) → Distinct (row_ids (take n rows))
unfolding row_ids
take-Distinct zero rows d = tt
take-Distinct (suc n) [] d = tt
take-Distinct (suc n) (row ∷ rows) (fresh, d) =
    (has_id-take row.id n rows fresh, take-Distinct n rows d)

pub InOrder-append {ℓ} :
    (R : NodeRow → NodeRow → Type ℓ) (xs : List NodeRow) (y : NodeRow) (ys : List NodeRow)
    → InOrder R (xs ++ y ∷ ys)
    → All (λ (x : NodeRow). R x y) xs × All (R y) ys
InOrder-append R [] y ys (above, h) = (tt, above)
InOrder-append R (x ∷ xs) y ys (above, h) =
    let (l, r) = InOrder-append R xs y ys h in
    let (_, here) = All-append (R x) xs (y ∷ ys) above in ((here.0, l), r)

has_id-append :
    (i : ℕ) (xs ys : List NodeRow)
    → has_id i (row_ids (xs ++ ys)) ≡ false
    → has_id i (row_ids xs) ≡ false
unfolding has_id row_ids
has_id-append i [] ys h = refl
has_id-append i (x ∷ xs) ys h = ground (arith, has_id-append i xs ys)

pub Distinct-prefix : (xs ys : List NodeRow) → Distinct (row_ids (xs ++ ys)) → Distinct (row_ids xs)
unfolding row_ids
Distinct-prefix [] ys d = tt
Distinct-prefix (x ∷ xs) ys (fresh, d) = (has_id-append x.id xs ys fresh, Distinct-prefix xs ys d)

pub Distinct-suffix : (xs ys : List NodeRow) → Distinct (row_ids (xs ++ ys)) → Distinct (row_ids ys)
unfolding row_ids
Distinct-suffix [] ys d = d
Distinct-suffix (x ∷ xs) ys (fresh, d) = Distinct-suffix xs ys d

has_id-others :
    (i : ℕ) (rows : List NodeRow)
    → has_id i (row_ids rows) ≡ false
    → All (λ (row : NodeRow). (i == row.id) ≡ false) rows
unfolding has_id row_ids
has_id-others i [] h = tt
has_id-others i (row ∷ rows) h = (ground arith, has_id-others i rows (ground arith))

-- The rows behind a row have other ids.
pub Distinct-others :
    (xs : List NodeRow) (y : NodeRow) (ys : List NodeRow)
    → Distinct (row_ids (xs ++ y ∷ ys))
    → All (λ (row : NodeRow). (y.id == row.id) ≡ false) ys
unfolding row_ids
Distinct-others xs y ys d = has_id-others y.id ys (Distinct-suffix xs (y ∷ ys) d).0

-- The page without its extra node, and from behind.
module _ (read : NodeRow → Node) where
  pub pop_back-map :
      (page : List NodeRow) (last extra : NodeRow)
      → pop_back (map read (page ++ last ∷ extra ∷ [])) ≡ map read (page ++ last ∷ [])
  unfolding pop_back
  pop_back-map [] last extra = refl
  pop_back-map (x ∷ []) last extra = refl
  pop_back-map (x ∷ y ∷ page) last extra = ap (◌∷◌ (read x)) (pop_back-map (y ∷ page) last extra)

  pub reverse-map :
      (page : List NodeRow) (last : NodeRow)
      → reverse (map read (page ++ last ∷ [])) ≡ read last ∷ reverse (map read page)
  reverse-map page last =
      ap reverse (map-append read page (last ∷ []))
      ∙ reverse-append (map read page) (read last ∷ [])

  pub length-map : (rows : List NodeRow) → length (map read rows) ≡ length rows
  length-map [] = refl
  length-map (row ∷ rows) = ap suc (length-map rows)
