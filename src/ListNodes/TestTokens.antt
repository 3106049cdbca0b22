-- ===== src/ListNodes/TestTokens.antt =====
-- A codec of page tokens for the tests: numbers as strokes.
use Prim.Native.Char.{code}
use ml_metadata_l_metadata_s.Prelude.{
  ℕ, zero, suc, ◌+◌, String, ◌≡◌, refl, ap, sym, ◌∙◌, true, false, Option, none, some, List, [],
  ◌∷◌, ◌==◌, str_eq, eq_iff, Bool-cases, inl, inr, arith,
}
use ml_metadata_l_metadata_s.ListQuery.{ListOptions, PageToken, TokenCodec}
use ml_metadata_l_metadata_s.ListNodes.Threshold.{TokenLaws}

strokes : ℕ → String → String
strokes zero rest = String.◌∷◌ "," rest
strokes (suc n) rest = String.◌∷◌ "1" (strokes n rest)

write_numbers : List ℕ → String
unfolding strokes
write_numbers [] = String.◌∷◌ "." String.[]
write_numbers (n ∷ ns) = strokes n (write_numbers ns)

abbrev push : ℕ → Option (List ℕ) → Option (List ℕ)
push n none = none
push n (some ns) = some (n ∷ ns)

read_numbers : ℕ → String → Option (List ℕ)
read_numbers k String.[] = none
read_numbers k (String.◌∷◌ c rest) = elim (code c == 46) [
  | true ↦ some []
  | false ↦ elim (code c == 44) [
    | true ↦ push k (read_numbers 0 rest)
    | false ↦ read_numbers (k + 1) rest
  ]
]

read_numbers-strokes :
    (k n : ℕ) (rest : String) → read_numbers k (strokes n rest) ≡ push (k + n) (read_numbers 0 rest)
unfolding strokes read_numbers
read_numbers-strokes k zero rest = ap (λ i. push i (read_numbers 0 rest)) (omega arith)
read_numbers-strokes k (suc n) rest =
    read_numbers-strokes (k + 1) n rest ∙ ap (λ i. push i (read_numbers 0 rest)) (omega arith)

read_numbers-write : (ns : List ℕ) → read_numbers 0 (write_numbers ns) ≡ some ns
unfolding write_numbers read_numbers
read_numbers-write [] = refl
read_numbers-write (n ∷ ns) =
    read_numbers-strokes 0 n (write_numbers ns)
    ∙ ap (λ i. push i (read_numbers 0 (write_numbers ns))) (omega arith)
    ∙ ap (push n) (read_numbers-write ns)

abbrev token_numbers : PageToken → List ℕ
token_numbers token = token.id_offset ∷ token.field_offset ∷ token.listed_ids

abbrev numbers_token : ListOptions → List ℕ → Option PageToken
numbers_token options [] = none
numbers_token options (i ∷ []) = none
numbers_token options (i ∷ f ∷ listed) =
    some record { id_offset = i; field_offset = f; set_options = options; listed_ids = listed }

abbrev pub stroke_codec : ListOptions → TokenCodec
unfolding write_numbers read_numbers
stroke_codec options = record {
  escape = write_numbers;
  unescape = read_numbers 0;
  serialize = token_numbers;
  parse = numbers_token options;
}

strokes_filled : (n : ℕ) (rest : String) → ¬ (strokes n rest ≡ "")
unfolding strokes
strokes_filled zero rest h = cc
strokes_filled (suc n) rest h = cc

strokes-ne-empty : (n : ℕ) (rest : String) → str_eq (strokes n rest) "" ≡ false
unfolding strokes
strokes-ne-empty n rest = elim (Bool-cases (str_eq (strokes n rest) "")) [
  | inl same ↦ absurd (strokes_filled n rest ((eq_iff (strokes n rest) "").0 same))
  | inr other ↦ other
]

pub stroke_laws :
    (options : ListOptions)
    → TokenLaws (stroke_codec (record options { next_page_token = "" })) options
unfolding write_numbers stroke_codec read_numbers
stroke_laws options = record {
  unescaped = λ token same. read_numbers-write (token_numbers token);
  parsed = λ token same.
      ap
        (λ (o : ListOptions). some (record {
          id_offset = token.id_offset;
          field_offset = token.field_offset;
          set_options = o;
          listed_ids = token.listed_ids;
        }))
        (sym same);
  not_empty = λ token same. strokes-ne-empty token.id_offset _;
}
