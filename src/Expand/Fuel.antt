-- ===== src/Expand/Fuel.antt =====
-- The loop over batches of boundary nodes has enough fuel.
use ml_metadata_l_metadata_s.Prelude.{
  ℕ, zero, suc, ◌≤◌, ◌≡◌, refl, List, [], ◌∷◌, length, take, drop, arith,
}
use ml_metadata_l_metadata_s.Status.{Result, ok, err, ◌>>=◌}
use ml_metadata_l_metadata_s.Expand.{erase_ids, skip_batches}

length-drop-le : (n : ℕ) (ids : List ℕ) → length (drop n ids) ≤ length ids
length-drop-le zero ids = omega arith
length-drop-le (suc n) [] = omega arith
length-drop-le (suc n) (id ∷ ids) = omega (arith, length-drop-le n ids)

>>=-cong :
    (call : Result (List ℕ)) (next other : List ℕ → Result (List ℕ))
    → ((ids : List ℕ) → next ids ≡ other ids)
    → (call >>= next) ≡ (call >>= other)
>>=-cong (err c) next other same = refl
>>=-cong (ok ids) next other same = same ids

-- As many steps as there are candidates are enough: more do not change the result.
skip_batches_enough :
    (fuel more : ℕ) (query : List ℕ → Result (List ℕ)) (candidates unvisited : List ℕ)
    → length candidates ≤ fuel
    → length candidates ≤ more
    → skip_batches fuel query candidates unvisited ≡ skip_batches more query candidates unvisited
unfolding skip_batches
skip_batches_enough zero zero query [] unvisited f m = refl
skip_batches_enough zero (suc more) query [] unvisited f m = refl
skip_batches_enough (suc fuel) zero query [] unvisited f m = refl
skip_batches_enough (suc fuel) (suc more) query [] unvisited f m = refl
skip_batches_enough zero more query (id ∷ ids) unvisited f m = absurd (omega arith)
skip_batches_enough (suc fuel) zero query (id ∷ ids) unvisited f m = absurd (omega arith)
skip_batches_enough (suc fuel) (suc more) query (id ∷ ids) unvisited f m =
    let shorter = length-drop-le 99 ids in
    >>=-cong (query (take 100 (id ∷ ids)))
      (λ skipped. skip_batches fuel query (drop 100 (id ∷ ids)) (erase_ids skipped unvisited))
      (λ skipped. skip_batches more query (drop 100 (id ∷ ids)) (erase_ids skipped unvisited))
      (λ skipped.
        skip_batches_enough fuel more query (drop 100 (id ∷ ids)) (erase_ids skipped unvisited)
          (omega arith) (omega arith))
