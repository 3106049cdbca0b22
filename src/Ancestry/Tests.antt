-- ===== src/Ancestry/Tests.antt =====
-- 1 has the parents 2 and 3, which share the parent 4.
use ml_metadata_l_metadata_s.Prelude.{some, [], ◌∷◌, ◌≡◌, refl}
use ml_metadata_l_metadata_s.Status.{ok, err, invalid_argument, Result}
use ml_metadata_l_metadata_s.Ancestry.{Links, check_cyclic_dependency}
use ml_metadata_l_metadata_s.Ancestry.Decides.{Decided, check_cyclic_dependency_decides}

abbrev diamond : Links
diamond = (1, 2) ∷ (1, 3) ∷ (2, 4) ∷ (3, 4) ∷ []

check-diamond :
    (check_cyclic_dependency diamond 4 1 ≡ some (err invalid_argument))
    × (check_cyclic_dependency diamond 5 1 ≡ some (ok tt))
    × (check_cyclic_dependency diamond 5 5 ≡ some (err invalid_argument))
unfolding check_cyclic_dependency
check-diamond = (refl, refl, refl)

check_cyclic_dependency_decides_example :
    (r : Result (Unit {0})) × (check_cyclic_dependency diamond 4 1 ≡ some r) × Decided diamond 4 1 r
check_cyclic_dependency_decides_example = check_cyclic_dependency_decides diamond 4 1
