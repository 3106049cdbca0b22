-- ===== src/Ancestry/Walk.antt =====
-- The walk ends within its fuel.
use ml_metadata_l_metadata_s.Prelude.{
  ℕ, zero, suc, ◌+◌, ◌≤◌, ◌<◌, false, some, List, [], ◌∷◌, ◌==◌, ◌≡◌, refl, arith, if◌then◌else◌,
  length, mem, Bool-cases, inl, inr,
}
use ml_metadata_l_metadata_s.Status.{invalid_argument, Result, ok, err}
use ml_metadata_l_metadata_s.Ancestry.{Links, parents, add_ancestors, walk}

-- The rows whose child has not been visited.
pub unspent : Links → List ℕ → ℕ
unspent [] visited = 0
unspent ((child, parent) ∷ rest) visited =
    (if mem child visited then 0 else 1) + unspent rest visited

pub unspent-cons :
    (links : Links) (visited : List ℕ) (a : ℕ)
    → mem a visited ≡ false
    → unspent links (a ∷ visited) + length (parents links a) ≡ unspent links visited
unfolding unspent parents
unspent-cons [] visited a h = refl
unspent-cons ((c, p) ∷ rest) visited a h = elim (Bool-cases (c == a)) [
  | inl same ↦ let e : c ≡ a = ground arith in ground (arith, e, unspent-cons rest visited a h)
  | inr other ↦ ground (arith, unspent-cons rest visited a h)
]

pub unspent-le : (links : Links) (visited : List ℕ) → unspent links visited ≤ length links
unfolding unspent
unspent-le [] visited = omega arith
unspent-le ((c, p) ∷ rest) visited = ground (arith, unspent-le rest visited)

length-add_ancestors :
    (ps stack : List ℕ) → length (add_ancestors ps stack) ≡ length ps + length stack
unfolding add_ancestors
length-add_ancestors [] stack = omega arith
length-add_ancestors (p ∷ ps) stack = omega (arith, length-add_ancestors ps (p ∷ stack))

-- Each round pops one id, and pushes as many as it spends rows.
pub walk_returns :
    (links : Links) (child fuel : ℕ) (stack visited : List ℕ)
    → unspent links visited + length stack < fuel
    → (r : Result (Unit {0})) × (walk links child fuel stack visited ≡ some r)
unfolding walk
walk_returns links child zero stack visited h = absurd (omega arith)
walk_returns links child (suc fuel) [] visited h = (ok tt, refl)
walk_returns links child (suc fuel) (a ∷ stack) visited h = elim (Bool-cases (a == child)) [
  | inl hit ↦ (err invalid_argument, rw hit)
  | inr miss ↦ elim (Bool-cases (mem a visited)) [
    | inl seen ↦
        let (r, e) = walk_returns links child fuel stack visited (omega arith) in
        (r, rw (miss, seen) e)
    | inr new ↦
        let (r, e) =
          walk_returns links child fuel (add_ancestors (parents links a) stack) (a ∷ visited) (
            omega (
              arith,
              unspent-cons links visited a new,
              length-add_ancestors (parents links a) stack,
            )) in
        (r, rw (miss, new) e)
  ]
]
