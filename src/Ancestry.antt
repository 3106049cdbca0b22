-- ===== src/Ancestry.antt =====
-- `CheckCyClicDependency` of ml_metadata/metadata_store/rdbms_metadata_access_object.cc, over the
-- rows of `ParentType` or of `ParentContext`: both relate a child's id to a parent's.
pub mod Walk
pub mod Decides
pub mod Acyclic
mod Tests
use ml_metadata_l_metadata_s.Prelude.{
  ℕ, zero, suc, ◌+◌, Bool, true, false, Option, none, some, List, [], ◌∷◌, ◌==◌, if◌then◌else◌,
  length, mem,
}
use ml_metadata_l_metadata_s.Status.{invalid_argument, Result, ok, err}

-- Rows of (child, parent).
abbrev pub Links : Type 0
Links = List (ℕ × ℕ)

-- The parents of a child, in the order of the rows: SelectParentTypesByTypeID with one id, or
-- SelectParentContextsByContextID, and the ids of the second column.
pub parents : Links → ℕ → List ℕ
parents [] a = []
parents ((child, parent) ∷ rest) a =
    let more = parents rest a in if child == a then parent ∷ more else more

-- AddAncestors: each parent is pushed to the back, which is the head of this list.
pub add_ancestors : List ℕ → List ℕ → List ℕ
add_ancestors [] stack = stack
add_ancestors (p ∷ ps) stack = add_ancestors ps (p ∷ stack)

-- The `while` loop with its stack and its visited set; `none` means that the fuel ran out.
pub walk : Links → ℕ → ℕ → List ℕ → List ℕ → Option (Result (Unit {0}))
unfolding parents add_ancestors
walk links child zero stack visited = none
walk links child (suc fuel) [] visited = some (ok tt)
walk links child (suc fuel) (a ∷ stack) visited =
    let skip = walk links child fuel stack visited in
    let expand = walk links child fuel (add_ancestors (parents links a) stack) (a ∷ visited) in
    if a == child then some (err invalid_argument) else if mem a visited then skip else expand

-- Each row is pushed at most once, so two rounds more than there are rows are enough.
abbrev pub walk_fuel : Links → ℕ
walk_fuel links = length links + 2

pub check_cyclic_dependency : Links → ℕ → ℕ → Option (Result (Unit {0}))
unfolding walk
check_cyclic_dependency links child parent = walk links child (walk_fuel links) (parent ∷ []) []
