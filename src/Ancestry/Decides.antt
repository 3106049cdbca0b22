-- ===== src/Ancestry/Decides.antt =====
-- The walk decides whether the child is the parent or one of its ancestors.
use ml_metadata_l_metadata_s.Prelude.{
  ℕ, zero, suc, ◌+◌, true, false, some, List, [], ◌∷◌, ◌==◌, ==_iff, ◌≡◌, refl, arith, length, mem,
  Bool-cases, inl, inr, ◌⊎◌, subst, sym, ◌↔◌,
}
use ml_metadata_l_metadata_s.Status.{invalid_argument, Result, ok, err}
use ml_metadata_l_metadata_s.Ancestry.{Links, parents, add_ancestors, walk, check_cyclic_dependency}
use ml_metadata_l_metadata_s.Ancestry.Walk.{unspent-le, walk_returns}

-- A row says that `b` is a parent of `a`.
abbrev pub HasLink : Links → ℕ → ℕ → Type 0
HasLink [] a b = ⊥
HasLink ((child, parent) ∷ rest) a b = ((child ≡ a) × (parent ≡ b)) ⊎ HasLink rest a b

-- `b` is `a`, or a parent of a parent … of it.
pub data Ancestor (links : Links) (a : ℕ) : ℕ → Type 0 where
  self : Ancestor links a a
  up : {b c : ℕ} → Ancestor links a b → HasLink links b c → Ancestor links a c

mem-parents : (links : Links) (a b : ℕ) → (mem b (parents links a) ≡ true) ↔ HasLink links a b
unfolding parents
mem-parents [] a b = (λ e. cc, λ h. absurd h)
mem-parents ((c, p) ∷ rest) a b = ground (arith, mem-parents rest a b)

mem-add_ancestors :
    (x : ℕ) (ps stack : List ℕ)
    → (mem x (add_ancestors ps stack) ≡ true) ↔ ((mem x ps ≡ true) ⊎ (mem x stack ≡ true))
unfolding add_ancestors
mem-add_ancestors x [] stack = ground arith
mem-add_ancestors x (p ∷ ps) stack = ground (arith, mem-add_ancestors x ps (p ∷ stack))

module _ (links : Links) (child parent : ℕ) where
  -- Between rounds: all ids met are ancestors, a visited id is not the child, and its parents are
  -- met too.
  record Inv (stack visited : List ℕ) : Type 0 where
    met : (a : ℕ) → (mem a stack ≡ true) ⊎ (mem a visited ≡ true) → Ancestor links parent a
    start : (mem parent stack ≡ true) ⊎ (mem parent visited ≡ true)
    clear : mem child visited ≡ false
    closed :
        (a b : ℕ)
        → mem a visited ≡ true
        → HasLink links a b
        → (mem b stack ≡ true) ⊎ (mem b visited ≡ true)

  Inv-start : Inv (parent ∷ []) []
  Inv-start = record {
    met = λ a m. subst (Ancestor links parent) (ground arith) self;
    start = inl (ground arith);
    clear = refl;
    closed = λ a b m. cc;
  }

  Inv-skip :
      (a : ℕ) (stack visited : List ℕ)
      → mem a visited ≡ true
      → Inv (a ∷ stack) visited
      → Inv stack visited
  Inv-skip a stack visited seen v = record {
    met = λ x m. v.met x (ground arith);
    start = ground (arith, v.start);
    clear = v.clear;
    closed = λ x y m l. ground (arith, v.closed x y m l);
  }

  -- What is met after a round that expands `a`.
  expanded :
      (a : ℕ) (stack visited : List ℕ) (x : ℕ)
      → (mem x (add_ancestors (parents links a) stack) ≡ true) ⊎ (mem x (a ∷ visited) ≡ true)
      → (x ≡ a) ⊎ (HasLink links a x ⊎ ((mem x stack ≡ true) ⊎ (mem x visited ≡ true)))
  expanded a stack visited x m =
      ground (arith, mem-add_ancestors x (parents links a) stack, mem-parents links a x)

  Inv-expand :
      (a : ℕ) (stack visited : List ℕ)
      → (a == child) ≡ false
      → Inv (a ∷ stack) visited
      → Inv (add_ancestors (parents links a) stack) (a ∷ visited)
  Inv-expand a stack visited miss v = record {
    met = λ x m. elim (expanded a stack visited x m) [
      | inl e ↦ subst (Ancestor links parent) (sym e) (v.met a (ground arith))
      | inr (inl l) ↦ up (v.met a (ground arith)) l
      | inr (inr old) ↦ v.met x (ground arith)
    ];
    start = ground (arith, v.start, mem-add_ancestors parent (parents links a) stack);
    clear = ground (arith, v.clear);
    closed = λ x y m l.
        ground
          (arith, v.closed x y, mem-add_ancestors y (parents links a) stack, mem-parents links a y);
  }

  -- With an empty stack every ancestor has been visited.
  all_visited :
      {a : ℕ} (visited : List ℕ) → Inv [] visited → Ancestor links parent a → mem a visited ≡ true
  all_visited visited v self = ground (arith, v.start)
  all_visited visited v (up {b} {c} h l) = ground (arith, v.closed b c (all_visited visited v h) l)

  abbrev pub Decided : Result (Unit {0}) → Type 0
  Decided r =
      ((r ≡ ok tt) × (¬ Ancestor links parent child))
      ⊎ ((r ≡ err invalid_argument) × Ancestor links parent child)

  walk_decides :
      (fuel : ℕ) (stack visited : List ℕ) (r : Result (Unit {0}))
      → Inv stack visited
      → walk links child fuel stack visited ≡ some r
      → Decided r
  unfolding walk
  walk_decides zero stack visited r v h = cc
  walk_decides (suc fuel) [] visited r v h =
      inl (ground arith, λ p. cc (all_visited visited v p, v.clear))
  walk_decides (suc fuel) (a ∷ stack) visited r v h = elim (Bool-cases (a == child)) [
    | inl hit ↦ inr (
      ground arith,
      subst (Ancestor links parent) ((==_iff a child).0 hit) (v.met a (ground arith)),
    )
    | inr miss ↦ elim (Bool-cases (mem a visited)) [
      | inl seen ↦
          walk_decides fuel stack visited r (Inv-skip a stack visited seen v) (rw (miss, seen) at h)
      | inr new ↦
          walk_decides fuel (add_ancestors (parents links a) stack) (a ∷ visited) r
            (Inv-expand a stack visited miss v) (rw (miss, new) at h)
    ]
  ]

  -- The check returns, without running out of fuel, and decides: it answers OK if the child is
  -- neither the parent nor an ancestor of it, and INVALID_ARGUMENT if it is one of these.
  pub check_cyclic_dependency_decides :
      (r : Result (Unit {0})) × (check_cyclic_dependency links child parent ≡ some r) × Decided r
  unfolding check_cyclic_dependency
  check_cyclic_dependency_decides =
      let (r, e) =
        walk_returns links child (length links + 2) (parent ∷ []) []
          (omega (arith, unspent-le links [])) in
      (r, e, walk_decides (length links + 2) (parent ∷ []) [] r Inv-start e)
