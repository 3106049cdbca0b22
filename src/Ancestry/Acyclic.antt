-- ===== src/Ancestry/Acyclic.antt =====
-- Links that pass the check stay free of cycles.
use ml_metadata_l_metadata_s.Prelude.{ℕ, [], ◌∷◌, ◌++◌, ◌≡◌, inl, inr, ◌⊎◌, sym, subst}
use ml_metadata_l_metadata_s.Ancestry.{Links}
use ml_metadata_l_metadata_s.Ancestry.Decides.{HasLink, Ancestor, self, up}

-- No id is a proper ancestor of itself.
pub record IsAcyclic (links : Links) : Type 0 where
  pub no_cycle : (a b : ℕ) → HasLink links a b → ¬ Ancestor links b a

-- The links with one row more at the end of the table.
abbrev pub add_link : Links → ℕ → ℕ → Links
add_link links child parent = links ++ (child, parent) ∷ []

HasLink-add_link :
    (links : Links) (child parent a b : ℕ)
    → HasLink (add_link links child parent) a b
    → HasLink links a b ⊎ ((child ≡ a) × (parent ≡ b))
HasLink-add_link [] child parent a b (inl h) = inr h
HasLink-add_link [] child parent a b (inr h) = absurd h
HasLink-add_link ((c, p) ∷ rest) child parent a b (inl h) = inl (inl h)
HasLink-add_link ((c, p) ∷ rest) child parent a b (inr h) =
    elim (HasLink-add_link rest child parent a b h) [ inl old ↦ inl (inr old) | inr new ↦ inr new ]

Ancestor-trans :
    {links : Links} {a b c : ℕ} → Ancestor links a b → Ancestor links b c → Ancestor links a c
Ancestor-trans h self = h
Ancestor-trans h (up k l) = up (Ancestor-trans h k) l

module _ (links : Links) (child parent : ℕ) where
  -- A path over the new row goes to the child first, and on from the parent.
  split_path :
      {a b : ℕ}
      → Ancestor (add_link links child parent) a b
      → Ancestor links a b ⊎ (Ancestor links a child × Ancestor links parent b)
  split_path self = inl self
  split_path {a} (up {b} {c} h l) = elim (HasLink-add_link links child parent b c l) [
    | inl old ↦ elim (split_path h) [ inl p ↦ inl (up p old) | inr (p, q) ↦ inr (p, up q old) ]
    | inr (e, f) ↦ inr (
      elim (split_path h) [ inl p ↦ subst (Ancestor links a) (sym e) p | inr (p, _) ↦ p ],
      subst (Ancestor links parent) f self,
    )
  ]

  -- If the links have no cycle, and the child is not the parent nor one of its ancestors, the links
  -- with the row (child, parent) have no cycle.
  pub add_link-IsAcyclic :
      IsAcyclic links → ¬ Ancestor links parent child → IsAcyclic (add_link links child parent)
  add_link-IsAcyclic h apart = record {
    no_cycle = λ a b l path. elim (HasLink-add_link links child parent a b l) [
      | inl old ↦ elim (split_path path) [
        | inl p ↦ h.no_cycle a b old p
        | inr (p, q) ↦ apart (Ancestor-trans (up q old) p)
      ]
      | inr (e, f) ↦ apart (elim (split_path path) [
        | inl p ↦ subst (Ancestor links parent) (sym e) (subst (λ x. Ancestor links x a) (sym f) p)
        | inr (_, q) ↦ subst (Ancestor links parent) (sym e) q
      ])
    ];
  }
