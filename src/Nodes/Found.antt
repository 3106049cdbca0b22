-- ===== src/Nodes/Found.antt =====
-- What a search by ids answers.
use ml_metadata_l_metadata_s.Prelude.{
  ℕ, ◌≡◌, Bool, true, false, not, Bool-cases, inl, inr, List, ◌==◌, length, if◌then◌else◌,
}
use ml_metadata_l_metadata_s.Status.{internal, not_found, Result, ok, err, err-ok}
use ml_metadata_l_metadata_s.Messages.{Node}
use ml_metadata_l_metadata_s.Nodes.{all_found}

wrong_count :
    (skipped : Bool) {nodes : List Node}
    → ¬ ((if not skipped then err internal else err not_found) ≡ ok nodes)
wrong_count true h = err-ok h
wrong_count false h = err-ok h

pub all_found-ok :
    (count : ℕ) (skipped : Bool) (found : Result (List Node)) (nodes : List Node)
    → all_found count skipped found ≡ ok nodes
    → found ≡ ok nodes
all_found-ok count skipped (err c) nodes h = absurd (err-ok h)
all_found-ok count skipped (ok found) nodes h = elim (Bool-cases (count == length found)) [
  | inl all ↦ rw all at h
  | inr some_missing ↦ absurd (wrong_count skipped (rw some_missing at h))
]
