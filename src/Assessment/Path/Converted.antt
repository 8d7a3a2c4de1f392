-- ===== src/Assessment/Path/Converted.antt =====
-- What a landing path is converted to.
use lando_api.Common.{◌≡◌, ◌⊎◌, List, String, ℕ, none, some, [], ◌∷◌}
use lando_api.Common.Exec.{key_error, raised, returned, Outcome}
use lando_api.Common.Text.{decimal}
use lando_api.Assessment.State.{PhabRevision}
use lando_api.Assessment.Path.{phid_of}
use lando_api.Common.Int.{ℤ}

-- Entry by entry, the PHID of the revision with that id, and the same diff.
abbrev pub IsMatched : List PhabRevision → List (ℕ × ℤ) → List (String × ℤ) → Type 0
IsMatched revisions [] [] = Unit
IsMatched revisions [] (q ∷ mapped) = ⊥
IsMatched revisions (p ∷ path) [] = ⊥
IsMatched revisions (p ∷ path) (q ∷ mapped) =
    (phid_of p.0 revisions ≡ some q.0) × (p.1 ≡ q.1) × IsMatched revisions path mapped

abbrev pub IsConverted : List PhabRevision → List (ℕ × ℤ) → Outcome (List (String × ℤ)) → Type 0
IsConverted revisions path o =
    ((mapped : List (String × ℤ)) × (o ≡ returned mapped) × IsMatched revisions path mapped)
    ⊎ ((id : ℕ) × (phid_of id revisions ≡ none) × (o ≡ raised (key_error (decimal id))))
