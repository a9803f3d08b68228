-- ===== src/Text/Split.antt =====
-- The functions of Go's strings package that cut and split a text.
-- strings.Trim(s, cutset) for a cutset given as a test.
use auto_gardener.Base.{Bool, List, Option, [], if◌then◌else◌, none, reverse, some, ℕ, ◌==◌, ◌∷◌}
use auto_gardener.Text.{Text}

unfoldable pub trim_start : (ℕ → Bool) → Text → Text
trim_start p [] = []
trim_start p (c ∷ s) = let rest = trim_start p s in if p c then rest else c ∷ s

unfoldable pub trim_by : (ℕ → Bool) → Text → Text
unfolding trim_start
trim_by p s = reverse (trim_start p (reverse (trim_start p s)))

-- strings.Cut at a character.
unfoldable pub cut : ℕ → Text → Option (Text × Text)
cut sep [] = none
cut sep (c ∷ s) =
    let rest = cut sep s in
    if c == sep then some ([], s) else (elim rest [ none ↦ none | some (a, b) ↦ some (c ∷ a, b) ])

-- strings.Split at a character.
unfoldable pub split_on : ℕ → Text → List Text
split_on sep [] = [] ∷ []
split_on sep (c ∷ s) =
    let rest = split_on sep s in
    if c == sep
    then [] ∷ rest
    else (elim rest [ [] ↦ (c ∷ []) ∷ [] | ◌∷◌ part more ↦ (c ∷ part) ∷ more ])
