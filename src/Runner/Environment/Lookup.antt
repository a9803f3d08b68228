-- ===== src/Runner/Environment/Lookup.antt =====
-- What a child process finds in the environment that internal/codex/runner.go prepares.
use auto_gardener.Base.{
  Bool, Bool-cases, List, Option, [], any, ap, arith, false, if◌then◌else◌, inl, inr, none, not,
  refl, some, sym, true, ◌||◌, ◌∙◌, ◌∷◌, ◌≡◌,
}
use auto_gardener.Runner.Environment.{assignment, names, upsert_env}
use auto_gardener.Text.{Text, equal_fold, text_eq}
use auto_gardener.Text.Laws.{equal_fold-sym, equal_fold_refl, text_eq_refl, text_eq→≡}
use auto_gardener.Text.Split.{cut}

-- An item and the value that the items after it give: the later one counts.
unfoldable pub or_item : Text → Option (Text × Text) → Option Text → Option Text
unfolding text_eq
or_item key found (some value) = some value
or_item key none none = none
or_item key (some (k, value)) none = if text_eq k key then some value else none

-- The value of the last assignment of exactly this key, which is the one that os/exec passes on.
unfoldable pub find_env : Text → List Text → Option Text
unfolding cut or_item
find_env key [] = none
find_env key (item ∷ env) = let later = find_env key env in or_item key (cut b'=' item) later

-- At most one item assigns the key, in any case of its letters.
unfoldable pub assigned_once : Text → List Text → Bool
unfolding names
assigned_once key [] = true
assigned_once key (item ∷ env) =
    let rest = assigned_once key env in if names key item then not (any (names key) env) else rest

-- A key holds no `=`.
abbrev pub IsKey : Text → Type 0
IsKey key = cut b'=' key ≡ none

cut-assignment :
    (key value : Text) → IsKey key → cut b'=' (assignment key value) ≡ some (key, value)
unfolding cut assignment
cut-assignment [] value h = refl
cut-assignment (c ∷ key) value h = ground (arith, cut-assignment key value)

text_eq→equal_fold : (a b : Text) → text_eq a b ≡ true → equal_fold a b ≡ true
text_eq→equal_fold a b h = rw (text_eq→≡ a b h) (equal_fold_refl b)

fold_apart : (k key : Text) → equal_fold k key ≡ false → text_eq k key ≡ false
fold_apart k key h = ground (arith, text_eq→equal_fold k key)

find_env-assignment :
    (key value j : Text) (env : List Text)
    → IsKey key
    → find_env j (assignment key value ∷ env) ≡ or_item j (some (key, value)) (find_env j env)
unfolding find_env
find_env-assignment key value j env h = rw (find_env, cut-assignment key value h) refl

-- An item that does not assign the key, in any case of its letters, is passed over.
or_item_apart :
    (key : Text) (found : Option (Text × Text)) (rest : Option Text)
    → (elim found as (λ _. Bool) [ none ↦ false | some (k, v) ↦ equal_fold k key ]) ≡ false
    → or_item key found rest ≡ rest
unfolding or_item
or_item_apart key none none h = refl
or_item_apart key none (some value) h = refl
or_item_apart key (some (k, v)) (some value) h = refl
or_item_apart key (some (k, v)) none h = rw (fold_apart k key h) refl

find_env-names :
    (key item : Text) (env : List Text)
    → names key item ≡ false
    → find_env key (item ∷ env) ≡ find_env key env
unfolding find_env names
find_env-names key item env h = or_item_apart key (cut b'=' item) (find_env key env) h

split_or : (a b : Bool) → (a || b) ≡ false → (a ≡ false) × (b ≡ false)
split_or a b h = ground arith

find_env-unassigned :
    (key : Text) (env : List Text) → any (names key) env ≡ false → find_env key env ≡ none
unfolding find_env
find_env-unassigned key [] h = refl
find_env-unassigned key (item ∷ env) h =
    let (skipped, rest) = split_or (names key item) (any (names key) env) h in
    find_env-names key item env skipped ∙ find_env-unassigned key env rest

of_not : (b : Bool) → not b ≡ true → b ≡ false
of_not b h = ground arith

or_item_self : (key value : Text) → or_item key (some (key, value)) none ≡ some value
unfolding or_item
or_item_self key value = rw (text_eq_refl key) refl

-- A variable that was assigned at most once is found with the value that is set.
find_env-upsert_env_self :
    (key value : Text) (env : List Text)
    → IsKey key
    → assigned_once key env ≡ true
    → find_env key (upsert_env key value env) ≡ some value
unfolding upsert_env assigned_once find_env
find_env-upsert_env_self key value [] h once =
    find_env-assignment key value key [] h ∙ or_item_self key value
find_env-upsert_env_self key value (item ∷ env) h once = elim (Bool-cases (names key item)) [
  | inl found ↦ rw found (
      find_env-assignment key value key env h
      ∙ rw
          (
            find_env-unassigned key env (of_not _ (rw (assigned_once, found) at once)),
            text_eq_refl key,
          )
          refl)
  | inr skipped ↦ rw skipped (
      find_env-names key item (upsert_env key value env) skipped
      ∙ find_env-upsert_env_self key value env h (rw (assigned_once, skipped) at once))
]

find_env-after :
    (j item : Text) (env env' : List Text)
    → find_env j env ≡ find_env j env'
    → find_env j (item ∷ env) ≡ find_env j (item ∷ env')
unfolding find_env
find_env-after j item env env' h = ap (or_item j (cut b'=' item)) h

key_apart : (key j : Text) → equal_fold j key ≡ false → text_eq key j ≡ false
key_apart key j h = ground (arith, text_eq→equal_fold key j, equal_fold-sym key j)

fold_differs :
    (k key j : Text) → equal_fold k key ≡ true → equal_fold j key ≡ false → text_eq k j ≡ false
fold_differs k key j same apart = elim (Bool-cases (text_eq k j)) [
  | inr differs ↦ differs
  | inl equal ↦ cc (ap (λ t. equal_fold t key) (text_eq→≡ k j equal))
]

or_item_other :
    (k v j : Text) (rest : Option Text) → text_eq k j ≡ false → or_item j (some (k, v)) rest ≡ rest
unfolding or_item
or_item_other k v j none h = rw h refl
or_item_other k v j (some value) h = refl

-- The other way round: an item that assigns the key does not assign the other key.
find_env-other :
    (key j item : Text) (env : List Text)
    → names key item ≡ true
    → equal_fold j key ≡ false
    → find_env j (item ∷ env) ≡ find_env j env
unfolding find_env names
find_env-other key j item env h apart = go (cut b'=' item) h
  where
    go :
        (found : Option (Text × Text))
        → (elim found as (λ _. Bool) [ none ↦ false | some (k, v) ↦ equal_fold k key ]) ≡ true
        → or_item j found (find_env j env) ≡ find_env j env
    go none same = absurd (cc)
    go (some (k, v)) same = or_item_other k v j (find_env j env) (fold_differs k key j same apart)

-- Nothing changes under a key that differs in more than the case of its letters.
find_env-upsert_env_apart :
    (key value j : Text) (env : List Text)
    → IsKey key
    → equal_fold j key ≡ false
    → find_env j (upsert_env key value env) ≡ find_env j env
unfolding upsert_env
find_env-upsert_env_apart key value j [] h apart =
    find_env-assignment key value j [] h ∙ or_item_other key value j _ (key_apart key j apart)
find_env-upsert_env_apart key value j (item ∷ env) h apart = elim (Bool-cases (names key item)) [
  | inl found ↦ rw found (
      find_env-assignment key value j env h
      ∙ (or_item_other key value j _ (key_apart key j apart)
          ∙ sym (find_env-other key j item env found apart)))
  | inr skipped ↦ rw skipped (
      find_env-after j item (upsert_env key value env) env
        (find_env-upsert_env_apart key value j env h apart))
]

-- A child process, for which the last assignment counts, finds a variable with the value that was
-- set, where the environment assigned it at most once in any case of its letters; and a variable whose
-- name differs in more than the case of its letters keeps its value.
pub find_env-upsert_env :
    (key value j : Text) (env : List Text)
    → IsKey key
    → assigned_once key env ≡ true
    → equal_fold j key ≡ false
    → (find_env key (upsert_env key value env) ≡ some value)
      × (find_env j (upsert_env key value env) ≡ find_env j env)
find_env-upsert_env key value j env h once apart = (
  find_env-upsert_env_self key value env h once,
  find_env-upsert_env_apart key value j env h apart,
)
