-- ===== src/Text/Laws.antt =====
-- Laws of the string functions: equality of texts, case folding, blank texts and trimming.
use auto_gardener.Base.{
  Bool-cases, List, [], ap, arith, false, inl, inr, is_nil, length, length-append, length-take,
  refl, take, true, ℕ, ◌&&◌, ◌+◌, ◌↔◌, ◌∙◌, ◌∷◌, ◌≡◌, ◌≤◌, ◌⊎◌,
}
use auto_gardener.Base.Dict.{Key}
use auto_gardener.Text.{
  Text, clip, equal_fold, first_non_empty, is_blank, is_space, text_eq, to_lower, trim_left,
  trim_right, trim_space,
}

pub text_eq_refl : (s : Text) → text_eq s s ≡ true
unfolding text_eq
text_eq_refl [] = refl
text_eq_refl (c ∷ s) = ground (arith, text_eq_refl s)

pub text_eq→≡ : (s t : Text) → text_eq s t ≡ true → s ≡ t
unfolding text_eq
text_eq→≡ [] [] h = refl
text_eq→≡ [] (b ∷ t) h = ground arith
text_eq→≡ (a ∷ s) [] h = ground arith
text_eq→≡ (a ∷ s) (b ∷ t) h = ground (arith, text_eq→≡ s t)

pub ≡→text_eq : (s t : Text) → s ≡ t → text_eq s t ≡ true
≡→text_eq s t h = rw h (text_eq_refl t)

pub text_eq_iff : (s t : Text) → (text_eq s t ≡ true) ↔ (s ≡ t)
text_eq_iff s t = (text_eq→≡ s t, ≡→text_eq s t)

pub equal_fold_refl : (s : Text) → equal_fold s s ≡ true
unfolding equal_fold
equal_fold_refl s = text_eq_refl (to_lower s)

pub equal_fold-sym : (s t : Text) → equal_fold s t ≡ equal_fold t s
unfolding equal_fold
equal_fold-sym s t =
    ground (arith, text_eq_iff (to_lower s) (to_lower t), text_eq_iff (to_lower t) (to_lower s))

pub length-clip : (n : ℕ) (suffix s : Text) → length (clip n suffix s) ≤ n + length suffix
unfolding clip
length-clip n suffix s = ground (arith, length-append (take n s) suffix, length-take n s)

trim_left-word : (c : ℕ) (s : Text) → is_space c ≡ false → trim_left (c ∷ s) ≡ c ∷ s
unfolding trim_left
trim_left-word c s h = rw (h, trim_left)

trim_right-word : (c : ℕ) (s : Text) → is_space c ≡ false → trim_right (c ∷ s) ≡ c ∷ trim_right s
unfolding trim_right
trim_right-word c s h = ground arith

trim_right_idem : (s : Text) → trim_right (trim_right s) ≡ trim_right s
unfolding trim_right
trim_right_idem [] = refl
trim_right_idem (c ∷ s) = elim (Bool-cases (is_nil (trim_right s) && is_space c)) [
  | inl e ↦ rw (e, trim_right) refl
  | inr e ↦ rw (e, trim_right) (rw (trim_right_idem s, e) refl)
]

-- What is left after trimming on the left: nothing, or a text that begins with no white space.
trim_left_cases :
    (s : Text)
    → (trim_left s ≡ []) ⊎ ((c : ℕ) × (r : Text) × (trim_left s ≡ c ∷ r) × (is_space c ≡ false))
unfolding trim_left
trim_left_cases [] = inl refl
trim_left_cases (c ∷ s) = elim (Bool-cases (is_space c)) [
  | inl e ↦ rw (e, trim_left) (trim_left_cases s)
  | inr e ↦ inr (c, s, rw (e, trim_left) refl, e)
]

trim_space_lem : (s : Text) → trim_space s ≡ trim_right (trim_left s)
unfolding trim_space
trim_space_lem s = refl

trim_space-word : (c : ℕ) (s : Text) → is_space c ≡ false → trim_space (c ∷ s) ≡ c ∷ trim_right s
trim_space-word c s h = rw (trim_space_lem, trim_left-word c s h) (trim_right-word c s h)

pub trim_space_idem : (s : Text) → trim_space (trim_space s) ≡ trim_space s
trim_space_idem s = elim (trim_left_cases s) [
  | inl e ↦ rw (trim_space_lem s, e) (unfold trim_space in refl)
  | inr (c, r, e, h) ↦
      rw (trim_space_lem s, e, trim_right-word c r h)
        (trim_space-word c (trim_right r) h ∙ ap (λ t. c ∷ t) (trim_right_idem r))
]

is_blank_lem : (s : Text) → is_blank s ≡ is_nil (trim_space s)
unfolding is_blank
is_blank_lem s = refl

-- A text that begins with a rune that is no white space is not blank.
pub is_blank-word : (c : ℕ) (s : Text) → is_space c ≡ false → is_blank (c ∷ s) ≡ false
is_blank-word c s h = rw (is_blank_lem, trim_space-word c s h) refl

pub is_blank-trim_space : (s : Text) → is_blank (trim_space s) ≡ is_nil (trim_space s)
is_blank-trim_space s = rw (is_blank_lem (trim_space s), trim_space_idem s) refl

pub is_blank-nil : is_blank [] ≡ true
unfolding is_blank
is_blank-nil = refl

-- The text that `firstNonEmpty` picks is not blank, unless all are and it is empty.
pub first_non_empty-is_blank :
    (ss : List Text) → is_blank (first_non_empty ss) ≡ true → first_non_empty ss ≡ []
unfolding first_non_empty
first_non_empty-is_blank [] h = refl
first_non_empty-is_blank (s ∷ ss) h = ground (arith, first_non_empty-is_blank ss)

-- `map[string]V` takes texts for keys.
instance abbrev pub text_key : Key Text
text_key = record { same = text_eq; same_iff = text_eq_iff }
