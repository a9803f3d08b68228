-- ===== src/Plan/Normal.antt =====
-- The shape of a normalised plan of internal/app/orchestrator.go.
use auto_gardener.Base.{
  All, Bool-cases, List, [], arith, false, if◌then◌else◌, inl, inr, is_nil, length, not, refl, ℕ,
  ◌&&◌, ◌++◌, ◌+◌, ◌∙◌, ◌∷◌, ◌≡◌,
}
use auto_gardener.Models.{GardenerPlan, TreePlan}
use auto_gardener.Plan.{
  default_clarification_question, normalize_plan, normalize_tree, normalize_trees, or_default,
  tree_prompt,
}
use auto_gardener.Text.{Text, is_blank, is_space, text_of, trim_space}
use auto_gardener.Text.Laws.{is_blank-trim_space, is_blank-word}
use auto_gardener.Text.Number.{itoa}

-- A tree that can be dispatched.
abbrev pub IsFilled : TreePlan → Type 0
IsFilled p =
    (is_blank p.name ≡ false)
    × (is_blank p.objective ≡ false)
    × (is_blank p.prompt ≡ false)
    × (is_nil p.scope ≡ false)

pub length-normalize_trees :
    (instruction : Text) (i : ℕ) (ps : List TreePlan)
    → length (normalize_trees instruction i ps) ≡ length ps
unfolding normalize_trees
length-normalize_trees instruction i [] = refl
length-normalize_trees instruction i (p ∷ ps) =
    omega (arith, length-normalize_trees instruction (i + 1) ps)

or_default-filled :
    (fallback s : Text) → is_blank fallback ≡ false → is_blank (or_default fallback s) ≡ false
unfolding or_default
or_default-filled fallback s h = ground arith

default_name_filled : (i : ℕ) → is_blank (text_of "Tree " ++ itoa (i + 1)) ≡ false
unfolding text_of is_space
default_name_filled i = is_blank-word b'T' _ refl

tree_prompt_filled :
    (objective instruction : Text) → is_blank (tree_prompt objective instruction) ≡ false
unfolding tree_prompt text_of is_space
tree_prompt_filled objective instruction = is_blank-word 0x4f60 _ refl

default_question_filled : is_blank default_clarification_question ≡ false
unfolding default_clarification_question is_space
default_question_filled = is_blank-word 0x6211 _ refl

scope_filled :
    (scope : List Text) (t : Text) → is_nil (if is_nil scope then t ∷ [] else scope) ≡ false
scope_filled [] t = refl
scope_filled (s ∷ ss) t = refl

normalize_tree-IsFilled :
    (instruction : Text) (i : ℕ) (p : TreePlan) → IsFilled (normalize_tree instruction i p)
unfolding normalize_tree
normalize_tree-IsFilled instruction i p =
    let name = or_default-filled _ p.name (default_name_filled i) in
    (
      name,
      or_default-filled _ p.objective name,
      or_default-filled _ p.prompt (tree_prompt_filled _ instruction),
      scope_filled p.scope _,
    )

normalize_trees-IsFilled :
    (instruction : Text) (i : ℕ) (ps : List TreePlan)
    → All IsFilled (normalize_trees instruction i ps)
unfolding normalize_trees
normalize_trees-IsFilled instruction i [] = tt
normalize_trees-IsFilled instruction i (p ∷ ps) =
    (normalize_tree-IsFilled instruction i p, normalize_trees-IsFilled instruction (i + 1) ps)

question_filled :
    (q : Text)
    → is_blank (if is_nil (trim_space q) then default_clarification_question else trim_space q)
      ≡ false
question_filled q = elim (Bool-cases (is_nil (trim_space q))) [
  | inl e ↦ rw e default_question_filled
  | inr e ↦ rw e (is_blank-trim_space q ∙ e)
]

-- Every tree of a normalised plan has a name, an objective, a prompt and a scope. No tree is lost,
-- but for a plan that asks a question, which has no tree, is finished and has its question to show.
pub normalize_plan-IsFilled :
    (p : GardenerPlan) (instruction : Text)
    → let n = normalize_plan p instruction in
      All IsFilled n.trees
      × (length n.trees ≡ (if p.needs_clarification then 0 else length p.trees))
      × ((p.needs_clarification && not n.forest_finished) ≡ false)
      × ((p.needs_clarification && is_blank n.clarification_question) ≡ false)
unfolding normalize_plan
normalize_plan-IsFilled p instruction = elim (Bool-cases p.needs_clarification) [
  | inl asks ↦ rw asks (tt, refl, refl, question_filled p.clarification_question)
  | inr plans ↦ rw plans (
    normalize_trees-IsFilled instruction 0 p.trees,
    length-normalize_trees instruction 0 p.trees,
    refl,
    refl,
  )
]
