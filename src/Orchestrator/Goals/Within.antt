-- ===== src/Orchestrator/Goals/Within.antt =====
-- Where the goal of a tree is written, and when it counts as complete.
use auto_gardener.Base.{
  Bool, Option, any, false, if◌then◌else◌, inl, inr, is_nil, not, refl, true, ◌||◌, ◌≡◌, ◌⊎◌,
}
use auto_gardener.Models.{Task, Tree}
use auto_gardener.Orchestrator.Creation.{Paths}
use auto_gardener.Orchestrator.Goals.{
  blocked_hints, goal_blocked, goal_complete, goal_partial, infer_goal_status, partial_hints,
  path_within_root, tree_goal_path, tree_goal_spec,
}
use auto_gardener.Text.{Text, contains, to_lower, trim_space}

-- The goal file is the default one, or stays within the directory of the default.
pub tree_goal_spec-path :
    (f : Paths) (dir : Text → Text) (is_abs : Text → Bool) (rel : Text → Text → Option Text)
    (data_dir : Text) (task : Task) (tree : Tree)
    → let spec = tree_goal_spec f dir is_abs rel data_dir task tree in
      let default_path = tree_goal_path f dir is_abs rel data_dir task.id tree.id in
      (spec.path ≡ default_path)
      ⊎ (path_within_root f dir is_abs rel (dir default_path) spec.path ≡ true)
unfolding tree_goal_spec
tree_goal_spec-path f dir is_abs rel data_dir task tree =
    split (is_nil own_path) (path_within_root f dir is_abs rel (dir default_path) own_path) refl
  where
    own_path : Text
    own_path = trim_space tree.goal_path

    default_path : Text
    default_path = tree_goal_path f dir is_abs rel data_dir task.id tree.id

    chosen : Bool → Bool → Text
    chosen blank within = if blank || not within then default_path else own_path

    split :
        (blank within : Bool)
        → path_within_root f dir is_abs rel (dir default_path) own_path ≡ within
        → (chosen blank within ≡ default_path)
          ⊎ (path_within_root f dir is_abs rel (dir default_path) (chosen blank within) ≡ true)
    split true within q = inl refl
    split false false q = inl refl
    split false true q = inr q

-- A goal is complete only after a run without a failure whose output gives no hint of the contrary.
infer_goal_status_complete :
    (output : Text) (has_error : Bool)
    → infer_goal_status output has_error ≡ goal_complete
    → let lower = to_lower (trim_space output) in
      (has_error ≡ false)
      × (any (contains lower) blocked_hints ≡ false)
      × (any (contains lower) partial_hints ≡ false)
unfolding infer_goal_status
infer_goal_status_complete output has_error =
    split has_error (any (contains (to_lower (trim_space output))) blocked_hints)
      (any (contains (to_lower (trim_space output))) partial_hints)
  where
    split :
        (e b p : Bool)
        → (if e
            then goal_blocked
            else if b
            then goal_blocked
            else if p
            then goal_partial
            else goal_complete)
          ≡ goal_complete
        → (e ≡ false) × (b ≡ false) × (p ≡ false)
    split true b p h = absurd (cc)
    split false true p h = absurd (cc)
    split false false true h = absurd (cc)
    split false false false h = (refl, refl, refl)
