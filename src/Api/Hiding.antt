-- ===== src/Api/Hiding.antt =====
-- The fields that internal/app/server.go blanks before it shows a task, and the identities that it
-- lets through.
use auto_gardener.Api.{
  after_slash, compact_task, compact_task_list, compact_tree, is_hidden_or_noise_file, is_id_rune,
  is_sensitive_workspace_file, public_ready_marker, public_task, public_tree, valid_api_task_id,
}
use auto_gardener.Base.{
  All, All-map, Bool, Bool-cases, List, [], any, arith, false, inl, inr, is_nil, not, refl, true, ℕ,
  ◌++◌, ◌==◌, ◌||◌, ◌∷◌, ◌≡◌, ◌≢◌, ◌⊎◌,
}
use auto_gardener.Models.{Task, Tree}
use auto_gardener.Orchestrator.{belongs_to}
use auto_gardener.Orchestrator.Registry.{HasNoColon, belongs_to_unique}
use auto_gardener.Text.{Text, is_blank, text_of}

not-not : (b : Bool) → not b ≡ false → b ≡ true
not-not b h = ground arith

or_false : (a b : Bool) → (a || b) ≡ false → (a ≡ false) × (b ≡ false)
or_false a b h = ground arith

is_id_rune-colon : (c : ℕ) → is_id_rune c ≡ true → c ≢ b':'
unfolding is_id_rune
is_id_rune-colon c h k = ground arith

id_runes-HasNoColon : (id : Text) → any (λ c. not (is_id_rune c)) id ≡ false → HasNoColon id
id_runes-HasNoColon [] h = tt
id_runes-HasNoColon (c ∷ s) h =
    let (p, q) = or_false (not (is_id_rune c)) (any (λ c. not (is_id_rune c)) s) h in
    (is_id_rune-colon c (not-not _ p), id_runes-HasNoColon s q)

valid-runes : (id : Text) → valid_api_task_id id ≡ true → any (λ c. not (is_id_rune c)) id ≡ false
unfolding valid_api_task_id
valid-runes id h = ground arith

-- No key of the registry belongs to two tasks whose identities the server lets through.
pub valid_api_task_id-belongs_to :
    (a b key : Text)
    → valid_api_task_id a ≡ true
    → valid_api_task_id b ≡ true
    → belongs_to a key ≡ true
    → belongs_to b key ≡ true
    → a ≡ b
valid_api_task_id-belongs_to a b key p q =
    belongs_to_unique a b key (id_runes-HasNoColon a (valid-runes a p))
      (id_runes-HasNoColon b (valid-runes b q))

-- A tree that shows no path: at most the mark that there is a report.
abbrev pub ShowsNoPath : Tree → Type 0
ShowsNoPath tree =
    (tree.goal_path ≡ []) × ((tree.fruit_path ≡ []) ⊎ (tree.fruit_path ≡ text_of "ready"))

-- A task whose prompt and places are blank.
abbrev pub IsPublic : Task → Type 0
IsPublic t =
    (t.prompt ≡ [])
    × (t.workspace_path ≡ [])
    × (t.scratch_path ≡ [])
    × (t.schedule_path ≡ [])
    × (t.log_path ≡ [])
    × All ShowsNoPath t.trees

public_tree-hides : (tree : Tree) → ShowsNoPath (public_tree tree)
unfolding public_tree public_ready_marker
public_tree-hides tree = elim (Bool-cases (is_blank tree.fruit_path)) [
  | inl e ↦ (refl, inl (rw (public_tree, e) refl))
  | inr e ↦ (refl, inr (rw (public_tree, e) refl))
]

compact_tree-hides : (tree : Tree) → ShowsNoPath (compact_tree tree)
unfolding compact_tree
compact_tree-hides tree = elim (Bool-cases (is_nil tree.fruit_path)) [
  | inl e ↦ (refl, inl (rw (compact_tree, e) refl))
  | inr e ↦ (refl, inr (rw (compact_tree, e) refl))
]

compact_task-hides : (t : Task) → IsPublic (compact_task t)
unfolding compact_task
compact_task-hides t =
    (refl, refl, refl, refl, refl, All-map ShowsNoPath compact_tree compact_tree-hides t.trees)

-- What the server shows of a task, of a tree and of a list of tasks has an empty prompt, no places of
-- the task and no goal path, and of a report at most a mark. Messages and logs are shown as they are.
pub public_task-IsPublic :
    (t : Task) (tree : Tree) (tasks : List Task)
    → IsPublic (public_task t)
      × ShowsNoPath (public_tree tree)
      × All IsPublic (compact_task_list tasks)
unfolding public_task compact_task_list
public_task-IsPublic t tree tasks = (
  (refl, refl, refl, refl, refl, All-map ShowsNoPath public_tree public_tree-hides t.trees),
  public_tree-hides tree,
  All-map IsPublic compact_task compact_task-hides tasks,
)

has_slash : Text → Bool
has_slash = any λ d. d == b'/'

under-has_slash : (dir name : Text) → has_slash (dir ++ b'/' ∷ name) ≡ true
unfolding has_slash
under-has_slash [] name = refl
under-has_slash (c ∷ dir) name = ground (arith, under-has_slash dir name)

after_slash-under : (dir name : Text) → after_slash (dir ++ b'/' ∷ name) ≡ after_slash name
unfolding after_slash has_slash
after_slash-under [] name = refl
after_slash-under (c ∷ dir) name =
    rw (after_slash, under-has_slash (c ∷ dir) name) (after_slash-under dir name)

-- Whether a file is kept back as sensitive, or as hidden or noise, does not depend on the directory
-- that it stands in.
pub is_sensitive_workspace_file-under :
    (dir name : Text)
    → (is_sensitive_workspace_file (dir ++ b'/' ∷ name) ≡ is_sensitive_workspace_file name)
      × (is_hidden_or_noise_file (dir ++ b'/' ∷ name) ≡ is_hidden_or_noise_file name)
unfolding is_sensitive_workspace_file is_hidden_or_noise_file
is_sensitive_workspace_file-under dir name = rw (after_slash-under dir name) (refl, refl)
