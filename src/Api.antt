-- ===== src/Api.antt =====
-- internal/app/server.go: which identities of tasks are let through, what of a task and its trees is
-- shown, and which files of a workspace are kept back.
pub mod Hiding
pub mod Files
pub mod Scopes
pub mod Listing
pub mod Routes
use auto_gardener.Base.{
  Bool, List, Option, [], any, false, filter_by, if◌then◌else◌, is_nil, leb, ltb, map, none, not,
  reverse, some, true, ℕ, ◌&&◌, ◌==◌, ◌||◌, ◌∷◌,
}
use auto_gardener.Base.Sort.{sort_by}
use auto_gardener.Models.{Task, Tree}
use auto_gardener.Text.{Text, byte_length, has_prefix, is_blank, text_eq, text_of, to_lower}
use auto_gardener.Text.Number.{negsuc, parse_int, pos, ℤ}

abbrev pub max_api_task_id_length : ℕ
max_api_task_id_length = 80

is_id_rune : ℕ → Bool
is_id_rune c =
    c == b'-'
    || c == b'_'
    || (leb b'A' c && leb c b'Z')
    || (leb b'a' c && leb c b'z')
    || (leb b'0' c && leb c b'9')

unfoldable pub valid_api_task_id : Text → Bool
unfolding is_id_rune byte_length
valid_api_task_id id =
    not (is_nil id || ltb max_api_task_id_length (byte_length id))
    && not (any (λ c. not (is_id_rune c)) id)

unfoldable pub public_ready_marker : Text → Text
unfolding text_of
public_ready_marker path = if is_blank path then [] else text_of "ready"

unfoldable pub public_tree : Tree → Tree
unfolding public_ready_marker
public_tree tree = record tree { fruit_path = public_ready_marker tree.fruit_path; goal_path = [] }

unfoldable pub public_task : Task → Task
unfolding public_tree
public_task t = record t {
  prompt = [];
  workspace_path = [];
  scratch_path = [];
  schedule_path = [];
  log_path = [];
  trees = map public_tree t.trees;
}

compact_tree : Tree → Tree
unfolding text_of
compact_tree tree = record {
  id = tree.id;
  task_id = tree.task_id;
  forest = tree.forest;
  name = tree.name;
  objective = [];
  prompt = [];
  scope = [];
  is_validation = tree.is_validation;
  status = tree.status;
  progress = [];
  fruit_path = if is_nil tree.fruit_path then [] else text_of "ready";
  goal_path = [];
  started_at = none;
  completed_at = none;
  updated_at = tree.updated_at;
}

compact_task : Task → Task
unfolding compact_tree
compact_task t = record t {
  prompt = [];
  workspace_path = [];
  scratch_path = [];
  schedule_path = [];
  log_path = [];
  messages = [];
  gardener_progress = [];
  trees = map compact_tree t.trees;
}

unfoldable pub compact_task_list : List Task → List Task
unfolding compact_task
compact_task_list = map compact_task

-- The trees of a forest, sorted by their identities; `forest` is what strconv.Atoi reads.
text_before : Text → Text → Bool
text_before [] [] = false
text_before [] (b ∷ t) = true
text_before (a ∷ s) [] = false
text_before (a ∷ s) (b ∷ t) = let rest = text_before s t in if a == b then rest else ltb a b

pub wanted_tree : ℕ → Tree → Bool
wanted_tree forest tree = tree.forest == forest && not tree.is_validation

read_forest : Option ℤ → Option ℕ
read_forest none = none
read_forest (some (negsuc n)) = none
read_forest (some (pos n)) = if n == 0 then none else some n

unfoldable pub tree_ids_for_forest : Task → Text → List Text
unfolding text_before wanted_tree read_forest
tree_ids_for_forest t filter = elim (read_forest (parse_int filter)) [
  | none ↦ []
  | some forest ↦
      sort_by text_before (map (λ (tree : Tree). tree.id) (filter_by (wanted_tree forest) t.trees))
]

unfoldable pub intersects_string : List Text → List Text → Bool
unfolding text_eq
intersects_string items targets = any (λ item. any (text_eq item) targets) items

-- filepath.Base of a relative path with `/`: what stands after the last one.
unfoldable pub after_slash : Text → Text
after_slash [] = []
after_slash (c ∷ s) =
    let rest = after_slash s in if any (λ d. d == b'/') (c ∷ s) then rest else c ∷ s

has_suffix : Text → Text → Bool
unfolding has_prefix
has_suffix s suffix = has_prefix (reverse s) (reverse suffix)

unfoldable pub is_sensitive_workspace_file : Text → Bool
unfolding after_slash has_suffix text_of to_lower text_eq
is_sensitive_workspace_file rel =
    let base = to_lower (after_slash rel) in
    text_eq base (text_of ".env")
    || has_prefix base (text_of ".env.")
    || any (text_eq base) (
        text_of ".npmrc"
        ∷ text_of ".pypirc"
        ∷ text_of ".netrc"
        ∷ text_of "id_rsa"
        ∷ text_of "id_dsa"
        ∷ text_of "id_ecdsa"
        ∷ text_of "id_ed25519"
        ∷ [])
    || has_suffix base (text_of ".pem")
    || has_suffix base (text_of ".key")

unfoldable pub is_hidden_or_noise_file : Text → Bool
unfolding after_slash has_suffix text_of to_lower text_eq has_prefix
is_hidden_or_noise_file rel =
    let base = after_slash rel in
    let lower = to_lower base in
    has_prefix base (b'.' ∷ [])
    || any (text_eq lower)
        (text_of "package-lock.json" ∷ text_of "pnpm-lock.yaml" ∷ text_of "yarn.lock" ∷ [])
    || any (has_suffix lower) (
        text_of ".tmp"
        ∷ text_of ".temp"
        ∷ text_of ".part"
        ∷ text_of ".crdownload"
        ∷ text_of ".log"
        ∷ text_of ".bak"
        ∷ [])
