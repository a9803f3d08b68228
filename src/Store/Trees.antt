-- ===== src/Store/Trees.antt =====
-- What an update of a tree does to the trees of its task.
use auto_gardener.Base.{
  Bool, Bool-cases, List, [], any, ap, arith, false, find_first, if_elim, inl, inr, is_nil, refl,
  some, true, ◌∙◌, ◌∷◌, ◌≡◌,
}
use auto_gardener.Base.Dict.{lookup}
use auto_gardener.Models.{Env, Task, Tree}
use auto_gardener.Progress.{compact_progress_line}
use auto_gardener.Store.{
  Store, append_tree_progress, change_tree, clone_task, find_tree, ok, update_tree, with_tree,
}
use auto_gardener.Store.Lookup.{changed, get_task-at, update_task_lem}
use auto_gardener.Text.{Text, text_eq}
use auto_gardener.Text.Laws.{text_eq_refl, text_eq→≡, text_key}

abbrev pub has_id : Text → Tree → Bool
has_id tree_id tree = text_eq tree.id tree_id

-- The change of a tree keeps its identity.
abbrev pub KeepsId : (Tree → Tree) → Type 0
KeepsId fn = (tree : Tree) → (fn tree).id ≡ tree.id

find-change_tree :
    (tree_id : Text) (fn : Tree → Tree) (trees : List Tree) (tree : Tree)
    → KeepsId fn
    → find_first (has_id tree_id) trees ≡ some tree
    → find_first (has_id tree_id) (change_tree tree_id fn trees) ≡ some (fn tree)
unfolding change_tree
find-change_tree tree_id fn [] tree k h = ground arith
find-change_tree tree_id fn (x ∷ more) tree k h = elim (Bool-cases (text_eq x.id tree_id)) [
  | inl e ↦
      rw (change_tree, e)
        (rw (ap (λ i. text_eq i tree_id) (k x) ∙ e) (ap some (ap fn (found_here e))))
  | inr e ↦ rw (change_tree, e) (rw e (find-change_tree tree_id fn more tree k (found_later e)))
]
  where
    found_here : text_eq x.id tree_id ≡ true → x ≡ tree
    found_here e = ground arith

    found_later : text_eq x.id tree_id ≡ false → find_first (has_id tree_id) more ≡ some tree
    found_later e = ground arith

passed :
    (tree_id sibling : Text) (fn : Tree → Tree) (y : Tree) (more : List Tree)
    → KeepsId fn
    → text_eq tree_id sibling ≡ false
    → text_eq y.id tree_id ≡ true
    → find_first (has_id sibling) (fn y ∷ more) ≡ find_first (has_id sibling) (y ∷ more)
passed tree_id sibling fn y more k ne e =
    let ne' = ap (λ i. text_eq i sibling) (text_eq→≡ y.id tree_id e) ∙ ne in
    rw (ap (λ i. text_eq i sibling) (k y) ∙ ne', ne') refl

find-change_tree_sibling :
    (tree_id sibling : Text) (fn : Tree → Tree) (trees : List Tree)
    → KeepsId fn
    → text_eq tree_id sibling ≡ false
    → find_first (has_id sibling) (change_tree tree_id fn trees) ≡ find_first (has_id sibling) trees
unfolding change_tree
find-change_tree_sibling tree_id sibling fn [] k ne = refl
find-change_tree_sibling tree_id sibling fn (x ∷ more) k ne =
    elim (Bool-cases (text_eq x.id tree_id)) [
      | inl e ↦ rw (change_tree, e) (passed tree_id sibling fn x more k ne e)
      | inr e ↦
          rw (change_tree, e) (rw (find-change_tree_sibling tree_id sibling fn more k ne) refl)
    ]

any-found :
    (p : Tree → Bool) (trees : List Tree) (tree : Tree)
    → find_first p trees ≡ some tree
    → any p trees ≡ true
any-found p [] tree h = ground arith
any-found p (x ∷ more) tree h = ground (arith, any-found p more tree)

find_tree-at :
    (e : Env) (task_id tree_id : Text) (s : Store) (t : Task) (tree : Tree)
    → lookup task_id s.tasks ≡ some t
    → find_first (has_id tree_id) t.trees ≡ some tree
    → find_tree e task_id tree_id s ≡ ok tree
unfolding find_tree clone_task
find_tree-at e task_id tree_id s t tree p q =
    rw (find_tree, get_task-at e task_id s t p) (rw q refl)

with_tree-trees :
    (e : Env) (tree_id : Text) (fn : Tree → Tree) (t : Task) (tree : Tree)
    → find_first (has_id tree_id) t.trees ≡ some tree
    → (with_tree e tree_id fn t).trees
      ≡ change_tree tree_id (λ x. record (fn x) { updated_at = e.now }) t.trees
unfolding with_tree
with_tree-trees e tree_id fn t tree q =
    rw (with_tree, any-found (has_id tree_id) t.trees tree q) refl

-- A tree that is there is changed, and found as changed; another tree of the task is found as it
-- was, and another task is as it was. The change keeps the identity of the tree.
pub update_tree_lem :
    (e : Env) (task_id tree_id sibling j : Text) (fn : Tree → Tree) (s : Store) (t : Task)
    (tree u : Tree)
    → KeepsId fn
    → lookup task_id s.tasks ≡ some t
    → find_first (has_id tree_id) t.trees ≡ some tree
    → text_eq tree_id sibling ≡ false
    → find_first (has_id sibling) t.trees ≡ some u
    → text_eq task_id j ≡ false
    → let s' = (update_tree e task_id tree_id fn s).0 in
      (find_tree e task_id tree_id s' ≡ ok (record (fn tree) { updated_at = e.now }))
      × (find_tree e task_id sibling s' ≡ ok u)
      × (lookup j s'.tasks ≡ lookup j s.tasks)
unfolding update_tree
update_tree_lem e task_id tree_id sibling j fn s t tree u k p q ne r apart =
    let stamp : Tree → Tree = λ x. record (fn x) { updated_at = e.now } in
    let (at, _) = update_task_lem e task_id (with_tree e tree_id fn) s t p in
    let t' = changed e task_id (with_tree e tree_id fn) s t in
    let here = at task_id ∙ rw (text_eq_refl task_id) refl in
    (
      find_tree-at e task_id tree_id _ t' (stamp tree) here (
          rw (with_tree-trees e tree_id fn t tree q)
            (find-change_tree tree_id stamp t.trees tree k q)),
      (find_tree-at e task_id sibling _ t' u here (
          rw (with_tree-trees e tree_id fn t tree q)
            (find-change_tree_sibling tree_id sibling stamp t.trees k ne ∙ r))),
      at j ∙ rw apart refl,
    )

-- The task has the tree, and the tree is as `P` says.
abbrev pub HasTree : (Tree → Type 0) → Text → Text → Store → Type 0
HasTree P task_id tree_id s =
    (t : Task) × (lookup task_id s.tasks ≡ some t)
    × (tree : Tree) × (find_first (has_id tree_id) t.trees ≡ some tree)
    × P tree

pub HasTree-update_tree :
    (P Q : Tree → Type 0) (e : Env) (task_id tree_id : Text) (fn : Tree → Tree) (s : Store)
    → KeepsId fn
    → ((tree : Tree) → P tree → Q (record (fn tree) { updated_at = e.now }))
    → HasTree P task_id tree_id s
    → HasTree Q task_id tree_id (update_tree e task_id tree_id fn s).0
unfolding update_tree
HasTree-update_tree P Q e task_id tree_id fn s k step (t, p, tree, q, h) =
    let stamp : Tree → Tree = λ x. record (fn x) { updated_at = e.now } in
    let (at, _) = update_task_lem e task_id (with_tree e tree_id fn) s t p in
    (
      changed e task_id (with_tree e tree_id fn) s t,
      at task_id ∙ rw (text_eq_refl task_id) refl,
      stamp tree,
      rw (with_tree-trees e tree_id fn t tree q) (find-change_tree tree_id stamp t.trees tree k q),
      step tree h,
    )

pub HasTree-append_tree_progress :
    (P : Tree → Type 0) (e : Env) (task_id tree_id raw : Text) (s : Store)
    → ((tree : Tree) (rows : List Text)
        → P tree
        → P (record tree { progress = rows; updated_at = e.now }))
    → HasTree P task_id tree_id s
    → HasTree P task_id tree_id (append_tree_progress e task_id tree_id raw s)
unfolding append_tree_progress
HasTree-append_tree_progress P e task_id tree_id raw s step h =
    if_elim (HasTree P task_id tree_id) (is_nil (compact_progress_line raw)) s _ h
      (HasTree-update_tree P P e task_id tree_id _ s (λ tree. refl) (λ tree. step tree _) h)
