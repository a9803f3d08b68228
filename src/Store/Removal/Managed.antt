-- ===== src/Store/Removal/Managed.antt =====
-- Which directories DeleteTask of internal/app/store.go removes.
use auto_gardener.Base.{
  All, All-append, Bool, List, Option, [], any, ap, arith, false, if◌then◌else◌, inl, inr, none,
  not, refl, some, true, ◌&&◌, ◌∙◌, ◌∷◌, ◌≡◌, ◌⊎◌,
}
use auto_gardener.Base.Dict.{lookup, lookup-remove, same_refl}
use auto_gardener.Models.{Task}
use auto_gardener.Orchestrator.Creation.{Paths}
use auto_gardener.Store.{Store, err, ok, remove_failed}
use auto_gardener.Store.Removal.{
  delete_task_dirs, forest_dir, is_below, is_scratch_of, names_task, remove_each, scratch_roots,
  should_delete_managed_scratch, should_delete_managed_workspace, task_dirs,
}
use auto_gardener.Text.{Text, is_blank, text_of}
use auto_gardener.Text.Laws.{text_key}

-- The outcome of one removal before the outcome of the others.
attempt : Bool → Text → List Text × Bool → List Text × Bool
attempt b path (tried, all_gone) = if b then (path ∷ tried, all_gone) else (path ∷ [], false)

attempt-All :
    (P : Text → Type 0) (b : Bool) (path : Text) (more : List Text × Bool)
    → P path
    → All P more.0
    → All P (attempt b path more).0
unfolding attempt
attempt-All P true path more h hs = (h, hs)
attempt-All P false path more h hs = (h, tt)

-- The removals succeed one after the other.
abbrev pub AllGone : (Text → Bool) → List Text → Type 0
AllGone gone = All (λ path. gone path ≡ true)

attempt_complete :
    (b : Bool) (path : Text) (more : List Text × Bool)
    → (attempt b path more).1 ≡ true
    → (b ≡ true) × (more.1 ≡ true) × ((attempt b path more).0 ≡ path ∷ more.0)
unfolding attempt
attempt_complete true path more k = (refl, k, refl)
attempt_complete false path more k = absurd (cc)

remove_each-All :
    (P : Text → Type 0) (gone : Text → Bool) (paths : List Text)
    → All P paths
    → All P (remove_each gone paths).0
unfolding remove_each attempt
remove_each-All P gone [] h = tt
remove_each-All P gone (path ∷ paths) h =
    attempt-All P (gone path) path (remove_each gone paths) h.0 (remove_each-All P gone paths h.1)

remove_each_complete :
    (gone : Text → Bool) (paths : List Text)
    → (remove_each gone paths).1 ≡ true
    → ((remove_each gone paths).0 ≡ paths) × AllGone gone paths
unfolding remove_each attempt
remove_each_complete gone [] h = (refl, tt)
remove_each_complete gone (path ∷ paths) h =
    let (now, rest, same) = attempt_complete (gone path) path (remove_each gone paths) h in
    let (tried, others) = remove_each_complete gone paths rest in
    (same ∙ ap (λ more. path ∷ more) tried, (now, others))

remove_each_verdict :
    (gone : Text → Bool) (paths : List Text)
    → (remove_each gone paths).1 ≡ not (any (λ path. not (gone path)) paths)
unfolding remove_each
remove_each_verdict gone [] = refl
remove_each_verdict gone (path ∷ paths) = ground (arith, remove_each_verdict gone paths)

module _ (f : Paths) (is_abs : Text → Bool) (rel : Text → Text → Option Text) where
  -- A path strictly below a root, under a name that is made of the id of the task.
  pub record IsManaged (root_path id path : Text) : Type 0 where
    pub root : Text
    pub rooted : f.abs root_path ≡ some root
    pub place : Text
    pub placed : f.abs (f.clean path) ≡ some place
    pub below : is_below f is_abs rel root place ≡ true
    pub named : names_task f is_abs rel id place ≡ true

  -- Managed below one of the roots.
  abbrev pub IsManagedIn : Text → Text → List Text → Type 0
  IsManagedIn id path [] = ⊥
  IsManagedIn id path (root_path ∷ roots) = IsManaged root_path id path ⊎ IsManagedIn id path roots

  -- What may be removed for a task.
  pub data IsRemovable (data_dir id : Text) : Text → Type 0 where
    its_forest : IsRemovable data_dir id (forest_dir f is_abs rel data_dir id)
    its_workspace :
        (path : Text)
        → IsManaged (f.join_path data_dir (text_of "workspaces")) id path
        → IsRemovable data_dir id path
    its_scratch :
        (path : Text)
        → IsManagedIn id path (scratch_roots f is_abs rel data_dir)
        → IsRemovable data_dir id path

  should_delete_managed_workspace_lem :
      (data_dir id path : Text)
      → should_delete_managed_workspace f is_abs rel data_dir id path ≡ true
      → IsManaged (f.join_path data_dir (text_of "workspaces")) id path
  unfolding should_delete_managed_workspace
  should_delete_managed_workspace_lem data_dir id path =
      split (is_blank path) (f.abs (f.join_path data_dir (text_of "workspaces")))
        (f.abs (f.clean path)) refl refl
    where
      test : Bool → Option Text → Option Text → Bool
      test blank found placed = if blank then false else (elim found [
        | none ↦ false
        | some root ↦ elim placed [
          | none ↦ false
          | some place ↦ is_below f is_abs rel root place && names_task f is_abs rel id place
        ]
      ])

      split :
          (blank : Bool) (found placed : Option Text)
          → f.abs (f.join_path data_dir (text_of "workspaces")) ≡ found
          → f.abs (f.clean path) ≡ placed
          → test blank found placed ≡ true
          → IsManaged (f.join_path data_dir (text_of "workspaces")) id path
      split true found placed q r h = absurd (cc)
      split false none placed q r h = absurd (cc)
      split false (some root) none q r h = absurd (cc)
      split false (some root) (some place) q r h = record {
        root = root;
        rooted = q;
        place = place;
        placed = r;
        below = ground arith;
        named = ground arith;
      }

  -- One root, before the verdict of the others.
  root_test : Text → Text → Option Text → Bool → Bool
  root_test id place none rest = rest
  root_test id place (some root) rest =
      if is_below f is_abs rel root place then names_task f is_abs rel id place else rest

  root_test_lem :
      (id path place root_path : Text) (roots : List Text) (found : Option Text) (rest : Bool)
      → f.abs (f.clean path) ≡ some place
      → f.abs root_path ≡ found
      → (rest ≡ true → IsManagedIn id path roots)
      → root_test id place found rest ≡ true
      → IsManagedIn id path (root_path ∷ roots)
  unfolding root_test
  root_test_lem id path place root_path roots none rest q p later = λ h. inr (later h)
  root_test_lem id path place root_path roots (some root) rest q p later =
      split (is_below f is_abs rel root place) refl
    where
      split :
          (below : Bool)
          → is_below f is_abs rel root place ≡ below
          → (if below then names_task f is_abs rel id place else rest) ≡ true
          → IsManagedIn id path (root_path ∷ roots)
      split true b h =
          inl (record { root = root; rooted = p; place = place; placed = q; below = b; named = h })
      split false b h = inr (later h)

  is_scratch_of_lem :
      (id path place : Text) (roots : List Text)
      → f.abs (f.clean path) ≡ some place
      → is_scratch_of f is_abs rel id place roots ≡ true
      → IsManagedIn id path roots
  unfolding is_scratch_of root_test
  is_scratch_of_lem id path place [] q h = absurd (cc)
  is_scratch_of_lem id path place (root_path ∷ roots) q h =
      root_test_lem id path place root_path roots (f.abs root_path)
        (is_scratch_of f is_abs rel id place roots) q refl (is_scratch_of_lem id path place roots q)
        (by_found (f.abs root_path) h)
    where
      by_found :
          (found : Option Text)
          → elim found [
            | none ↦ is_scratch_of f is_abs rel id place roots
            | some root ↦
                if is_below f is_abs rel root place
                then names_task f is_abs rel id place
                else is_scratch_of f is_abs rel id place roots
          ]
            ≡ true
          → root_test id place found (is_scratch_of f is_abs rel id place roots) ≡ true
      by_found none h = h
      by_found (some root) h = h

  should_delete_managed_scratch_lem :
      (data_dir id path : Text)
      → should_delete_managed_scratch f is_abs rel data_dir id path ≡ true
      → IsManagedIn id path (scratch_roots f is_abs rel data_dir)
  unfolding should_delete_managed_scratch
  should_delete_managed_scratch_lem data_dir id path =
      split (is_blank path) (f.abs (f.clean path)) refl
    where
      split :
          (blank : Bool) (placed : Option Text)
          → f.abs (f.clean path) ≡ placed
          → (if blank then false else (elim placed [
            | none ↦ false
            | some place ↦ is_scratch_of f is_abs rel id place (scratch_roots f is_abs rel data_dir)
          ]))
            ≡ true
          → IsManagedIn id path (scratch_roots f is_abs rel data_dir)
      split true placed q h = absurd (cc)
      split false none q h = absurd (cc)
      split false (some place) q h =
          is_scratch_of_lem id path place (scratch_roots f is_abs rel data_dir) q h

  when-All :
      (P : Text → Type 0) (b : Bool) (path : Text)
      → (b ≡ true → P path)
      → All P (if b then path ∷ [] else [])
  when-All P true path h = (h refl, tt)
  when-All P false path h = tt

  task_dirs-IsRemovable :
      (data_dir id : Text) (t : Task)
      → All (IsRemovable data_dir id) (task_dirs f is_abs rel data_dir id t)
  unfolding task_dirs
  task_dirs-IsRemovable data_dir id t = (
    its_forest,
    All-append (IsRemovable data_dir id) _ _
        (when-All (IsRemovable data_dir id)
          (should_delete_managed_workspace f is_abs rel data_dir id t.workspace_path)
          t.workspace_path
          (λ h.
            its_workspace t.workspace_path
              (should_delete_managed_workspace_lem data_dir id t.workspace_path h)))
        (when-All (IsRemovable data_dir id)
          (should_delete_managed_scratch f is_abs rel data_dir id t.scratch_path) t.scratch_path
          (λ h.
            its_scratch t.scratch_path
              (should_delete_managed_scratch_lem data_dir id t.scratch_path h))),
  )

  -- DeleteTask touches only the directory of the task among the forests, and of its workspace and its
  -- scratch directory those that lie strictly below a managed root under a name made of the id of the
  -- task. It answers that a removal failed exactly where the removal of one of these fails; otherwise
  -- it has tried all of them, and each removal has succeeded.
  pub delete_task_dirs-IsRemovable :
      (gone : Text → Bool) (data_dir id : Text) (t : Task) (s : Store)
      → lookup id s.tasks ≡ some t
      → let out = delete_task_dirs f is_abs rel gone data_dir id s in
        let dirs = task_dirs f is_abs rel data_dir id t in
        (lookup id out.0.0.tasks ≡ none)
        × All (IsRemovable data_dir id) out.1
        × (out.0.1 ≡ (if any (λ path. not (gone path)) dirs then err remove_failed else ok tt))
        × ((out.0.1 ≡ err remove_failed) ⊎ ((out.1 ≡ dirs) × AllGone gone dirs))
  unfolding delete_task_dirs
  delete_task_dirs-IsRemovable gone data_dir id t s held =
      rw (delete_task_dirs, held)
        (
          rw (lookup-remove id id s.tasks, same_refl id) refl,
          remove_each-All (IsRemovable data_dir id) gone (task_dirs f is_abs rel data_dir id t)
              (task_dirs-IsRemovable data_dir id t),
          verdict (any (λ path. not (gone path)) (task_dirs f is_abs rel data_dir id t)) _
              (remove_each_verdict gone (task_dirs f is_abs rel data_dir id t)),
          all_or_failed (remove_each gone (task_dirs f is_abs rel data_dir id t)).1 refl,
        )
    where
      verdict :
          (fails all_gone : Bool)
          → all_gone ≡ not fails
          → (if all_gone then ok (tt {0}) else err remove_failed)
            ≡ (if fails then err remove_failed else ok (tt {0}))
      verdict true b h = rw h refl
      verdict false b h = rw h refl

      all_or_failed :
          (b : Bool)
          → (remove_each gone (task_dirs f is_abs rel data_dir id t)).1 ≡ b
          → ((if b then ok (tt {0}) else err remove_failed) ≡ err remove_failed)
            ⊎ (((remove_each gone (task_dirs f is_abs rel data_dir id t)).0
                  ≡ task_dirs f is_abs rel data_dir id t)
                × AllGone gone (task_dirs f is_abs rel data_dir id t))
      all_or_failed true h =
          inr (remove_each_complete gone (task_dirs f is_abs rel data_dir id t) h)
      all_or_failed false h = inl refl
