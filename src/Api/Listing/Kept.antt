-- ===== src/Api/Listing/Kept.antt =====
-- Which files internal/app/server.go lists for a task, and how many.
use mathlib.Core.Path.{subst}
use auto_gardener.Api.{is_hidden_or_noise_file, is_sensitive_workspace_file}
use auto_gardener.Api.Listing.{
  FileFilter, Walk, WorkspaceFileEntry, dir_entry, file_entry, file_filter, is_older_file,
  list_workspace_files, listed_as, max_listed_files, no_entry, passes, path_before, skips_dir,
  unreadable, visit_file, walk_dir,
}
use auto_gardener.Api.Scopes.{matching_tree_ids}
use auto_gardener.Base.{
  All, All-append, Bool, List, Option, [], arith, false, if◌then◌else◌, is_nil, leb, length,
  length-append, none, not, refl, some, true, ℕ, ◌++◌, ◌||◌, ◌∷◌, ◌≡◌, ◌≤◌,
}
use auto_gardener.Base.Sort.{length-sort_by, sort_by, sort_by-All}
use auto_gardener.Models.{Env, Task}
use auto_gardener.Orchestrator.Creation.{Paths}
use auto_gardener.Store.{Store}
use auto_gardener.Text.{Text, has_prefix, text_of}

-- A listed file: it has a plain name that gives no secret away, its trees are those of its scopes, and
-- the filter lets it pass.
pub record IsListed (q : FileFilter) (file : WorkspaceFileEntry) : Type 0 where
  pub plain : is_hidden_or_noise_file file.path ≡ false
  pub open_name : is_sensitive_workspace_file file.path ≡ false
  pub inside : has_prefix file.path (text_of "..") ≡ false
  pub its_trees : file.tree_ids ≡ matching_tree_ids file.path q.matches
  pub wanted : passes q file.tree_ids ≡ true

-- The invariant of the walk.
abbrev pub IsListing : FileFilter → List WorkspaceFileEntry → Type 0
IsListing q files = All (IsListed q) files × (length files ≤ max_listed_files)

same_files : (xs ys : List WorkspaceFileEntry) → some xs ≡ some ys → xs ≡ ys
same_files xs ys h = ground arith

module _ (f : Paths) (rel : Text → Text → Option Text) where
  listed_as-IsListing :
      (q : FileFilter) (size mod_time : ℕ) (path : Text) (files : List WorkspaceFileEntry)
      → IsListing q files
      → leb max_listed_files (length files) ≡ false
      → IsListing q (listed_as f rel q size mod_time path files)
  unfolding listed_as
  listed_as-IsListing q size mod_time path files h room =
      split (has_prefix path (text_of "..")) (is_hidden_or_noise_file path)
        (is_sensitive_workspace_file path) (passes q (matching_tree_ids path q.matches)) refl refl
        refl refl
    where
      entry : WorkspaceFileEntry
      entry = record {
        path = path;
        size = size;
        mod_time = mod_time;
        tree_ids = matching_tree_ids path q.matches;
      }

      split :
          (out hidden secret pass : Bool)
          → has_prefix path (text_of "..") ≡ out
          → is_hidden_or_noise_file path ≡ hidden
          → is_sensitive_workspace_file path ≡ secret
          → passes q (matching_tree_ids path q.matches) ≡ pass
          → IsListing q (
              if out
              then files
              else if hidden || secret
              then files
              else if not pass
              then files
              else files ++ entry ∷ [])
      split true hidden secret pass a b c d = h
      split false true secret pass a b c d = h
      split false false true pass a b c d = h
      split false false false false a b c d = h
      split false false false true a b c d = (
        All-append (IsListed q) files (entry ∷ []) h.0
            (record { plain = b; open_name = c; inside = a; its_trees = refl; wanted = d }, tt),
        ground (arith, length-append files (entry ∷ [])),
      )

  visit_file-IsListing :
      (t : Task) (q : FileFilter) (root path : Text) (info : Option (ℕ × ℕ))
      (files : List WorkspaceFileEntry)
      → IsListing q files
      → leb max_listed_files (length files) ≡ false
      → IsListing q (visit_file f rel t q root path info files)
  unfolding visit_file
  visit_file-IsListing t q root path none files h room = h
  visit_file-IsListing t q root path (some (size, mod_time)) files h room =
      split (is_older_file f rel t mod_time) (rel root path)
    where
      split :
          (older : Bool) (found : Option Text)
          → IsListing q (
              if older then files else (elim found [
                | none ↦ files
                | some rel_path ↦ listed_as f rel q size mod_time rel_path files
              ]))
      split true found = h
      split false none = h
      split false (some rel_path) = listed_as-IsListing q size mod_time rel_path files h room

  if-IsListing :
      (q : FileFilter) (b : Bool) (xs ys : List WorkspaceFileEntry)
      → IsListing q xs
      → (b ≡ false → IsListing q ys)
      → IsListing q (if b then xs else ys)
  if-IsListing q true xs ys h k = h
  if-IsListing q false xs ys h k = k refl

  walk_dir-IsListing :
      (e : Env) (t : Task) (s : Store) (q : FileFilter) (root : Text) (walk : Walk)
      (files : List WorkspaceFileEntry)
      → IsListing q files
      → IsListing q (walk_dir f rel e t s q root walk files)
  unfolding walk_dir
  walk_dir-IsListing e t s q root no_entry files h = h
  walk_dir-IsListing e t s q root (unreadable more) files h =
      walk_dir-IsListing e t s q root more files h
  walk_dir-IsListing e t s q root (dir_entry name path below more) files h =
      walk_dir-IsListing e t s q root more _ (
        if-IsListing q (skips_dir f rel e t s root name path) files _ h
          (λ go. walk_dir-IsListing e t s q root below files h))
  walk_dir-IsListing e t s q root (file_entry path info more) files h =
      walk_dir-IsListing e t s q root more _ (
        if-IsListing q (leb max_listed_files (length files)) files _ h
          (λ room. visit_file-IsListing t q root path info files h room))

  -- Every list of files that is given for a task has at most 500 files, none of them hidden, in the
  -- way of a secret or outside, each with the trees whose scopes it matches, and each let through by
  -- the filter of the request.
  pub list_workspace_files-IsListing :
      (e : Env) (t : Task) (s : Store) (tree : Text → Option Walk) (tree_query forest_query : Text)
      (files : List WorkspaceFileEntry)
      → list_workspace_files f rel e t s tree tree_query forest_query ≡ some files
      → All (IsListed (file_filter f rel t tree_query forest_query)) files
        × (length files ≤ max_listed_files)
  unfolding list_workspace_files
  list_workspace_files-IsListing e t s tree tree_query forest_query files =
      split (f.abs (f.clean t.workspace_path))
    where
      q : FileFilter
      q = file_filter f rel t tree_query forest_query

      listed : Text → Option Walk → Option (List WorkspaceFileEntry)
      listed root none = some []
      listed root (some walk) =
          some (sort_by (path_before f rel) (walk_dir f rel e t s q root walk []))

      split_walk :
          (root : Text) (walk : Option Walk)
          → listed root walk ≡ some files
          → All (IsListed q) files × (length files ≤ max_listed_files)
      split_walk root none h =
          subst (λ xs. All (IsListed q) xs × (length xs ≤ max_listed_files)) (same_files _ files h)
            (tt, omega arith)
      split_walk root (some walk) h =
          let (each, few) = walk_dir-IsListing e t s q root walk [] (tt, omega arith) in
          subst (λ xs. All (IsListed q) xs × (length xs ≤ max_listed_files)) (same_files _ files h)
            (
              sort_by-All (path_before f rel) (IsListed q) _ each,
              rw (length-sort_by (path_before f rel) (walk_dir f rel e t s q root walk [])) few,
            )

      split :
          (found : Option Text)
          → elim found [
            | none ↦ none
            | some root ↦ if is_nil root then none else listed root (tree root)
          ]
            ≡ some files
          → All (IsListed q) files × (length files ≤ max_listed_files)
      split none h = absurd (cc)
      split (some []) h = absurd (cc)
      split (some (c ∷ root)) h = split_walk (c ∷ root) (tree (c ∷ root)) h
