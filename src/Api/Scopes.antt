-- ===== src/Api/Scopes.antt =====
-- Which trees a file belongs to, by their scopes: treeScopeMatchers and matchingTreeIDs of
-- internal/app/server.go. filepath.ToSlash changes nothing where the separator is a slash.
use auto_gardener.Api.{has_suffix, text_before}
use auto_gardener.Base.{
  Bool, List, [], any, drop, filter_by, if◌then◌else◌, is_nil, length, map, none, reverse, some,
  ◌++◌, ◌==◌, ◌||◌, ◌∷◌,
}
use auto_gardener.Base.Dict.{insert, lookup}
use auto_gardener.Base.Sort.{sort_by}
use auto_gardener.Models.{Tree}
use auto_gardener.Text.{Text, has_prefix, text_eq, text_of, trim_space}
use auto_gardener.Text.Laws.{text_key}
use auto_gardener.Text.Split.{trim_by}

unfoldable trim_suffix : Text → Text → Text
unfolding has_suffix
trim_suffix s suffix = if has_suffix s suffix then reverse (drop (length suffix) (reverse s)) else s

-- out[tr.ID] = append(out[tr.ID], scope)
add_scope : Text → Text → List (Text × List Text) → List (Text × List Text)
add_scope id raw out =
    let scope = trim_by (λ c. c == b'/') (trim_space raw) in
    if is_nil scope || text_eq scope (text_of ".")
    then out
    else insert id ((elim (lookup id out) [ none ↦ [] | some scopes ↦ scopes ]) ++ scope ∷ []) out

add_scopes : Text → List Text → List (Text × List Text) → List (Text × List Text)
unfolding add_scope
add_scopes id [] out = out
add_scopes id (scope ∷ scopes) out = add_scopes id scopes (add_scope id scope out)

unfoldable pub tree_scope_matchers : List Tree → List (Text × List Text) → List (Text × List Text)
unfolding add_scopes
tree_scope_matchers [] out = out
tree_scope_matchers (tree ∷ trees) out =
    tree_scope_matchers trees
      (if tree.is_validation then out else add_scopes tree.id tree.scope out)

scope_matches : Text → Text → Bool
unfolding trim_suffix has_prefix text_eq
scope_matches rel scope =
    text_eq rel scope
    || has_prefix rel (trim_suffix scope (b'/' ∷ []) ++ b'/' ∷ [])
    || has_prefix scope (rel ++ b'/' ∷ [])

unfoldable pub matching_tree_ids : Text → List (Text × List Text) → List Text
unfolding scope_matches text_before
matching_tree_ids rel matchers = sort_by text_before (
    map (λ (m : Text × List Text). m.0)
      (filter_by (λ (m : Text × List Text). any (scope_matches rel) m.1) matchers))
