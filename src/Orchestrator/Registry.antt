-- ===== src/Orchestrator/Registry.antt =====
-- Which runs a cancellation reaches, and what a new run of a task does to the run before it.
use auto_gardener.Base.{
  All, All-append, Bool, List, [], any, arith, false, if_elim, refl, some, true, ℕ, ◌++◌, ◌<◌, ◌==◌,
  ◌||◌, ◌∙◌, ◌∷◌, ◌≡◌, ◌≢◌,
}
use auto_gardener.Base.Dict.{lookup, lookup-insert}
use auto_gardener.Models.{Env, new_id}
use auto_gardener.Orchestrator.{
  Run, World, belongs_to, cancel_task_processes, colon, contexts_of, is_active_run, is_cancelled,
  register_run, start_forest_run,
}
use auto_gardener.Text.{Text, has_prefix, text_eq, text_of}
use auto_gardener.Text.Laws.{text_eq_refl, text_eq_iff, text_key}

-- A task's identity has no colon: validAPITaskID of internal/app/server.go admits no other.
abbrev pub HasNoColon : Text → Type 0
HasNoColon = All (λ (c : ℕ). c ≢ b':')

-- The contexts in use are older than the next one.
abbrev pub IsOrdered : World → Type 0
IsOrdered w =
    All (λ (entry : Text × ℕ). entry.1 < w.next_context) w.cancels
    × All (λ (c : ℕ). c < w.next_context) w.cancelled

prefix_colon :
    (a b : Text)
    → HasNoColon a
    → HasNoColon b
    → (k : Text) → has_prefix k (a ++ colon) ≡ true
    → has_prefix k (b ++ colon) ≡ true
    → a ≡ b
unfolding has_prefix
prefix_colon [] [] ha hb k p q = refl
prefix_colon [] (y ∷ b) ha hb [] p q = ground arith
prefix_colon [] (y ∷ b) ha hb (c ∷ k) p q = ground (arith, hb.0)
prefix_colon (x ∷ a) [] ha hb [] p q = ground arith
prefix_colon (x ∷ a) [] ha hb (c ∷ k) p q = ground (arith, ha.0)
prefix_colon (x ∷ a) (y ∷ b) ha hb [] p q = ground arith
prefix_colon (x ∷ a) (y ∷ b) ha hb (c ∷ k) p q = ground (arith, prefix_colon a b ha.1 hb.1 k)

whole_colon : (a b : Text) → HasNoColon a → has_prefix a (b ++ colon) ≡ false
unfolding has_prefix
whole_colon [] [] ha = refl
whole_colon [] (y ∷ b) ha = refl
whole_colon (x ∷ a) [] ha = ground (arith, ha.0)
whole_colon (x ∷ a) (y ∷ b) ha = ground (arith, whole_colon a b ha.1)

-- A key belongs to one task at most.
pub belongs_to_unique :
    (a b key : Text)
    → HasNoColon a
    → HasNoColon b
    → belongs_to a key ≡ true
    → belongs_to b key ≡ true
    → a ≡ b
unfolding belongs_to
belongs_to_unique a b key ha hb p q = ground (
  arith,
  text_eq_iff key a,
  text_eq_iff key b,
  prefix_colon a b ha hb key,
  whole_colon key a,
  whole_colon key b,
)

pub contexts_of-lookup :
    (task_id key : Text) (c : ℕ) (m : List (Text × ℕ))
    → lookup key m ≡ some c
    → belongs_to task_id key ≡ true
    → any (λ (d : ℕ). c == d) (contexts_of task_id m) ≡ true
unfolding contexts_of lookup
contexts_of-lookup task_id key c [] p q = ground arith
contexts_of-lookup task_id key c ((k, d) ∷ more) p q =
    ground (arith, text_eq_iff k key, contexts_of-lookup task_id key c more)

any-append_left : (p : ℕ → Bool) (xs ys : List ℕ) → any p xs ≡ true → any p (xs ++ ys) ≡ true
any-append_left p [] ys h = ground arith
any-append_left p (x ∷ xs) ys h = ground (arith, any-append_left p xs ys)

pub any-append : (p : ℕ → Bool) (xs ys : List ℕ) → any p (xs ++ ys) ≡ (any p xs || any p ys)
any-append p [] ys = refl
any-append p (x ∷ xs) ys = ground (arith, any-append p xs ys)

below-any : (n : ℕ) (xs : List ℕ) → All (λ (c : ℕ). c < n) xs → any (λ (d : ℕ). n == d) xs ≡ false
below-any n [] h = refl
below-any n (x ∷ xs) h = ground (arith, h.0, below-any n xs h.1)

contexts_of-below :
    (n : ℕ) (task_id : Text) (m : List (Text × ℕ))
    → All (λ (entry : Text × ℕ). entry.1 < n) m
    → All (λ (c : ℕ). c < n) (contexts_of task_id m)
unfolding contexts_of
contexts_of-below n task_id [] h = tt
contexts_of-below n task_id ((k, c) ∷ more) h =
    let rest = contexts_of-below n task_id more h.1 in
    if_elim (All (λ (c : ℕ). c < n)) (belongs_to task_id k) (c ∷ contexts_of task_id more)
      (contexts_of task_id more) (h.0, rest) rest

is_active_run-at :
    (task_id run_id r : Text) (w : World)
    → lookup task_id w.active_runs ≡ some r
    → is_active_run task_id run_id w ≡ text_eq r run_id
unfolding is_active_run
is_active_run-at task_id run_id r w h = rw (h, is_active_run) refl

-- The run that a registration makes the active one.
pub start_forest_run-active :
    (e : Env) (w : World) (task_id instruction run_id : Text)
    → is_active_run task_id run_id (start_forest_run e task_id instruction w).0
      ≡ text_eq (new_id e 0 (text_of "run")) run_id
unfolding start_forest_run register_run cancel_task_processes
start_forest_run-active e w task_id instruction run_id =
    let new = new_id e 0 (text_of "run") in
    is_active_run-at task_id run_id new (start_forest_run e task_id instruction w).0
      (lookup-insert task_id task_id new w.active_runs ∙ rw (text_eq_refl task_id) refl)

-- A new run of a task takes the place of the run before it. The old run, whose cancel function was
-- in the registry under a key of its task, is cancelled and, unless the identities of the two runs
-- are equal, no longer the active one. The new run is the active one, and is not cancelled where
-- the contexts in use are older than the next one.
pub start_forest_run-supersedes :
    (e : Env) (w : World) (instruction : Text) (old : Run)
    → IsOrdered w
    → lookup old.key w.cancels ≡ some old.context
    → belongs_to old.task_id old.key ≡ true
    → text_eq (new_id e 0 (text_of "run")) old.run_id ≡ false
    → let (w', new) = start_forest_run e old.task_id instruction w in
      (is_cancelled old.context w' ≡ true)
      × (is_active_run old.task_id old.run_id w' ≡ false)
      × (is_active_run new.task_id new.run_id w' ≡ true)
      × (is_cancelled new.context w' ≡ false)
unfolding start_forest_run cancel_task_processes register_run is_cancelled is_active_run
start_forest_run-supersedes e w instruction old ordered h b ne =
    let run_id = new_id e 0 (text_of "run") in
    let fresh =
      All-append (λ (c : ℕ). c < w.next_context) (contexts_of old.task_id w.cancels) w.cancelled
        (contexts_of-below w.next_context old.task_id w.cancels ordered.0) ordered.1 in
    (
      any-append (λ d. old.context == d) (contexts_of old.task_id w.cancels) w.cancelled
          ∙ rw (contexts_of-lookup old.task_id old.key old.context w.cancels h b) refl,
      start_forest_run-active e w old.task_id instruction old.run_id ∙ ne,
      start_forest_run-active e w old.task_id instruction run_id ∙ text_eq_refl run_id,
      below-any w.next_context _ fresh,
    )
