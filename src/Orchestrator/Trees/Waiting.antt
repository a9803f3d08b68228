-- ===== src/Orchestrator/Trees/Waiting.antt =====
-- The semaphore and the wait group of runTreeForest of internal/app/orchestrator.go.
use auto_gardener.Base.{
  List, Option, [], ap, arith, inl, inr, length, length-append, none, refl, some, suc, ℕ, ◌*◌, ◌++◌,
  ◌+◌, ◌<◌, ◌∷◌, ◌≡◌, ◌≤◌, ◌⊎◌,
}
use auto_gardener.Models.{Env, TreePlan}
use auto_gardener.Orchestrator.{Run, World}
use auto_gardener.Orchestrator.Attempts.{CliResult}
use auto_gardener.Orchestrator.Trees.{Report, send_out}
use auto_gardener.Orchestrator.Trees.Slots.{
  Pool, Turn, Turns, abandoned, admitted, begun, broken_off, elsewhere, first_pool, own, returned,
  sent, work_left,
}
use auto_gardener.Text.{Text}

-- A list that loses one element.
length-middle {ℓ} :
    {A : Type ℓ} (xs before after : List A) (x : A)
    → xs ≡ before ++ x ∷ after
    → length xs ≡ suc (length (before ++ after))
length-middle xs before after x h =
    omega (arith, ap length h, length-append before (x ∷ after), length-append before after)

module _ (run : Run) (goal_path : Text → Text) (forest slots : ℕ) where
  Turn-held :
      {s t : Pool}
      → Turn run goal_path forest slots s t
      → length s.held ≤ slots
      → length t.held ≤ slots
  Turn-held (sent e s p plans id h k) b = b
  Turn-held (broken_off e s p plans h k) b = b
  Turn-held (admitted e s before after id h k) b = omega arith
  Turn-held (abandoned e s before after id path h k) b = b
  Turn-held (returned e s before after id context result report h) b =
      omega (arith, length-middle s.held before after (id, context) h)

  -- At no time do more trees of a forest run than the semaphore has places, in whatever order the
  -- goroutines come and whatever others do in between.
  pub Turns-held :
      {s t : Pool} {n : ℕ}
      → Turns run goal_path forest slots s n t
      → length s.held ≤ slots
      → length t.held ≤ slots
  Turns-held begun b = b
  Turns-held (own r k) b = Turn-held k (Turns-held r b)
  Turns-held (elsewhere r w) b = Turns-held r b

  Turn-work_left :
      {s t : Pool} → Turn run goal_path forest slots s t → suc (work_left t) ≤ work_left s
  Turn-work_left (sent e s p plans id h k) =
      omega (arith, ap length h, length-append s.waiting (id ∷ []))
  Turn-work_left (broken_off e s p plans h k) = omega (arith, ap length h)
  Turn-work_left (admitted e s before after id h k) =
      omega (arith, length-middle s.waiting before after id h)
  Turn-work_left (abandoned e s before after id path h k) =
      omega (arith, length-middle s.waiting before after id h)
  Turn-work_left (returned e s before after id context result report h) =
      omega (arith, length-middle s.held before after (id, context) h)

  Turns-work_left :
      {s t : Pool} {n : ℕ} → Turns run goal_path forest slots s n t → n + work_left t ≤ work_left s
  Turns-work_left begun = omega arith
  Turns-work_left (own r k) = omega (arith, Turn-work_left k, Turns-work_left r)
  Turns-work_left (elsewhere r w) = Turns-work_left r

  next_held :
      (e : Env) (s : Pool) (r : CliResult) (report : Report)
      → (length s.held ≡ 0) ⊎ ((t : Pool) × Turn run goal_path forest slots s t)
  next_held e s r report = split s.held refl
    where
      split :
          (held : List (Text × Option ℕ))
          → s.held ≡ held
          → (length s.held ≡ 0) ⊎ ((t : Pool) × Turn run goal_path forest slots s t)
      split [] h = inl (ap length h)
      split ((id, context) ∷ more) h = inr (_, returned e s [] more id context r report h)

  next_waiting :
      (e : Env) (s : Pool)
      → 0 < slots
      → length s.held ≡ 0
      → (length s.waiting ≡ 0) ⊎ ((t : Pool) × Turn run goal_path forest slots s t)
  next_waiting e s h free = split s.waiting refl
    where
      split :
          (waiting : List Text)
          → s.waiting ≡ waiting
          → (length s.waiting ≡ 0) ⊎ ((t : Pool) × Turn run goal_path forest slots s t)
      split [] k = inl (ap length k)
      split (id ∷ more) k = inr (_, admitted e s [] more id k (omega arith))

  next_sent :
      (e : Env) (s : Pool)
      → (length s.plans ≡ 0) ⊎ ((t : Pool) × Turn run goal_path forest slots s t)
  next_sent e s = split s.plans refl
    where
      send :
          (p : TreePlan) (more : List TreePlan) (out : Option Text)
          → s.plans ≡ p ∷ more
          → (send_out e run goal_path forest p s.world).1 ≡ out
          → (t : Pool) × Turn run goal_path forest slots s t
      send p more none k o = (_, broken_off e s p more k o)
      send p more (some id) k o = (_, sent e s p more id k o)

      split :
          (plans : List TreePlan)
          → s.plans ≡ plans
          → (length s.plans ≡ 0) ⊎ ((t : Pool) × Turn run goal_path forest slots s t)
      split [] k = inl (ap length k)
      split (p ∷ more) k = inr (send p more (send_out e run goal_path forest p s.world).1 k refl)

  -- No deadlock: with at least one place, a pool with plans to send, trees that wait or trees that run
  -- has a next step, whatever others did to the world.
  pub Turn-or_done :
      (e : Env) (s : Pool) (r : CliResult) (report : Report)
      → 0 < slots
      → (work_left s ≡ 0) ⊎ ((t : Pool) × Turn run goal_path forest slots s t)
  Turn-or_done e s r report h = elim (next_sent e s) [
    | inr k ↦ inr k
    | inl none_left ↦ elim (next_held e s r report) [
      | inr k ↦ inr k
      | inl free ↦ elim (next_waiting e s h free) [ inr k ↦ inr k | inl idle ↦ inl (omega arith) ]
    ]
  ]

  -- The trees of a forest end: with at least one place, whatever happened so far and whatever others
  -- do, a forest of n plans has made at most 3 n steps of its own, and it has a next step until no plan
  -- is left to send, no goroutine waits and none holds a place.
  pub Turns-bounds :
      (e : Env) (w : World) (plans : List TreePlan) (r : CliResult) (report : Report) {t : Pool}
      {n : ℕ}
      → 0 < slots
      → Turns run goal_path forest slots (first_pool w plans) n t
      → (n ≤ 3 * length plans)
        × (((length t.plans ≡ 0) × (length t.waiting ≡ 0) × (length t.held ≡ 0))
            ⊎ ((u : Pool) × Turn run goal_path forest slots t u))
  Turns-bounds e w plans r report {t} h turns = (
    omega (arith, Turns-work_left turns),
    elim (Turn-or_done e t r report h) [
      | inr k ↦ inr k
      | inl idle ↦ inl (omega arith, omega arith, omega arith)
    ],
  )
