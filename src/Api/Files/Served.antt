-- ===== src/Api/Files/Served.antt =====
-- Which files internal/app/server.go sends for a task.
use mathlib.Core.Path.{subst}
use auto_gardener.Api.{is_sensitive_workspace_file}
use auto_gardener.Api.Files.{
  FileReply, bad_path, bad_place, downloaded, is_inside_other_task_workspace, is_within,
  other_place, outside_place, previewed, send_stat, sensitive_file, serve_below, serve_path,
  serve_workspace_file,
}
use auto_gardener.Base.{
  Bool, Option, [], arith, false, if◌then◌else◌, is_nil, none, not, refl, some, true, ℕ, ◌||◌, ◌∷◌,
  ◌≡◌,
}
use auto_gardener.Models.{Env, Task}
use auto_gardener.Orchestrator.Creation.{Paths}
use auto_gardener.Store.{Store}
use auto_gardener.Text.{Text, has_prefix, text_eq, text_of, trim_prefix}

-- The file that a reply sends.
unfoldable pub sent_file : FileReply → Option Text
sent_file (downloaded p) = some p
sent_file (previewed p) = some p
sent_file _ = none

module _ (f : Paths) (is_abs : Text → Bool) (stat : Text → Option (Bool × ℕ)) (e : Env)
    (s : Store) where
  -- A file that may be sent: below the workspace of the task, under a name that gives no secret away,
  -- a file and no directory, and not in the workspace of another task.
  pub record IsServable (task : Task) (raw path : Text) : Type 0 where
    pub root : Text
    pub rooted : f.abs (f.clean task.workspace_path) ≡ some root
    pub inside : is_within root path ≡ true
    pub plain_name : is_sensitive_workspace_file (f.clean (trim_prefix raw (text_of "/"))) ≡ false
    pub apart : is_inside_other_task_workspace f is_abs stat e task root path s ≡ false
    pub is_file : (size : ℕ) × (stat path ≡ some (false, size))

  send_stat-file :
      (download : Bool) (path out : Text) (found : Option (Bool × ℕ))
      → sent_file (send_stat f is_abs stat download path found) ≡ some out
      → (path ≡ out) × (size : ℕ) × (found ≡ some (false, size))
  unfolding send_stat sent_file
  send_stat-file download path out none h = absurd (cc)
  send_stat-file download path out (some (true, size)) h = absurd (cc)
  send_stat-file true path out (some (false, size)) h = (cc, size, refl)
  send_stat-file false path out (some (false, size)) h = (ground arith, size, refl)

  -- The tests of an absolute path, in their order.
  serve_tests : Bool → Bool → FileReply → FileReply
  serve_tests inside other_one reply =
      if not inside then outside_place else if other_one then other_place else reply

  serve_tests-sent :
      (inside other_one : Bool) (reply : FileReply) (out : Text)
      → sent_file (serve_tests inside other_one reply) ≡ some out
      → (inside ≡ true) × (other_one ≡ false) × (sent_file reply ≡ some out)
  unfolding serve_tests sent_file
  serve_tests-sent false other_one reply out h = absurd (cc)
  serve_tests-sent true true reply out h = absurd (cc)
  serve_tests-sent true false reply out h = (refl, refl, h)

  serve_path-sent :
      (task : Task) (root path out : Text) (download : Bool)
      → sent_file (serve_path f is_abs stat e task root download path s) ≡ some out
      → (path ≡ out)
        × (is_within root path ≡ true)
        × (is_inside_other_task_workspace f is_abs stat e task root path s ≡ false)
        × (size : ℕ) × (stat path ≡ some (false, size))
  unfolding serve_path serve_tests
  serve_path-sent task root path out download h =
      let (inside, apart, reply) =
        serve_tests-sent (is_within root path)
          (is_inside_other_task_workspace f is_abs stat e task root path s)
          (send_stat f is_abs stat download path (stat path)) out h in
      let (same, size, found) = send_stat-file download path out (stat path) reply in
      (same, inside, apart, size, found)

  serve_below-sent :
      (task : Task) (root raw out : Text) (download : Bool)
      → f.abs (f.clean task.workspace_path) ≡ some root
      → sent_file (
          serve_below f is_abs stat e task root download
            (f.clean (trim_prefix raw (text_of "/")))
            s)
        ≡ some out
      → IsServable task raw out
  unfolding serve_below
  serve_below-sent task root raw out download rooted =
      let rel = f.clean (trim_prefix raw (text_of "/")) in
      split (text_eq rel (text_of ".") || has_prefix rel (text_of "..") || is_abs rel)
        (is_sensitive_workspace_file rel) (f.abs (f.clean (f.join_path root rel))) refl
    where
      rel : Text
      rel = f.clean (trim_prefix raw (text_of "/"))

      reply : Bool → Bool → Option Text → FileReply
      reply odd secret found =
          if odd then bad_path else if secret then sensitive_file else (elim found [
            | none ↦ outside_place
            | some path ↦ serve_path f is_abs stat e task root download path s
          ])

      split :
          (odd secret : Bool) (found : Option Text)
          → is_sensitive_workspace_file rel ≡ secret
          → sent_file (reply odd secret found) ≡ some out
          → IsServable task raw out
      split true secret found q h = absurd (unfold sent_file in cc)
      split false true found q h = absurd (unfold sent_file in cc)
      split false false none q h = absurd (unfold sent_file in cc)
      split false false (some path) q h =
          let (same, inside, apart, size, found) = serve_path-sent task root path out download h in
          subst (IsServable task raw) same (record {
            root = root;
            rooted = rooted;
            inside = inside;
            plain_name = q;
            apart = apart;
            is_file = (size, found);
          })

  -- Every file that is sent for a task, to look at or to keep, is one that may be sent.
  pub serve_workspace_file-IsServable :
      (task : Task) (download : Bool) (raw out : Text)
      → sent_file (serve_workspace_file f is_abs stat e task download raw s) ≡ some out
      → IsServable task raw out
  unfolding serve_workspace_file
  serve_workspace_file-IsServable task download raw out =
      split (f.abs (f.clean task.workspace_path)) refl
    where
      reply : Option Text → FileReply
      reply none = bad_place
      reply (some root) =
          if is_nil root
          then bad_place
          else serve_below f is_abs stat e task root download
              (f.clean (trim_prefix raw (text_of "/"))) s

      split :
          (found : Option Text)
          → f.abs (f.clean task.workspace_path) ≡ found
          → sent_file (reply found) ≡ some out
          → IsServable task raw out
      split none q h = absurd (unfold sent_file in cc)
      split (some []) q h = absurd (unfold sent_file in cc)
      split (some (c ∷ root)) q h = serve_below-sent task (c ∷ root) raw out download q h
