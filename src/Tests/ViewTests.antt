-- ===== src/Tests/ViewTests.antt =====
-- The theorems on usage and on what the server lets through, at concrete records and requests.
use auto_gardener.Api.{is_sensitive_workspace_file, public_task}
use auto_gardener.Api.Files.{serve_workspace_file}
use auto_gardener.Api.Files.Served.{IsServable, sent_file, serve_workspace_file-IsServable}
use auto_gardener.Api.Listing.{
  Walk, WorkspaceFileEntry, dir_entry, file_entry, file_filter, list_workspace_files,
  max_listed_files, no_entry,
}
use auto_gardener.Api.Listing.Kept.{IsListed, list_workspace_files-IsListing}
use auto_gardener.Api.Routes.{ApiRequest, event_stream, handle_task_subroutes}
use auto_gardener.Base.{
  All, List, Option, [], any, arith, drop, false, if◌then◌else◌, length, none, not, refl, some,
  true, ◌++◌, ◌+◌, ◌||◌, ◌∷◌, ◌≡◌, ◌≤◌, ◌⊎◌,
}
use auto_gardener.Base.Dict.{insert, lookup}
use auto_gardener.Base.Sort.{sort_by}
use auto_gardener.Hub.{new_event_hub, subscribe}
use auto_gardener.Models.{Task}
use auto_gardener.Orchestrator.Creation.{Paths}
use auto_gardener.Origin.{
  Net, Request, Url, allowed_origin_hosts, configured_allowed_origins, hosts_match_for_csrf,
  is_unsafe_method, reject_cross_origin_api_writes, request_from_trusted_proxy,
  request_has_same_origin, request_origin_allowed,
}
use auto_gardener.Origin.Hosts.{IsSameHost, named_page, reject_cross_origin_api_writes_lem}
use auto_gardener.Store.{Store, clone_task, get_task, list_tasks}
use auto_gardener.Tests.{env, old_name, store, task, task_name, world}
use auto_gardener.Text.{Text, has_prefix, text_eq, text_of, trim_space}
use auto_gardener.Text.Laws.{text_key}
use auto_gardener.Text.Number.{parse_int}
use auto_gardener.Usage.{
  UsageRecord, dedupe_usage_records, is_positive, model_summaries, summaries_of, summarize_usage,
  usage_key,
}
use auto_gardener.Usage.Totals.{runs_of, summarize_usage_lem, tokens_of}
use auto_gardener.Usage.Unique.{IsUnique, dedupe_usage_records_lem}

abbrev usage : UsageRecord
usage = record {
  id = b'u' ∷ [];
  task_id = task_name;
  run_id = old_name;
  source_type = [];
  source_id = [];
  source_name = [];
  model = b'm' ∷ [];
  total_tokens = 5;
  input_tokens = 2;
  cached_input_tokens = 0;
  output_tokens = 3;
  created_at = 9;
}

abbrev usages : List UsageRecord
usages = usage ∷ usage ∷ record usage { total_tokens = 0 } ∷ []

summarize_usage_lem_example :
    let summary = summarize_usage task_name usages in
    (runs_of summary.models ≡ length usages) × (tokens_of summary.models ≡ summary.total_tokens)
unfolding summaries_of model_summaries lookup insert text_eq
summarize_usage_lem_example = summarize_usage_lem task_name usages (omega arith)

-- A page of the host `p`, and packages that parse no address.
abbrev page : Url
page = record { scheme = b'h' ∷ []; host = b'p' ∷ []; hostname = b'p' ∷ []; port = [] }

abbrev net : Net
net = record {
  parse_url = λ s. some page;
  split_host_port = λ s. none;
  parse_ip = λ s. none;
  is_loopback = λ s. false;
  parse_cidr = λ s. none;
}

abbrev post : Request
post = record {
  method = text_of "POST";
  path = text_of "/api/tasks";
  host = b'q' ∷ [];
  remote_addr = [];
  header = λ key. b'p' ∷ [];
}

-- Two tasks in places of their own, and paths that are clean and absolute as they are.
abbrev places : Paths
places = record {
  home_dir = none;
  temp_dir = b'/' ∷ b't' ∷ [];
  abs = λ p. some p;
  clean = λ p. p;
  base = λ p. p;
  join_path = λ p q. p ++ (b'/' ∷ q);
  split_list = λ s. [];
  make_dir = λ p. true;
}

abbrev neighbours : Store
neighbours = record store {
  tasks =
      (task_name, task)
      ∷ (old_name, record task { id = old_name; workspace_path = b'/' ∷ b'x' ∷ [] })
      ∷ [];
}

sent_a :
    sent_file (
      serve_workspace_file places
        (λ p. false)
        (λ p. some (false, 3))
        env
        task
        false
        (b'/' ∷ b'a' ∷ [])
        neighbours)
    ≡ some (b'/' ∷ b'w' ∷ b'/' ∷ b'a' ∷ [])
unfolding serve_workspace_file sent_file is_sensitive_workspace_file list_tasks clone_task
sent_a = refl

serve_workspace_file-IsServable_example :
    IsServable places
      (λ p. false)
      (λ p. some (false, 3))
      env
      neighbours
      task
      (b'/' ∷ b'a' ∷ [])
      (b'/' ∷ b'w' ∷ b'/' ∷ b'a' ∷ [])
serve_workspace_file-IsServable_example =
    serve_workspace_file-IsServable places (λ p. false) (λ p. some (false, 3)) env neighbours task
      false (b'/' ∷ b'a' ∷ []) (b'/' ∷ b'w' ∷ b'/' ∷ b'a' ∷ []) sent_a

abbrev events_request : ApiRequest
events_request = record {
  method = text_of "GET";
  path = text_of "/api/tasks/t/events";
  body = none;
  file_query = [];
}

streams_events :
    (handle_task_subroutes env (λ p. p) events_request world).reply
    ≡ event_stream (public_task (clone_task env task)) 0
unfolding handle_task_subroutes get_task lookup subscribe new_event_hub
streams_events = refl

-- A place with a file, a secret and a directory.
abbrev walk : Text → Option Walk
walk root = some (
    dir_entry (text_of "w") root
      (file_entry (text_of "/w/.env") (some (1, 2_000_000_000_000))
        (file_entry (text_of "/w/a") (some (3, 2_000_000_000_000)) no_entry))
      no_entry)

abbrev below_prefix : Text → Text → Option Text
below_prefix root path =
    if has_prefix path (root ++ b'/' ∷ []) then some (drop (length root + 1) path) else none

abbrev file_a : WorkspaceFileEntry
file_a = record { path = b'a' ∷ []; size = 3; mod_time = 2_000_000_000_000; tree_ids = [] }

listed_a :
    list_workspace_files places below_prefix env task neighbours walk [] [] ≡ some (file_a ∷ [])
unfolding list_workspace_files sort_by parse_int
listed_a = refl

list_workspace_files-IsListing_example :
    All (IsListed (file_filter places below_prefix task [] [])) (file_a ∷ [])
    × (length (file_a ∷ []) ≤ max_listed_files)
list_workspace_files-IsListing_example =
    list_workspace_files-IsListing places below_prefix env task neighbours walk [] [] (file_a ∷ [])
      listed_a

abbrev build_task : Task
build_task = record task { workspace_path = text_of "/build" }

-- A place that is itself called `build` has no files in its list.
nothing_in_build :
    list_workspace_files places below_prefix env build_task neighbours
      (λ root. some (
        dir_entry
          (text_of "build")
          root
          (file_entry (text_of "/build/a") (some (3, 2_000_000_000_000)) no_entry)
          no_entry))
      []
      []
    ≡ some []
unfolding list_workspace_files text_of sort_by
nothing_in_build = refl

-- A request to the host that the page comes from.
abbrev near_post : Request
near_post = record post { host = b'p' ∷ [] }

reject_cross_origin_api_writes_lem_example :
    (named_page net near_post ≡ [])
    ⊎ ((u : Url) × (net.parse_url (named_page net near_post) ≡ some u)
        × IsSameHost net u.host (trim_space near_post.host))
unfolding is_unsafe_method has_prefix text_of text_eq trim_space request_from_trusted_proxy
    configured_allowed_origins reject_cross_origin_api_writes request_has_same_origin
    request_origin_allowed allowed_origin_hosts hosts_match_for_csrf
reject_cross_origin_api_writes_lem_example =
    reject_cross_origin_api_writes_lem net env near_post refl refl refl refl refl

dedupe_usage_records_lem_example :
    let out = dedupe_usage_records usages in
    IsUnique out
    × All (λ (rec : UsageRecord). is_positive rec.total_tokens ≡ true) out
    × All
        (λ (rec : UsageRecord).
          (not (is_positive rec.total_tokens)
            || any (λ (o : UsageRecord). text_eq (usage_key o) (usage_key rec)) out)
          ≡ true)
        usages
dedupe_usage_records_lem_example = dedupe_usage_records_lem usages
