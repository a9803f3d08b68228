-- ===== src/Origin.antt =====
-- rejectCrossOriginAPIWrites of internal/app/server.go, down to the comparison of hosts. Go's url and
-- net packages are parameters.
pub mod Hosts
use auto_gardener.Base.{
  Bool, List, Option, [], any, false, filter_by, if◌then◌else◌, is_nil, map, none, not, some, true,
  ℕ, ◌&&◌, ◌++◌, ◌==◌, ◌||◌, ◌∷◌,
}
use auto_gardener.Models.{Env}
use auto_gardener.Text.{
  Text, contains, equal_fold, has_prefix, text_eq, text_of, to_lower, trim_space,
}
use auto_gardener.Text.Split.{cut, split_on, trim_by}

pub record Url : Type 0 where
  pub scheme : Text
  pub host : Text
  pub hostname : Text
  pub port : Text

-- url.Parse, net.SplitHostPort, net.ParseIP with its canonical form, IP.IsLoopback and net.ParseCIDR
-- with Contains.
pub record Net : Type 0 where
  pub parse_url : Text → Option Url
  pub split_host_port : Text → Option Text
  pub parse_ip : Text → Option Text
  pub is_loopback : Text → Bool
  pub parse_cidr : Text → Option (Text → Bool)

pub record Request : Type 0 where
  pub method : Text
  pub path : Text
  pub host : Text
  pub remote_addr : Text
  pub header : Text → Text

unfoldable pub is_unsafe_method : Text → Bool
unfolding text_of
is_unsafe_method method =
    any (text_eq method) (text_of "POST" ∷ text_of "PUT" ∷ text_of "PATCH" ∷ text_of "DELETE" ∷ [])

is_list_separator : ℕ → Bool
is_list_separator c = c == b',' || c == b';' || c == 10 || c == 9 || c == 32

-- strings.FieldsFunc with the separators of a configured list: `word` is the field that is open.
list_fields : Text → Text → List Text
unfolding is_list_separator
list_fields word [] = if is_nil word then [] else word ∷ []
list_fields word (c ∷ s) =
    let closed = list_fields [] s in
    let longer = list_fields (word ++ c ∷ []) s in
    if is_list_separator c then (if is_nil word then closed else word ∷ closed) else longer

configured_list : Env → Text → List Text
unfolding list_fields trim_space
configured_list e key =
    filter_by (λ field. not (is_nil field))
      (map trim_space (list_fields [] (trim_space (e.getenv key))))

unfoldable pub configured_trusted_proxies : Env → List Text
unfolding configured_list text_of
configured_trusted_proxies e = configured_list e (text_of "AUTO_GARDENER_TRUSTED_PROXIES")

unfoldable pub configured_allowed_origins : Env → List Text
unfolding configured_list text_of
configured_allowed_origins e = configured_list e (text_of "AUTO_GARDENER_ALLOWED_ORIGINS")

unfoldable pub first_forwarded_header_value : Text → Text
unfolding cut trim_space
first_forwarded_header_value raw =
    let value = trim_space raw in
    elim (cut b',' value) [ none ↦ value | some (a, b) ↦ trim_space a ]

unquoted : Text → Text
unquoted s = trim_by (λ c. c == 34) (trim_space s)

present_host : Text → List Text
unfolding unquoted
present_host s = if is_nil (unquoted s) then [] else unquoted s ∷ []

-- The first `host=` among the parts of a Forwarded header.
forwarded_host : List Text → List Text
unfolding present_host cut trim_space equal_fold text_of
forwarded_host [] = []
forwarded_host (part ∷ more) =
    let rest = forwarded_host more in
    elim (cut b'=' (trim_space part)) [
      | none ↦ rest
      | some (key, value) ↦
          if equal_fold (trim_space key) (text_of "host") then present_host value else rest
    ]

unfoldable pub forwarded_origin_hosts : Request → List Text
unfolding present_host forwarded_host split_on first_forwarded_header_value text_of
forwarded_origin_hosts q =
    let forwarded = first_forwarded_header_value (q.header (text_of "X-Forwarded-Host")) in
    present_host forwarded
    ++ (present_host (q.header (text_of "X-Original-Host"))
        ++ forwarded_host
            (split_on b';' (first_forwarded_header_value (q.header (text_of "Forwarded")))))

module _ (net : Net) where
  same_ip : Text → Text → Bool
  same_ip ip allowed = elim (net.parse_ip allowed) [ none ↦ false | some found ↦ text_eq found ip ]

  trusts : Text → Text → Bool
  unfolding same_ip
  trusts ip allowed = elim (net.parse_cidr allowed) [
    | some contains_ip ↦ contains_ip ip
    | none ↦ same_ip ip allowed
  ]

  unfoldable pub request_from_trusted_proxy : Env → Request → Bool
  unfolding trusts trim_space
  request_from_trusted_proxy e q =
      let address = trim_space q.remote_addr in
      let host : Text = elim (net.split_host_port address) [ none ↦ address | some h ↦ h ] in
      elim (net.parse_ip host) [
        | none ↦ false
        | some ip ↦ net.is_loopback ip || any (trusts ip) (configured_trusted_proxies e)
      ]

  unfoldable pub allowed_origin_hosts : Env → Request → List Text
  unfolding request_from_trusted_proxy forwarded_origin_hosts trim_space
  allowed_origin_hosts e q =
      let host = trim_space q.host in
      if is_nil host
      then []
      else if request_from_trusted_proxy e q
      then host ∷ forwarded_origin_hosts q
      else host ∷ []

  is_bracket : ℕ → Bool
  is_bracket c = c == b'[' || c == b']'

  -- Where url.Parse finds no name.
  split_by_hand : Text → Text × Text
  unfolding cut is_bracket trim_by
  split_by_hand host = elim (cut b':' host) [
    | none ↦ (to_lower (trim_by is_bracket host), [])
    | some (h, p) ↦
        if any (λ c. c == b':') p
        then (to_lower (trim_by is_bracket host), [])
        else (to_lower (trim_by is_bracket h), p)
  ]

  unfoldable pub split_host_port_loose : Text → Text × Text
  unfolding split_by_hand trim_space
  split_host_port_loose raw =
      let host = trim_space raw in
      if is_nil host then ([], []) else elim (net.parse_url (b'/' ∷ b'/' ∷ host)) [
        | none ↦ split_by_hand host
        | some u ↦ if is_nil u.hostname then split_by_hand host else (to_lower u.hostname, u.port)
      ]

  -- The same name, and no two explicit ports.
  same_name : Text × Text → Text × Text → Bool
  same_name (n, p) (m, r) =
      not (is_nil n) && not (is_nil m) && equal_fold n m && (is_nil p || is_nil r)

  unfoldable pub hosts_match_for_csrf : Text → Text → Bool
  unfolding same_name trim_space split_host_port_loose
  hosts_match_for_csrf origin_raw request_raw =
      let origin_host = trim_space origin_raw in
      let request_host = trim_space request_raw in
      if is_nil origin_host || is_nil request_host
      then false
      else if equal_fold origin_host request_host
      then true
      else same_name (split_host_port_loose origin_host) (split_host_port_loose request_host)

  unfoldable pub origin_matches_configured_allowed : Url → Text → Bool
  unfolding hosts_match_for_csrf text_of
  origin_matches_configured_allowed origin allowed =
      if text_eq allowed (b'*' ∷ [])
      then true
      else if contains allowed (text_of "://")
      then (elim (net.parse_url allowed) [
        | none ↦ false
        | some u ↦
            not (is_nil u.host)
            && equal_fold origin.scheme u.scheme
            && hosts_match_for_csrf origin.host u.host
      ])
      else hosts_match_for_csrf origin.host allowed

  unfoldable pub request_origin_allowed : Env → Request → Text → Bool
  unfolding allowed_origin_hosts origin_matches_configured_allowed
  request_origin_allowed e q raw = elim (net.parse_url raw) [
    | none ↦ false
    | some u ↦
        not (is_nil u.host)
        && (any (hosts_match_for_csrf u.host) (allowed_origin_hosts e q)
            || any (origin_matches_configured_allowed u) (configured_allowed_origins e))
  ]

  unfoldable pub request_has_same_origin : Env → Request → Bool
  unfolding request_origin_allowed trim_space text_of
  request_has_same_origin e q =
      let origin = trim_space (q.header (text_of "Origin")) in
      let referer = trim_space (q.header (text_of "Referer")) in
      if not (is_nil origin)
      then request_origin_allowed e q origin
      else if not (is_nil referer)
      then request_origin_allowed e q referer
      else true

  -- rejectCrossOriginAPIWrites: whether the request is refused.
  unfoldable pub reject_cross_origin_api_writes : Env → Request → Bool
  unfolding is_unsafe_method request_has_same_origin has_prefix text_of
  reject_cross_origin_api_writes e q =
      is_unsafe_method q.method
      && has_prefix q.path (text_of "/api/")
      && not (request_has_same_origin e q)
