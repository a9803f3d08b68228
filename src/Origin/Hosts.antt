-- ===== src/Origin/Hosts.antt =====
-- When two hosts count as the same, and which requests are refused.
use auto_gardener.Base.{
  Bool, List, Option, [], ap, arith, false, if◌then◌else◌, inl, inr, is_nil, none, not, refl, some,
  true, ◌&&◌, ◌||◌, ◌∷◌, ◌≡◌, ◌⊎◌,
}
use auto_gardener.Models.{Env}
use auto_gardener.Origin.{
  Net, Request, Url, allowed_origin_hosts, configured_allowed_origins, hosts_match_for_csrf,
  is_unsafe_method, reject_cross_origin_api_writes, request_from_trusted_proxy,
  request_has_same_origin, request_origin_allowed, same_name, split_host_port_loose,
}
use auto_gardener.Text.{Text, equal_fold, has_prefix, text_of, trim_space}
use auto_gardener.Text.Laws.{equal_fold-sym}

module _ (net : Net) where
  same_name-sym : (a b : Text × Text) → same_name net a b ≡ same_name net b a
  unfolding same_name
  same_name-sym (n, p) (m, r) = ground (arith, equal_fold-sym n m)

  -- The comparison of hosts does not depend on their order.
  pub hosts_match_for_csrf_sym :
      (a b : Text) → hosts_match_for_csrf net a b ≡ hosts_match_for_csrf net b a
  unfolding hosts_match_for_csrf
  hosts_match_for_csrf_sym a b = ground (
    arith,
    equal_fold-sym (trim_space a) (trim_space b),
    same_name-sym (split_host_port_loose net (trim_space a))
        (split_host_port_loose net (trim_space b)),
  )

  trimmed_host : (e : Env) (q : Request) → List Text
  trimmed_host e q = if is_nil (trim_space q.host) then [] else trim_space q.host ∷ []

  untrusted-hosts :
      (e : Env) (q : Request)
      → request_from_trusted_proxy net e q ≡ false
      → allowed_origin_hosts net e q ≡ trimmed_host e q
  unfolding allowed_origin_hosts trimmed_host
  untrusted-hosts e q h = rw (allowed_origin_hosts, h) refl

  -- The one host that is left to compare with.
  matches_host : Url → Request → Bool
  matches_host u q =
      not (is_nil u.host)
      && not (is_nil (trim_space q.host))
      && hosts_match_for_csrf net u.host (trim_space q.host)

  origin_allowed-untrusted :
      (e : Env) (q : Request) (raw : Text) (u : Url)
      → net.parse_url raw ≡ some u
      → request_from_trusted_proxy net e q ≡ false
      → configured_allowed_origins e ≡ []
      → request_origin_allowed net e q raw ≡ matches_host u q
  unfolding request_origin_allowed matches_host trimmed_host
  origin_allowed-untrusted e q raw u p h k =
      rw (request_origin_allowed, p, untrusted-hosts e q h, k) (ground arith)

  -- Two hosts are the same: as they stand, or by their names where at most one of them has a port.
  abbrev pub IsSameHost : Text → Text → Type 0
  IsSameHost a b =
      let (n, p) = split_host_port_loose net (trim_space a) in
      let (m, r) = split_host_port_loose net (trim_space b) in
      (is_nil (trim_space a) ≡ false)
      × (is_nil (trim_space b) ≡ false)
      × ((equal_fold (trim_space a) (trim_space b) ≡ true)
          ⊎ ((is_nil n ≡ false)
              × (is_nil m ≡ false)
              × (equal_fold n m ≡ true)
              × ((p ≡ []) ⊎ (r ≡ []))))

  one_without : (p r : Text) → (is_nil p || is_nil r) ≡ true → (p ≡ []) ⊎ (r ≡ [])
  one_without [] r h = inl refl
  one_without (c ∷ p) [] h = inr refl
  one_without (c ∷ p) (d ∷ r) h = absurd (cc)

  same_name_lem :
      (n p m r : Text)
      → same_name net (n, p) (m, r) ≡ true
      → (is_nil n ≡ false) × (is_nil m ≡ false) × (equal_fold n m ≡ true) × ((p ≡ []) ⊎ (r ≡ []))
  unfolding same_name
  same_name_lem n p m r h =
      (ground arith, ground arith, ground arith, one_without p r (ground arith))

  hosts_match-IsSameHost : (a b : Text) → hosts_match_for_csrf net a b ≡ true → IsSameHost a b
  unfolding hosts_match_for_csrf
  hosts_match-IsSameHost a b =
      split (is_nil (trim_space a)) (is_nil (trim_space b))
        (equal_fold (trim_space a) (trim_space b)) refl refl refl
    where
      split :
          (no_a no_b same : Bool)
          → is_nil (trim_space a) ≡ no_a
          → is_nil (trim_space b) ≡ no_b
          → equal_fold (trim_space a) (trim_space b) ≡ same
          → (if no_a || no_b
              then false
              else if same
              then true
              else same_name net
                  (split_host_port_loose net (trim_space a))
                  (split_host_port_loose net (trim_space b)))
            ≡ true
          → IsSameHost a b
      split true no_b same f g k h = absurd (cc)
      split false true same f g k h = absurd (cc)
      split false false true f g k h = (f, g, inl k)
      split false false false f g k h = (f, g, inr (same_name_lem _ _ _ _ h))

  -- The page that a request names as its origin: the Origin header, or else the Referer header.
  abbrev pub named_page : Request → Text
  named_page q =
      let origin = trim_space (q.header (text_of "Origin")) in
      if not (is_nil origin) then origin else trim_space (q.header (text_of "Referer"))

  same_origin-allowed :
      (e : Env) (q : Request)
      → is_nil (named_page q) ≡ false
      → request_has_same_origin net e q ≡ true
      → request_origin_allowed net e q (named_page q) ≡ true
  unfolding request_has_same_origin
  same_origin-allowed e q = split (trim_space (q.header (text_of "Origin")))
    where
      referer : Text
      referer = trim_space (q.header (text_of "Referer"))

      split :
          (origin : Text)
          → is_nil (if not (is_nil origin) then origin else referer) ≡ false
          → (if not (is_nil origin)
              then request_origin_allowed net e q origin
              else if not (is_nil referer)
              then request_origin_allowed net e q referer
              else true)
            ≡ true
          → request_origin_allowed net e q (if not (is_nil origin) then origin else referer) ≡ true
      split [] n h = rw n at h
      split (c ∷ origin) n h = h

  unread-refused :
      (e : Env) (q : Request) (raw : Text)
      → net.parse_url raw ≡ none
      → request_origin_allowed net e q raw ≡ false
  unfolding request_origin_allowed
  unread-refused e q raw p = rw (request_origin_allowed, p) refl

  allowed-IsSameHost :
      (e : Env) (q : Request) (raw : Text)
      → request_from_trusted_proxy net e q ≡ false
      → configured_allowed_origins e ≡ []
      → request_origin_allowed net e q raw ≡ true
      → (u : Url) × (net.parse_url raw ≡ some u) × IsSameHost u.host (trim_space q.host)
  allowed-IsSameHost e q raw t k allowed = split (net.parse_url raw) refl
    where
      split :
          (found : Option Url)
          → net.parse_url raw ≡ found
          → (u : Url) × (net.parse_url raw ≡ some u) × IsSameHost u.host (trim_space q.host)
      split none p = absurd (cc (unread-refused e q raw p))
      split (some u) p = (
        u,
        p,
        hosts_match-IsSameHost u.host (trim_space q.host)
            (unfold matches_host in ground (arith, origin_allowed-untrusted e q raw u p t k)),
      )

  -- A write to the API that comes from no trusted proxy, where no origin is configured, is let through
  -- only if it names no page as its origin, or if the page has an address that can be read and a host
  -- that is the host of the request.
  pub reject_cross_origin_api_writes_lem :
      (e : Env) (q : Request)
      → is_unsafe_method q.method ≡ true
      → has_prefix q.path (text_of "/api/") ≡ true
      → request_from_trusted_proxy net e q ≡ false
      → configured_allowed_origins e ≡ []
      → reject_cross_origin_api_writes net e q ≡ false
      → (named_page q ≡ [])
        ⊎ ((u : Url) × (net.parse_url (named_page q) ≡ some u)
            × IsSameHost u.host (trim_space q.host))
  unfolding reject_cross_origin_api_writes
  reject_cross_origin_api_writes_lem e q m a t k through = split (named_page q) refl
    where
      same : request_has_same_origin net e q ≡ true
      same = ground arith

      split :
          (page : Text)
          → named_page q ≡ page
          → (named_page q ≡ [])
            ⊎ ((u : Url) × (net.parse_url (named_page q) ≡ some u)
                × IsSameHost u.host (trim_space q.host))
      split [] p = inl p
      split (c ∷ page) p =
          inr
            (allowed-IsSameHost e q (named_page q) t k (same_origin-allowed e q (ap is_nil p) same))
