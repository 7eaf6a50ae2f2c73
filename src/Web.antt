-- ===== src/Web.antt =====
-- tools/web.py: the checks of a URL, the connections of a fetch and the text that it gives. The URL parser,
-- the resolver, the `ipaddress` module, HTML parsing and the servers are parameters.
pub mod Pinned
pub mod Html
use lucyd.Base.{
  ℕ, suc, ◌*◌, String, Text, Bool, true, false, not, ◌&&◌, ◌||◌, Option, none, some, List, [], ◌∷◌,
  ◌++◌, take, length, filter_by, is_empty, lit, decimal, starts_with, contains, mem_text, ltb, ◌==◌,
  if◌then◌else◌,
}
use lucyd.Tools.Truncate.{strip}

-- `parsed.port`: `bad_port` raises ValueError
pub data Port : Type 0 where
  no_port bad_port : Port
  port : ℕ → Port

-- What `urlparse` gives: a missing host is the empty text.
pub record Url : Type 0 where
  pub scheme : Text
  pub hostname : Text
  pub port_part : Port

-- The properties of an `ipaddress` object that `_is_private_ip` reads.
pub record IpAddress : Type 0 where
  pub is_private : Bool
  pub is_loopback : Bool
  pub is_reserved : Bool
  pub is_link_local : Bool

-- `urlparse`, `ip_address` and `inet_ntoa(inet_aton(...))`, `none` where they raise
pub record Library : Type 0 where
  pub urlparse : Text → Option Url
  pub ip_address : Text → Option IpAddress
  pub normalize : Text → Option Text

-- What `_validate_url` returns, or that it raises.
pub data Checked : Type 0 where
  refused : Text → Checked
  raised : Checked
  accepted : Option Text → Checked

unfoldable pub is_internal : Option IpAddress → Bool
is_internal none = true
is_internal (some ip) = ip.is_private || (ip.is_loopback || (ip.is_reserved || ip.is_link_local))

unfoldable pub port_or_443 : Port → Option ℕ
port_or_443 no_port = some 443
port_or_443 bad_port = none
port_or_443 (port n) = some (if n == 0 then 443 else n)

module _ (lib : Library) where
  -- `_is_private_ip`: what is no address in any notation counts as private
  unfoldable pub is_private_ip : Text → Bool
  unfolding is_internal
  is_private_ip addr = elim (lib.ip_address addr) [
    | some ip ↦ is_internal (some ip)
    | none ↦ elim (lib.normalize addr) [
      | none ↦ true
      | some dotted ↦ is_internal (lib.ip_address dotted)
    ]
  ]

  -- the loop over the addresses: one private address refuses the host; else the first one is pinned
  unfoldable pub check_addresses : Text → List Text → Option Text → Checked
  unfolding is_private_ip lit
  check_addresses hostname [] resolved_ip = accepted resolved_ip
  check_addresses hostname (ip ∷ ips) none =
      let rest = check_addresses hostname ips (some ip) in
      if is_private_ip ip
      then refused
          (lit "Blocked: " ++ (hostname ++ (lit " resolves to private/loopback address " ++ ip)))
      else rest
  check_addresses hostname (ip ∷ ips) (some first) =
      let rest = check_addresses hostname ips (some first) in
      if is_private_ip ip
      then refused
          (lit "Blocked: " ++ (hostname ++ (lit " resolves to private/loopback address " ++ ip)))
      else rest

  unfoldable pub check_resolved : Text → Option (List Text) → Checked
  unfolding check_addresses lit
  check_resolved hostname none = refused (lit "Cannot resolve hostname: " ++ hostname)
  check_resolved hostname (some ips) = check_addresses hostname ips none

  unfoldable pub check_port : Text → (ℕ → Option (List Text)) → Option ℕ → Checked
  unfolding check_resolved
  check_port hostname getaddrinfo none = raised
  check_port hostname getaddrinfo (some n) = check_resolved hostname (getaddrinfo n)

  -- `_validate_url`, with the resolver at that time
  unfoldable pub check_parsed : Text → (Text → ℕ → Option (List Text)) → Option Url → Checked
  unfolding check_port port_or_443 mem_text lit
  check_parsed url getaddrinfo none = refused (lit "Invalid URL: " ++ url)
  check_parsed url getaddrinfo (some parsed) =
      if not (mem_text parsed.scheme (lit "http" ∷ lit "https" ∷ []))
      then refused
          (lit "Blocked URL scheme: " ++ (parsed.scheme ++ lit " (only http/https allowed)"))
      else if is_empty parsed.hostname
      then refused (lit "URL has no hostname")
      else check_port parsed.hostname (getaddrinfo parsed.hostname) (port_or_443 parsed.port_part)

  unfoldable pub validate_url : Text → (Text → ℕ → Option (List Text)) → Checked
  unfolding check_parsed
  validate_url url getaddrinfo = check_parsed url getaddrinfo (lib.urlparse url)

-- A connection of the pinning handlers: to the pinned address, or to whatever the host resolves to then.
pub data Connection : Type 0 where
  pinned : Text → Text → Connection
  unpinned : Text → Connection

-- What a server answers: a page with its content type, a redirect, or an error.
pub data Response : Type 0 where
  page : Text → Text → Response
  redirect : Text → Response
  no_response : Response

pub data Fetched : Type 0 where
  fetched : Text → Text → Fetched
  invalid : Text → Fetched
  fetch_failed fetch_raised : Fetched

-- `http_open` and `https_open`: without a pin they resolve the host themselves
unfoldable pub connect : Text → Option Text → Connection
connect url none = unpinned url
connect url (some ip) = pinned url ip

-- The resolver and the servers answer by the number of the hop; `_safe_opener` follows the redirects that
-- urllib allows.
module _ (lib : Library) (getaddrinfo : ℕ → Text → ℕ → Option (List Text))
    (respond : ℕ → Connection → Response) where
  -- `_SafeRedirectHandler.redirect_request`, and what follows it
  unfoldable pub redirected :
      (Text → Option Text → List Connection × Fetched) → Text → Checked → List Connection × Fetched
  redirected onward url (refused error) = ([], fetch_failed)
  redirected onward url raised = ([], fetch_failed)
  redirected onward url (accepted ip) = onward url ip

  unfoldable pub answered :
      (Text → Option Text → List Connection × Fetched) → ℕ → Response → List Connection × Fetched
  unfolding redirected validate_url
  answered onward hop (page content_type text) = ([], fetched content_type text)
  answered onward hop no_response = ([], fetch_failed)
  answered onward hop (redirect url) =
      redirected onward url (validate_url lib url (getaddrinfo hop))

  -- the request of a hop, with as many redirects left
  unfoldable pub open_url : ℕ → ℕ → Text → Option Text → List Connection × Fetched
  unfolding answered connect
  open_url ℕ.zero hop url ip =
      let (connections, result) =
        answered (λ u i. ([], fetch_failed)) (suc hop) (respond hop (connect url ip)) in
      (connect url ip ∷ connections, result)
  open_url (suc left) hop url ip =
      let (connections, result) =
        answered (λ u i. open_url left (suc hop) u i) (suc hop) (respond hop (connect url ip)) in
      (connect url ip ∷ connections, result)

  -- `tool_web_fetch` up to the page: `_validate_url` raises outside of its `try`
  unfoldable pub first_request : ℕ → Text → Checked → List Connection × Fetched
  unfolding open_url
  first_request left url (refused error) = ([], invalid error)
  first_request left url raised = ([], fetch_raised)
  first_request left url (accepted ip) = open_url left 0 url ip

  unfoldable pub fetch_page : ℕ → Text → List Connection × Fetched
  unfolding first_request validate_url
  fetch_page left url = first_request left url (validate_url lib url (getaddrinfo 0))
