-- ===== src/Web/Pinned.antt =====
-- tools/web.py: where the connections of a fetch go.
use lucyd.Base.{
  ℕ, suc, ◌≡◌, ◌≢◌, ◌∙◌, refl, Text, true, false, inl, inr, Option, none, some, List, [], ◌∷◌, All,
  is_empty, lit, mem_text, Bool-cases,
}
use lucyd.Web.{
  Url, Library, Checked, refused, raised, accepted, port_or_443, is_private_ip, check_addresses,
  check_resolved, check_port, check_parsed, validate_url, Connection, pinned, Response, page,
  redirect, no_response, Fetched, connect, redirected, answered, open_url, first_request,
  fetch_page,
}

-- the address that is pinned
abbrev pub first_of : Option Text → List Text → Option Text
first_of none [] = none
first_of none (ip ∷ ips) = some ip
first_of (some first) ips = some first

module _ (lib : Library) where
  -- No address of the list is private, and the first one is what is pinned.
  abbrev pub ArePublic : List Text → Type 0
  ArePublic ips = All (λ ip. is_private_ip lib ip ≡ false) ips

  -- what a check of addresses vouches for, if it accepts them: with the pin that it had, or the first one
  abbrev Vouches : List Text → Option Text → Checked → Type 0
  Vouches ips start c = elim c [
    | refused error ↦ Unit
    | raised ↦ Unit
    | accepted pin ↦ ArePublic ips × (pin ≡ first_of start ips)
  ]

  with_public :
      (ip : Text) (ips : List Text) (start next : Option Text) (c : Checked)
      → is_private_ip lib ip ≡ false
      → first_of next ips ≡ first_of start (ip ∷ ips)
      → Vouches ips next c
      → Vouches (ip ∷ ips) start c
  with_public ip ips start next (refused error) outside same h = tt
  with_public ip ips start next raised outside same h = tt
  with_public ip ips start next (accepted pin) outside same (public, e) =
      ((outside, public), e ∙ same)

  check_addresses-Vouches :
      (hostname : Text) (ips : List Text) (start : Option Text)
      → Vouches ips start (check_addresses lib hostname ips start)
  unfolding check_addresses
  check_addresses-Vouches hostname [] none = (tt, refl)
  check_addresses-Vouches hostname [] (some first) = (tt, refl)
  check_addresses-Vouches hostname (ip ∷ ips) none = elim (Bool-cases (is_private_ip lib ip)) [
    | inl internal ↦ rw internal tt
    | inr outside ↦ rw outside (
        with_public ip ips none (some ip) _ outside refl
          (check_addresses-Vouches hostname ips (some ip)))
  ]
  check_addresses-Vouches hostname (ip ∷ ips) (some first) =
      elim (Bool-cases (is_private_ip lib ip)) [
        | inl internal ↦ rw internal tt
        | inr outside ↦ rw outside (
            with_public ip ips (some first) (some first) _ outside refl
              (check_addresses-Vouches hostname ips (some first)))
      ]

  -- An accepted URL was parsed, has one of the two schemes, and resolved to public addresses, of which the
  -- first one is the pin.
  pub record IsVetted (getaddrinfo : Text → ℕ → Option (List Text)) (url : Text) (pin : Option Text)
      : Type 0 where
    pub parsed : Url
    pub is_parsed : lib.urlparse url ≡ some parsed
    pub scheme : mem_text parsed.scheme (lit "http" ∷ lit "https" ∷ []) ≡ true
    pub port_number : ℕ
    pub addresses : List Text
    pub resolved : getaddrinfo parsed.hostname port_number ≡ some addresses
    pub public : ArePublic addresses
    pub pin_first : pin ≡ first_of none addresses

  -- a check that accepts vouches for what it accepts
  abbrev IfAccepted : (Option Text → Type 0) → Checked → Type 0
  IfAccepted P c = elim c [ refused error ↦ Unit | raised ↦ Unit | accepted pin ↦ P pin ]

  vetted :
      (getaddrinfo : Text → ℕ → Option (List Text)) (url : Text) (parsed : Url) (n : ℕ)
      (ips : List Text) (c : Checked)
      → lib.urlparse url ≡ some parsed
      → mem_text parsed.scheme (lit "http" ∷ lit "https" ∷ []) ≡ true
      → getaddrinfo parsed.hostname n ≡ some ips
      → Vouches ips none c
      → IfAccepted (λ pin. IsVetted getaddrinfo url pin) c
  vetted getaddrinfo url parsed n ips (refused error) p s r h = tt
  vetted getaddrinfo url parsed n ips raised p s r h = tt
  vetted getaddrinfo url parsed n ips (accepted pin) p s r (public, first) = record {
    parsed = parsed;
    is_parsed = p;
    scheme = s;
    port_number = n;
    addresses = ips;
    resolved = r;
    public = public;
    pin_first = first;
  }

  check_resolved-IsVetted :
      (getaddrinfo : Text → ℕ → Option (List Text)) (url : Text) (parsed : Url) (n : ℕ)
      (o : Option (List Text))
      → lib.urlparse url ≡ some parsed
      → mem_text parsed.scheme (lit "http" ∷ lit "https" ∷ []) ≡ true
      → getaddrinfo parsed.hostname n ≡ o
      → IfAccepted (λ pin. IsVetted getaddrinfo url pin) (check_resolved lib parsed.hostname o)
  unfolding check_resolved
  check_resolved-IsVetted getaddrinfo url parsed n none p s r = tt
  check_resolved-IsVetted getaddrinfo url parsed n (some ips) p s r =
      vetted getaddrinfo url parsed n ips (check_addresses lib parsed.hostname ips none) p s r
        (check_addresses-Vouches parsed.hostname ips none)

  check_port-IsVetted :
      (getaddrinfo : Text → ℕ → Option (List Text)) (url : Text) (parsed : Url) (o : Option ℕ)
      → lib.urlparse url ≡ some parsed
      → mem_text parsed.scheme (lit "http" ∷ lit "https" ∷ []) ≡ true
      → IfAccepted
          (λ pin. IsVetted getaddrinfo url pin)
          (check_port lib parsed.hostname (getaddrinfo parsed.hostname) o)
  unfolding check_port
  check_port-IsVetted getaddrinfo url parsed none p s = tt
  check_port-IsVetted getaddrinfo url parsed (some n) p s =
      check_resolved-IsVetted getaddrinfo url parsed n (getaddrinfo parsed.hostname n) p s refl

  check_parsed-IsVetted :
      (getaddrinfo : Text → ℕ → Option (List Text)) (url : Text) (o : Option Url)
      → lib.urlparse url ≡ o
      → IfAccepted (λ pin. IsVetted getaddrinfo url pin) (check_parsed lib url getaddrinfo o)
  unfolding check_parsed
  check_parsed-IsVetted getaddrinfo url none p = tt
  check_parsed-IsVetted getaddrinfo url (some parsed) p =
      elim (Bool-cases (mem_text parsed.scheme (lit "http" ∷ lit "https" ∷ []))) [
        | inr other ↦ rw other tt
        | inl allowed ↦ elim (Bool-cases (is_empty parsed.hostname)) [
          | inl nowhere ↦ rw (allowed, nowhere) tt
          | inr somewhere ↦
              simp (allowed, somewhere)
                (check_port-IsVetted getaddrinfo url parsed (port_or_443 parsed.port_part) p
                  allowed)
        ]
      ]

  validate_url-IsVetted :
      (getaddrinfo : Text → ℕ → Option (List Text)) (url : Text)
      → IfAccepted (λ pin. IsVetted getaddrinfo url pin) (validate_url lib url getaddrinfo)
  unfolding validate_url
  validate_url-IsVetted getaddrinfo url =
      check_parsed-IsVetted getaddrinfo url (lib.urlparse url) refl

module _ (lib : Library) (getaddrinfo : ℕ → Text → ℕ → Option (List Text))
    (respond : ℕ → Connection → Response)
    (resolves : (hop : ℕ) (host : Text) (n : ℕ) → getaddrinfo hop host n ≢ some []) where
  -- A connection that goes to a public address which the check of its URL, at that hop, has resolved.
  abbrev pub IsSafe : Connection → Type 0
  IsSafe c =
      (hop : ℕ) × (url ip : Text) × (c ≡ pinned url ip)
      × IsVetted lib (getaddrinfo hop) url (some ip)

  first-address :
      (hop : ℕ) (host : Text) (n : ℕ) (ips : List Text) (pin : Option Text)
      → getaddrinfo hop host n ≡ some ips
      → pin ≡ first_of none ips
      → (ip : Text) × (pin ≡ some ip)
  first-address hop host n [] pin r e = elim (resolves hop host n r) [ ]
  first-address hop host n (ip ∷ ips) pin r e = (ip, e)

  connect-IsSafe :
      (hop : ℕ) (url : Text) (pin : Option Text)
      → IsVetted lib (getaddrinfo hop) url pin
      → IsSafe (connect url pin)
  unfolding connect
  connect-IsSafe hop url none v =
      (let (ip, e) =
          first-address hop v.parsed.hostname v.port_number v.addresses none v.resolved
            v.pin_first in
        cc)
  connect-IsSafe hop url (some ip) v = (hop, url, ip, refl, v)

  onward-IsSafe :
      (f : Text → Option Text → List Connection × Fetched) (hop : ℕ) (r : Response)
      → ((url : Text) (pin : Option Text)
          → IsVetted lib (getaddrinfo hop) url pin
          → All IsSafe (f url pin).0)
      → All IsSafe (answered lib getaddrinfo respond f hop r).0
  unfolding answered
  onward-IsSafe f hop (page content_type text) safe = tt
  onward-IsSafe f hop no_response safe = tt
  onward-IsSafe f hop (redirect url) safe =
      redirected-IsSafe (validate_url lib url (getaddrinfo hop))
        (validate_url-IsVetted lib (getaddrinfo hop) url)
    where
      redirected-IsSafe :
          (c : Checked)
          → IfAccepted lib (λ pin. IsVetted lib (getaddrinfo hop) url pin) c
          → All IsSafe (redirected lib getaddrinfo respond f url c).0
      redirected-IsSafe (refused error) v = tt
      redirected-IsSafe raised v = tt
      redirected-IsSafe (accepted pin) v = safe url pin v

  open_url-IsSafe :
      (left hop : ℕ) (url : Text) (pin : Option Text)
      → IsVetted lib (getaddrinfo hop) url pin
      → All IsSafe (open_url lib getaddrinfo respond left hop url pin).0
  unfolding open_url
  open_url-IsSafe ℕ.zero hop url pin v = (
    connect-IsSafe hop url pin v,
    onward-IsSafe _ (suc hop) (respond hop (connect url pin)) (λ u i w. tt),
  )
  open_url-IsSafe (suc left) hop url pin v = (
    connect-IsSafe hop url pin v,
    onward-IsSafe _ (suc hop) (respond hop (connect url pin))
        (λ u i w. open_url-IsSafe left (suc hop) u i w),
  )

  first_request-IsSafe :
      (left : ℕ) (url : Text) (c : Checked)
      → IfAccepted lib (λ pin. IsVetted lib (getaddrinfo 0) url pin) c
      → All IsSafe (first_request lib getaddrinfo respond left url c).0
  unfolding first_request
  first_request-IsSafe left url (refused error) v = tt
  first_request-IsSafe left url raised v = tt
  first_request-IsSafe left url (accepted pin) v = open_url-IsSafe left 0 url pin v

  -- If the resolver never gives an empty list: every connection of a fetch, whatever the servers answer,
  -- how often they redirect, and however the resolver changes its answers meanwhile, goes to a pinned
  -- address. That address is the first of those that a check of the URL resolved for its host, the URL is
  -- one of http or https, and none of these addresses is private.
  pub fetch_page-IsSafe :
      (left : ℕ) (url : Text) → All IsSafe (fetch_page lib getaddrinfo respond left url).0
  unfolding fetch_page
  fetch_page-IsSafe left url =
      first_request-IsSafe left url (validate_url lib url (getaddrinfo 0))
        (validate_url-IsVetted lib (getaddrinfo 0) url)
