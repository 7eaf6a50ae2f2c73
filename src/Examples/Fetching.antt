-- ===== src/Examples/Fetching.antt =====
-- The theorems on fetched pages and on erasures, applied to two hosts and a few rows.
use lucyd.Base.{
  ℕ, ◌≡◌, ◌≢◌, refl, arith, Text, Bool, false, Option, none, some, List, [], ◌∷◌, ◌++◌, All, lit,
  text_eq, starts_with, if◌then◌else◌,
}
use lucyd.Web.{
  no_port, IpAddress, Library, Connection, pinned, Response, page, redirect, fetched, fetch_page,
}
use lucyd.Web.Pinned.{IsSafe, fetch_page-IsSafe}
use lucyd.Web.Html.{
  start_tag, end_tag, characters, HtmlToText, all_characters, feed, is_skipped, feed-hidden,
}
use lucyd.Gdpr.{Stores, stored_message, redact, handle_gdpr_redact}
use lucyd.Gdpr.Framed.{Framed, handle_gdpr_redact-Framed}

abbrev address : Bool → IpAddress
address internal = record {
  is_private = internal;
  is_loopback = false;
  is_reserved = false;
  is_link_local = false;
}

-- every URL is its host; addresses that begin with 10. are private
abbrev lib : Library
lib = record {
  urlparse = λ url. some (record { scheme = lit "https"; hostname = url; port_part = no_port });
  ip_address = λ ip. some (address (starts_with ip (lit "10.")));
  normalize = λ t. none;
}

-- the host "in" has a private address
abbrev resolver : ℕ → Text → ℕ → Option (List Text)
resolver hop host n =
    if text_eq host (lit "in") then some (lit "10.0.0.1" ∷ []) else some (lit "1.1.1.1" ∷ [])

resolver-found : (hop : ℕ) (host : Text) (n : ℕ) → resolver hop host n ≢ some []
resolver-found hop host n = ground arith

-- the first page redirects
abbrev respond : ℕ → Connection → Response
respond ℕ.zero c = redirect (lit "b")
respond (ℕ.suc hop) c = page (lit "text/plain") (lit "hello")

fetch_page-IsSafe_example :
    All
      (IsSafe lib resolver respond resolver-found)
      (fetch_page lib resolver respond 10 (lit "a")).0
fetch_page-IsSafe_example = fetch_page-IsSafe lib resolver respond resolver-found 10 (lit "a")

-- both connections are made
followed : fetch_page lib resolver respond 10 (lit "a") ≡ (
  pinned (lit "a") (lit "1.1.1.1") ∷ pinned (lit "b") (lit "1.1.1.1") ∷ [],
  fetched (lit "text/plain") (lit "hello"),
)
unfolding fetch_page starts_with
followed = refl

abbrev blank : HtmlToText
blank = record { result = []; skip = false; in_pre = false }

feed-hidden_example :
    feed
      (start_tag (lit "script") []
        ∷ (all_characters (lit "alert(1)" ∷ [])
            ++ end_tag (lit "script") ∷ characters (lit "hi") ∷ []))
      blank
    ≡ feed (characters (lit "hi") ∷ []) (record blank { skip = false })
unfolding is_skipped
feed-hidden_example =
    feed-hidden (lit "script") (lit "script") [] (lit "alert(1)" ∷ []) (characters (lit "hi") ∷ [])
      blank refl refl

abbrev stores : Stores
stores = record {
  facts = [];
  aliases = [];
  episodes = [];
  messages = record { id = 1; payload = lit "bob" } ∷ record { id = 2; payload = lit "bob" } ∷ [];
  events = [];
  chunks = [];
  embedding_cache = [];
  jobs = [];
  downloads = [];
}

abbrev same_json : Text → Option Text
same_json t = some t

abbrev inside : Option (Text → Option Text)
inside = some (λ t. some t)

abbrev no_file : Text → Bool
no_file t = false

handle_gdpr_redact-Framed_example : Framed inside stored_message 2 (lit "bob") stores (
    handle_gdpr_redact same_json inside no_file stored_message 2 redact
      (lit "bob")
      (lit "X")
      stores)
handle_gdpr_redact-Framed_example =
    handle_gdpr_redact-Framed same_json inside no_file stored_message 2 redact (lit "bob") (lit "X")
      stores
