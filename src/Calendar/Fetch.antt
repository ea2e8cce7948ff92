-- ===== src/Calendar/Fetch.antt =====
-- Fetching a calendar, hop by hop (api/src/lib/safeIcsFetch.ts).
pub mod Pinned
use intern_logenhelfer_de.Base.{
  ℕ, zero, suc, ◌+◌, String, Bool, true, false, not, ◌&&◌, ◌||◌, Option, none, some, List, [], ◌∷◌,
  ltb, leb, ◌==◌, string_eq, if◌then◌else◌, Result, ok, err,
}
use intern_logenhelfer_de.Calendar.Address.{is_blocked_address}

abbrev pub max_redirects : ℕ
max_redirects = 5

pub record Url : Type 0 where
  pub protocol : String
  pub hostname : String
  pub href : String

pub record Response : Type 0 where
  pub status : ℕ
  pub location : Option String
  pub text : String

-- The network and the URL parser. Name servers and other servers may answer each call differently,
-- so a call takes its number; `none` is a throw.
pub record Network : Type 0 where
  pub new_url : String → Option Url
  pub resolve_url : String → Url → Option String
  pub lookup : ℕ → String → Option (List String)
  pub fetch : ℕ → Url → List String → Option Response
  pub lower : String → String

pub data FetchError : Type 0 where
  invalid_url forbidden_protocol lookup_failed blocked_address no_address : FetchError
  connection_failed too_many_redirects no_location bad_status : FetchError

-- A connection to a URL, pinned to these addresses.
pub record Connection : Type 0 where
  pub url : Url
  pub addresses : List String

module _ (net : Network) where
  -- The loop over the resolved addresses.
  unfoldable pub check_addresses : List String → Result FetchError (List String)
  check_addresses [] = ok []
  check_addresses (address ∷ rest) = elim (check_addresses rest) [
    | err e ↦ err blocked_address
    | ok checked ↦
        if is_blocked_address (net.lower address)
        then err blocked_address
        else ok (address ∷ checked)
  ]

  abbrev pub non_empty_addresses : Url → List String → Result FetchError Connection
  non_empty_addresses url [] = err no_address
  non_empty_addresses url (a ∷ rest) = ok (record { url = url; addresses = a ∷ rest })

  -- The URL with the addresses that its name has been checked to resolve to.
  unfoldable pub resolve_and_validate : ℕ → String → Result FetchError Connection
  unfolding check_addresses
  resolve_and_validate n text = elim (net.new_url text) [
    | none ↦ err invalid_url
    | some url ↦
        if not (url.protocol == "http:" || url.protocol == "https:")
        then err forbidden_protocol
        else elim (net.lookup n url.hostname) [
          | none ↦ err lookup_failed
          | some resolved ↦ elim (check_addresses resolved) [
            | err e ↦ err e
            | ok addresses ↦ non_empty_addresses url addresses
          ]
        ]
  ]

  abbrev pub is_redirect : Response → Bool
  is_redirect r = leb 300 r.status && ltb r.status 400

  -- `if (!response.ok) throw …; return await response.text()`
  abbrev pub finish : Response → Result FetchError String
  finish r = if leb 200 r.status && ltb r.status 300 then ok r.text else err bad_status

  -- The next hop of a redirect, validated before it is followed.
  unfoldable pub next_hop : ℕ → Connection → Response → Result FetchError Connection
  unfolding resolve_and_validate
  next_hop n c r = elim r.location [
    | none ↦ err no_location
    | some location ↦
        if location == "" then err no_location else elim (net.resolve_url location c.url) [
          | none ↦ err invalid_url
          | some next ↦ resolve_and_validate n next
        ]
  ]

  -- The loop, with the redirects that are left, as the connections made and the result.
  unfoldable pub follow : ℕ → ℕ → Connection → List Connection × Result FetchError String
  unfolding next_hop
  follow zero n c = elim (net.fetch n c.url c.addresses) [
    | none ↦ (c ∷ [], err connection_failed)
    | some r ↦ (c ∷ [], if is_redirect r then err too_many_redirects else finish r)
  ]
  follow (suc left) n c = elim (net.fetch n c.url c.addresses) [
    | none ↦ (c ∷ [], err connection_failed)
    | some r ↦ elim (is_redirect r) [
      | false ↦ (c ∷ [], finish r)
      | true ↦ elim (next_hop (suc n) c r) [
        | err e ↦ (c ∷ [], err e)
        | ok next ↦ let (more, result) = follow left (suc n) next in (c ∷ more, result)
      ]
    ]
  ]

  unfoldable pub fetch_ics_url_safely : String → List Connection × Result FetchError String
  unfolding resolve_and_validate follow
  fetch_ics_url_safely text = elim (resolve_and_validate 0 text) [
    | err e ↦ ([], err e)
    | ok c ↦ follow max_redirects 0 c
  ]
