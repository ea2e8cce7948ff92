-- ===== src/Calendar/Fetch/Pinned.antt =====
-- Every connection that a fetch makes is pinned to checked addresses.
use intern_logenhelfer_de.Base.{
  ◌||◌, ◌==◌, string_eq, ℕ, zero, suc, ◌≤◌, ◌≡◌, refl, arith, String, false, List, [], ◌∷◌, length,
  All, Result, ok, err, Bool-cases, Option-cases, inl, inr, ◌⊎◌, subst, not,
}
use intern_logenhelfer_de.Calendar.Address.{is_blocked_address}
use intern_logenhelfer_de.Calendar.Fetch.{
  Url, Response, Network, FetchError, Connection, check_addresses, non_empty_addresses,
  resolve_and_validate, is_redirect, next_hop, follow, fetch_ics_url_safely,
}

Result-cases : {E A : Type 0} (r : Result E A) → ((e : E) × (r ≡ err e)) ⊎ ((a : A) × (r ≡ ok a))
Result-cases (err e) = inl (e, refl)
Result-cases (ok a) = inr (a, refl)

module _ (net : Network) where
  -- A connection is safe that has an address, and none that is blocked.
  abbrev pub IsSafe : Connection → Type 0
  IsSafe c =
      (1 ≤ length c.addresses) × All (λ a. is_blocked_address (net.lower a) ≡ false) c.addresses

  abbrev IsSafeResult : Result FetchError Connection → Type 0
  IsSafeResult (err e) = Unit
  IsSafeResult (ok c) = IsSafe c

  abbrev AreUnblocked : Result FetchError (List String) → Type 0
  AreUnblocked (err e) = Unit
  AreUnblocked (ok addresses) = All (λ a. is_blocked_address (net.lower a) ≡ false) addresses

  check_addresses-unblocked : (resolved : List String) → AreUnblocked (check_addresses net resolved)
  unfolding check_addresses
  check_addresses-unblocked [] = tt
  check_addresses-unblocked (a ∷ rest) =
      let h = check_addresses-unblocked rest in
      elim (Result-cases (check_addresses net rest)) [
        | inl (e, failed) ↦ rw failed tt
        | inr (checked, passed) ↦ elim (Bool-cases (is_blocked_address (net.lower a))) [
          | inl blocked ↦ rw (passed, blocked) tt
          | inr free ↦ rw (passed, free) (free, subst AreUnblocked passed h)
        ]
      ]

  non_empty_addresses-safe :
      (url : Url) (addresses : List String)
      → All (λ a. is_blocked_address (net.lower a) ≡ false) addresses
      → IsSafeResult (non_empty_addresses net url addresses)
  non_empty_addresses-safe url [] h = tt
  non_empty_addresses-safe url (a ∷ rest) h = (omega arith, h)

  abbrev validated : Url → Result FetchError (List String) → Result FetchError Connection
  validated url checked = elim checked [
    | err e ↦ err e
    | ok addresses ↦ non_empty_addresses net url addresses
  ]

  validated-safe :
      (url : Url) (checked : Result FetchError (List String))
      → AreUnblocked checked
      → IsSafeResult (validated url checked)
  validated-safe url (err e) h = tt
  validated-safe url (ok addresses) h = non_empty_addresses-safe url addresses h

  resolve_and_validate-safe :
      (n : ℕ) (text : String) → IsSafeResult (resolve_and_validate net n text)
  unfolding resolve_and_validate
  resolve_and_validate-safe n text = elim (Option-cases (net.new_url text)) [
    | inl bad ↦ rw (bad, resolve_and_validate) tt
    | inr (url, parsed) ↦
        elim (Bool-cases (not (url.protocol == "http:" || url.protocol == "https:"))) [
          | inl forbidden ↦ rw (parsed, resolve_and_validate, forbidden) tt
          | inr allowed ↦ elim (Option-cases (net.lookup n url.hostname)) [
            | inl lost ↦ rw (parsed, resolve_and_validate, allowed, lost) tt
            | inr (resolved, found) ↦
                rw (parsed, resolve_and_validate, allowed, found)
                  (validated-safe url (check_addresses net resolved)
                    (check_addresses-unblocked resolved))
          ]
        ]
  ]

  next_hop-safe : (n : ℕ) (c : Connection) (r : Response) → IsSafeResult (next_hop net n c r)
  unfolding next_hop
  next_hop-safe n c r = elim (Option-cases r.location) [
    | inl lacks ↦ rw (lacks, next_hop) tt
    | inr (location, has) ↦ elim (Bool-cases (location == "")) [
      | inl empty ↦ rw (has, next_hop, empty) tt
      | inr full ↦ elim (Option-cases (net.resolve_url location c.url)) [
        | inl bad ↦ rw (has, next_hop, full, bad) tt
        | inr (next, good) ↦ rw (has, next_hop, full, good) (resolve_and_validate-safe n next)
      ]
    ]
  ]

  -- What a run of hops may have done: at most so many connections, all safe.
  abbrev IsTrace : ℕ → List Connection × Result FetchError String → Type 0
  IsTrace most (made, result) = All IsSafe made × (length made ≤ most)

  follow-safe : (left n : ℕ) (c : Connection) → IsSafe c → IsTrace (suc left) (follow net left n c)
  unfolding follow
  follow-safe zero n c safe = elim (Option-cases (net.fetch n c.url c.addresses)) [
    | inl failed ↦ rw (failed, follow) ((safe, tt), omega arith)
    | inr (r, answered) ↦ rw (answered, follow) ((safe, tt), omega arith)
  ]
  follow-safe (suc left) n c safe = elim (Option-cases (net.fetch n c.url c.addresses)) [
    | inl failed ↦ rw (failed, follow) ((safe, tt), omega arith)
    | inr (r, answered) ↦ elim (Bool-cases (is_redirect net r)) [
      | inr final ↦ rw (answered, follow, final) ((safe, tt), omega arith)
      | inl redirect ↦ elim (Result-cases (next_hop net (suc n) c r)) [
        | inl (e, refused) ↦ rw (answered, follow, redirect, refused) ((safe, tt), omega arith)
        | inr (next, passed) ↦
            let (made, short) =
              follow-safe left (suc n) next
                (subst IsSafeResult passed (next_hop-safe (suc n) c r)) in
            rw (answered, follow, redirect, passed) ((safe, made), omega (arith, short))
      ]
    ]
  ]

-- Whatever name servers answer, from one call to the next, and wherever other servers redirect to: a
-- fetch ends after at most six connections, and each of them is pinned to addresses that were
-- checked, of which there is at least one and none is blocked.
pub fetch_ics_url_safely_lem :
    (net : Network) (text : String)
    → let (made, result) = fetch_ics_url_safely net text in
      All (IsSafe net) made × (length made ≤ 6)
unfolding fetch_ics_url_safely
fetch_ics_url_safely_lem net text = elim (Result-cases (resolve_and_validate net 0 text)) [
  | inl (e, refused) ↦ rw (refused, fetch_ics_url_safely) (tt, omega arith)
  | inr (c, passed) ↦
      rw (passed, fetch_ics_url_safely)
        (follow-safe net 5 0 c
          (subst (IsSafeResult net) passed (resolve_and_validate-safe net 0 text)))
]
