-- ===== src/Auth/RefreshToken/Race.antt =====
-- Concurrent rotations: each request runs its database calls in order, other requests between them.
use intern_logenhelfer_de.Base.{
  count_where-append, find, inr, inl, Option-cases, ℕ, zero, suc, ◌+◌, ◌≤◌, ◌≡◌, refl, String, Bool,
  false, not, ◌&&◌, none, some, List, [], ◌∷◌, arith, ◌==◌, ok, err, Result, if◌then◌else◌, any,
  update_where, count_where, is_some, nat_eq, string_eq, Bool-cases, ◌<◌, map, Option, inl,
  Option-cases, inr,
}
use intern_logenhelfer_de.External.{External}
use intern_logenhelfer_de.Http.{Thrown, refresh_token_invalid}
use intern_logenhelfer_de.Store.{Store, User, RefreshToken}
use intern_logenhelfer_de.Auth.RefreshToken.{
  find_token, is_consumable, mark_consumed, mark_revoked, consume, lose, win, revoke_family,
  issue_refresh_token, rotate_refresh_token, was_consumed, find, find_user,
}

-- Where a call of `rotateRefreshToken` stands.
pub data Phase : Type 0 where
  presented : String → Phase
  holding winning losing : RefreshToken → Phase
  rotated : RefreshToken → String × User → Phase
  orphaned : RefreshToken → Thrown → Phase
  failed : Thrown → Phase

-- The outcome of the last call, for a request that has consumed its row.
abbrev pub settled : RefreshToken → Result Thrown (String × User) → Phase
settled r (ok issued) = rotated r issued
settled r (err e) = orphaned r e

module _ (x : External) (ttl_seconds : ℕ) where
  -- The next database call of one request.
  pub step : Phase → String → ℕ → Store → Phase × Store
  step (presented raw) next_raw now s = elim (find_token x raw s) [
    | none ↦ (failed refresh_token_invalid, s)
    | some r ↦ (holding r, s)
  ]
  step (holding r) next_raw now s =
      let (won, s') = consume r.id now s in (if won then winning r else losing r, s')
  step (winning r) next_raw now s =
      let (result, s') = win x ttl_seconds r next_raw now s in (settled r result, s')
  step (losing r) next_raw now s = let (thrown, s') = lose r now s in (failed thrown, s')
  step (rotated r issued) next_raw now s = (rotated r issued, s)
  step (orphaned r e) next_raw now s = (orphaned r e, s)
  step (failed e) next_raw now s = (failed e, s)

  -- The `i`-th request makes its next call.
  pub advance : ℕ → String → ℕ → List Phase → Store → List Phase × Store
  advance i next_raw now [] s = ([], s)
  advance zero next_raw now (p ∷ ps) s = let (p', s') = step p next_raw now s in (p' ∷ ps, s')
  advance (suc i) next_raw now (p ∷ ps) s =
      let (ps', s') = advance i next_raw now ps s in (p ∷ ps', s')

  -- An interleaving: which request moves, the next token it draws, and the time.
  pub run : List (ℕ × String × ℕ) → List Phase → Store → List Phase × Store
  run [] ps s = (ps, s)
  run ((i, next_raw, now) ∷ more) ps s =
      let (ps', s') = advance i next_raw now ps s in run more ps' s'

-- The request has consumed the row of this id.
abbrev pub has_won : ℕ → Phase → Bool
has_won id (winning r) = r.id == id
has_won id (rotated r _) = r.id == id
has_won id (orphaned r _) = r.id == id
has_won id _ = false

abbrev pub is_unspent : ℕ → RefreshToken → Bool
is_unspent id r = r.id == id && not (is_some r.consumed_at)

-- The requests that have consumed the row, and the rows still to be consumed.
abbrev pub claims : ℕ → List Phase → Store → ℕ
claims id ps s = count_where (has_won id) ps + count_where (is_unspent id) s.refresh_tokens

-- A consume that changes a row leaves fewer to be consumed, and in no case more.
unspent-consume :
    (id own now : ℕ) (rows : List RefreshToken)
    → count_where (is_unspent id) (update_where (is_consumable own now) (mark_consumed now) rows)
        + (if any (is_consumable own now) rows && (own == id) then 1 else 0)
      ≤ count_where (is_unspent id) rows
unspent-consume id own now [] = ground arith
unspent-consume id own now (r ∷ rows) = ground (arith, unspent-consume id own now rows)

unspent-revoke :
    (id now : ℕ) (family : String) (rows : List RefreshToken)
    → count_where
        (is_unspent id)
        (update_where (λ r. r.family_id == family) (mark_revoked now) rows)
      ≡ count_where (is_unspent id) rows
unspent-revoke id now family [] = refl
unspent-revoke id now family (r ∷ rows) = ground (arith, unspent-revoke id now family rows)

-- One call of one request adds no claim, and the id sequence does not go back.
abbrev Keeps : ℕ → Phase → Store → Phase × Store → Type 0
Keeps id p s (p', s') =
    ((if has_won id p' then 1 else 0) + count_where (is_unspent id) s'.refresh_tokens
      ≤ (if has_won id p then 1 else 0) + count_where (is_unspent id) s.refresh_tokens)
    × (s.next_id ≤ s'.next_id)

consume-Keeps :
    (id now : ℕ) (r : RefreshToken) (s : Store)
    → let (won, s') = consume r.id now s in
      Keeps id (holding r) s (if won then winning r else losing r, s')
unfolding consume
consume-Keeps id now r s =
    let fewer = unspent-consume id r.id now s.refresh_tokens in
    elim (Bool-cases (any (is_consumable r.id now) s.refresh_tokens)) [
      | inl won ↦ rw won (let less = rw won at fewer in (omega (arith, less), omega arith))
      | inr lost ↦ rw lost (let less = rw lost at fewer in (omega (arith, less), omega arith))
    ]

lose-Keeps :
    (id now : ℕ) (r : RefreshToken) (s : Store)
    → let (thrown, s') = lose r now s in Keeps id (losing r) s (failed thrown, s')
unfolding lose revoke_family
lose-Keeps id now r s =
    elim (Bool-cases (was_consumed (find (λ c. c.id == r.id) s.refresh_tokens))) [
      | inl used ↦
          rw used (omega (arith, unspent-revoke id now r.family_id s.refresh_tokens), omega arith)
      | inr fresh ↦ rw fresh (omega arith, omega arith)
    ]

module _ (x : External) (ttl_seconds : ℕ) where
  win-Keeps :
      (id now : ℕ) (next_raw : String) (r : RefreshToken) (s : Store)
      → id < s.next_id
      → let (result, s') = win x ttl_seconds r next_raw now s in
        Keeps id (winning r) s (settled r result, s')
  unfolding win issue_refresh_token
  win-Keeps id now next_raw r s lt = elim (Option-cases (find_user r.user_id s)) [
    | inl missing ↦ rw (missing, win) (omega arith, omega arith)
    | inr (u, known) ↦
        rw (known, win)
          (rw (count_where-append (is_unspent id) s.refresh_tokens) (ground arith), omega arith)
  ]

  step-Keeps :
      (id now : ℕ) (next_raw : String) (p : Phase) (s : Store)
      → id < s.next_id
      → Keeps id p s (step x ttl_seconds p next_raw now s)
  unfolding step
  step-Keeps id now next_raw (presented raw) s lt = elim (Option-cases (find_token x raw s)) [
    | inl missing ↦ rw (missing, step) (omega arith, omega arith)
    | inr (r, found) ↦ rw (found, step) (omega arith, omega arith)
  ]
  step-Keeps id now next_raw (holding r) s lt = consume-Keeps id now r s
  step-Keeps id now next_raw (winning r) s lt = win-Keeps id now next_raw r s lt
  step-Keeps id now next_raw (losing r) s lt = lose-Keeps id now r s
  step-Keeps id now next_raw (rotated r issued) s lt = (omega arith, omega arith)
  step-Keeps id now next_raw (orphaned r e) s lt = (omega arith, omega arith)
  step-Keeps id now next_raw (failed e) s lt = (omega arith, omega arith)

  advance-claims :
      (id i now : ℕ) (next_raw : String) (ps : List Phase) (s : Store)
      → id < s.next_id
      → let (ps', s') = advance x ttl_seconds i next_raw now ps s in
        (claims id ps' s' ≤ claims id ps s) × (s.next_id ≤ s'.next_id)
  unfolding advance
  advance-claims id i now next_raw [] s lt = (omega arith, omega arith)
  advance-claims id zero now next_raw (p ∷ ps) s lt =
      let (less, up) = step-Keeps id now next_raw p s lt in (omega (arith, less), up)
  advance-claims id (suc i) now next_raw (p ∷ ps) s lt =
      let (less, up) = advance-claims id i now next_raw ps s lt in (omega (arith, less), up)

  run-claims :
      (id : ℕ) (schedule : List (ℕ × String × ℕ)) (ps : List Phase) (s : Store)
      → id < s.next_id
      → let (ps', s') = run x ttl_seconds schedule ps s in claims id ps' s' ≤ claims id ps s
  unfolding run
  run-claims id [] ps s lt = omega arith
  run-claims id ((i, next_raw, now) ∷ more) ps s lt =
      let (ps', s') = advance x ttl_seconds i next_raw now ps s in
      let (less, up) = advance-claims id i now next_raw ps s lt in
      omega (arith, less, run-claims id more ps' s' (omega (arith, up)))

abbrev pub present_all : List String → List Phase
present_all = map presented

present_all-has_won :
    (id : ℕ) (raws : List String) → count_where (has_won id) (present_all raws) ≡ 0
present_all-has_won id [] = refl
present_all-has_won id (raw ∷ raws) = omega (arith, present_all-has_won id raws)

unspent-le :
    (id : ℕ) (rows : List RefreshToken)
    → count_where (is_unspent id) rows ≤ count_where (λ r. r.id == id) rows
unspent-le id [] = omega arith
unspent-le id (r ∷ rows) = ground (arith, unspent-le id rows)

-- Whatever the number of requests that present tokens and however their database calls interleave,
-- at most one of them consumes the row of a given id, so at most one rotates it.
pub race_one_winner :
    (x : External) (ttl_seconds id : ℕ) (schedule : List (ℕ × String × ℕ)) (raws : List String)
    (s : Store)
    → id < s.next_id
    → count_where (λ r. r.id == id) s.refresh_tokens ≤ 1
    → count_where (has_won id) (run x ttl_seconds schedule (present_all raws) s).0 ≤ 1
race_one_winner x ttl_seconds id schedule raws s lt one = omega (
  arith,
  run-claims x ttl_seconds id schedule (present_all raws) s lt,
  present_all-has_won id raws,
  unspent-le id s.refresh_tokens,
)

-- What the first request has returned or thrown.
abbrev pub result_of : List Phase → Option (Result Thrown (String × User))
result_of (rotated r issued ∷ _) = some (ok issued)
result_of (orphaned r e ∷ _) = some (err e)
result_of (failed e ∷ _) = some (err e)
result_of _ = none

settle_alone :
    (r : RefreshToken) (w : Result Thrown (String × User) × Store)
    → (w.1 ≡ w.1) × (result_of (settled r w.0 ∷ []) ≡ some w.0)
settle_alone r (ok issued, s) = (refl, refl)
settle_alone r (err e, s) = (refl, refl)

-- A request that is left alone does what `rotateRefreshToken` does in one piece.
pub rotate_alone :
    (x : External) (ttl_seconds : ℕ) (raw next_raw : String) (now : ℕ) (s : Store)
    → let (ps, s') =
        run x ttl_seconds
          ((0, next_raw, now) ∷ (0, next_raw, now) ∷ (0, next_raw, now) ∷ [])
          (presented raw ∷ [])
          s in
      let (result, s'') = rotate_refresh_token x ttl_seconds raw next_raw now s in
      (s' ≡ s'') × (result_of ps ≡ some result)
unfolding run advance step rotate_refresh_token
rotate_alone x ttl_seconds raw next_raw now s = elim (Option-cases (find_token x raw s)) [
  | inl missing ↦ rw (missing, step, rotate_refresh_token) (refl, refl)
  | inr (r, found) ↦
      rw (found, step, rotate_refresh_token)
        (elim (Bool-cases (consume r.id now s).0) [
          | inl won ↦
              rw (won, step)
                (settle_alone r (win x ttl_seconds r next_raw now (consume r.id now s).1))
          | inr lost ↦ rw (lost, step) (refl, refl)
        ])
]
