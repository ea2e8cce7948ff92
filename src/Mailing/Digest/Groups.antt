-- ===== src/Mailing/Digest/Groups.antt =====
-- Grouping by event loses no row.
use intern_logenhelfer_de.Base.{
  ℕ, ◌≡◌, refl, ap, sym, ◌∙◌, true, ◌||◌, some, List, [], ◌∷◌, ◌++◌, map, ◌==◌, nat_eq, string_eq,
  if◌then◌else◌, select, any-append, is_some, get, set, arith, Bool-cases, Option-cases, inl, inr,
  is_listed,
}
use mathlib.Core.List.{map-append}
use intern_logenhelfer_de.Mailing.Digest.{
  Participant, DigestEvent, event_of, is_valid, or_empty, push, group_by_event, group_ids,
}

-- Looking the bucket up and putting it back longer is one walk.
unfoldable pub insert : ℕ → Participant → List (ℕ × List Participant) → List (ℕ × List Participant)
insert id p [] = (id, p ∷ []) ∷ []
insert id p ((j, ps) ∷ groups) =
    if j == id then (id, ps ++ p ∷ []) ∷ groups else (j, ps) ∷ insert id p groups

set-insert :
    (id : ℕ) (p : Participant) (bucket : List Participant) (groups : List (ℕ × List Participant))
    → or_empty (get id groups) ++ p ∷ [] ≡ bucket
    → set id bucket groups ≡ insert id p groups
unfolding insert
set-insert id p bucket [] e = rw (← e) refl
set-insert id p bucket ((j, ps) ∷ groups) e = elim (Bool-cases (j == id)) [
  | inl same ↦ let e' : ps ++ p ∷ [] ≡ bucket = rw same at e in rw (same, ← e') refl
  | inr other ↦
      let e' : or_empty (get id groups) ++ p ∷ [] ≡ bucket = rw other at e in
      rw other (ap (λ g. (j, ps) ∷ g) (set-insert id p bucket groups e'))
]

pub push-insert :
    (id : ℕ) (p : Participant) (groups : List (ℕ × List Participant))
    → push (some id) p groups ≡ insert id p groups
push-insert id p groups = set-insert id p (or_empty (get id groups) ++ p ∷ []) groups refl

-- Ids of rows, after one more row.
listed-append :
    (k : ℕ) (xs ys : List ℕ) → is_listed (xs ++ ys) k ≡ (is_listed xs k || is_listed ys k)
listed-append k xs ys = any-append (λ i. i == k) xs ys

group_ids-insert :
    (k id : ℕ) (p : Participant) (groups : List (ℕ × List Participant))
    → is_listed (group_ids (insert id p groups)) k ≡ (is_listed (group_ids groups) k || p.id == k)
unfolding insert
group_ids-insert k id p [] = ground arith
group_ids-insert k id p ((j, ps) ∷ groups) =
    let ids = map (λ p. p.id) ps in
    elim (Bool-cases (j == id)) [
      | inl same ↦ rw same (
          ap (λ l. is_listed (l ++ group_ids groups) k) (map-append (λ p. p.id) ps (p ∷ []))
          ∙ listed-append k (ids ++ p.id ∷ []) (group_ids groups)
          ∙ ground (arith, listed-append k ids (p.id ∷ []), listed-append k ids (group_ids groups)))
      | inr other ↦ rw other (
          listed-append k ids (group_ids (insert id p groups))
          ∙ ground (arith, group_ids-insert k id p groups, listed-append k ids (group_ids groups)))
    ]

-- A row with an event goes to one bucket.
pub push-valid :
    (events : List DigestEvent) (p : Participant) (groups : List (ℕ × List Participant))
    → is_valid events p ≡ true
    → (id : ℕ) × (push p.event_id p groups ≡ insert id p groups)
      × (is_some (event_of events (some id)) ≡ true)
push-valid events p groups fits = elim (Option-cases p.event_id) [
  | inl missing ↦ absurd (ground arith)
  | inr (id, given) ↦ (
    id,
    ap (λ e. push e p groups) given ∙ push-insert id p groups,
    ap (λ e. is_some (event_of events e)) (sym given) ∙ fits,
  )
]

-- The ids of the groups are those of the rows with an event.
pub group_ids_lem :
    (events : List DigestEvent) (k : ℕ) (ps : List Participant)
    (groups : List (ℕ × List Participant))
    → is_listed (group_ids (group_by_event events ps groups)) k ≡ (
        is_listed (group_ids groups) k
        || is_listed (map (λ p. p.id) (select (is_valid events) ps)) k)
unfolding group_by_event
group_ids_lem events k [] groups = ground arith
group_ids_lem events k (p ∷ ps) groups = elim (Bool-cases (is_valid events p)) [
  | inl fits ↦
      let (id, pushed, _) = push-valid events p groups fits in
      rw (fits, pushed)
        (group_ids_lem events k ps (insert id p groups)
          ∙ ground (arith, group_ids-insert k id p groups))
  | inr stray ↦ rw stray (group_ids_lem events k ps groups)
]
