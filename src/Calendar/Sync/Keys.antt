-- ===== src/Calendar/Sync/Keys.antt =====
-- Updates by the primary key of `external_events`.
use intern_logenhelfer_de.Base.{
  ◌++◌, ℕ, ◌<◌, ◌≡◌, ◌≢◌, refl, Bool, false, some, List, [], ◌∷◌, find, select, update_where, any,
  All, ◌==◌, nat_eq, if◌then◌else◌, arith, Bool-cases, inl, inr, All-find, nat_beq_iff,
  All-update_where, All-append, suc, All-map, HasKeys, update_where_congr, update_where-HasKeys,
  append-HasKeys,
}
use intern_logenhelfer_de.Calendar.Sync.{ExternalEvent, Events}

abbrev pub IsKeyed : List ExternalEvent → Type 0
IsKeyed rows = HasKeys (λ e. e.id) rows

pub record IsValid (es : Events) : Type 0 where
  pub keyed : IsKeyed es.rows
  pub below : All (λ e. e.id < es.next_id) es.rows

-- No row found among these has another row's id.
pub find_other :
    (p : ExternalEvent → Bool) (id : ℕ) (rows : List ExternalEvent) (e : ExternalEvent)
    → All (λ d. d.id ≢ id) rows
    → find p rows ≡ some e
    → (e.id == id) ≡ false
find_other p id rows e h found =
    let ne = All-find (λ d. d.id ≢ id) p rows e h found in
    elim (Bool-cases (e.id == id)) [
      | inl same ↦ absurd (ne ((nat_beq_iff e.id id).0 same))
      | inr other ↦ other
    ]

-- Selecting rows and updating by their ids is updating where they fit.
any_other :
    (p : ExternalEvent → Bool) (id : ℕ) (rows : List ExternalEvent)
    → All (λ d. d.id ≢ id) rows
    → any (λ q. q.id == id) (select p rows) ≡ false
any_other p id [] h = refl
any_other p id (d ∷ rows) (ne, h) = ground (arith, any_other p id rows h)

same_ids :
    (p : ExternalEvent → Bool) (d : ExternalEvent) (chosen rows : List ExternalEvent)
    → All (λ e. e.id ≢ d.id) rows
    → All (λ e. any (λ q. q.id == e.id) chosen ≡ p e) rows
    → All (λ e. any (λ q. q.id == e.id) (if p d then d ∷ chosen else chosen) ≡ p e) rows
same_ids p d chosen [] ne h = tt
same_ids p d chosen (e ∷ rows) (ne, nes) (h, hs) =
    (ground (arith, h, ne), same_ids p d chosen rows nes hs)

chosen_ids :
    (p : ExternalEvent → Bool) (rows : List ExternalEvent)
    → IsKeyed rows
    → All (λ e. any (λ q. q.id == e.id) (select p rows) ≡ p e) rows
chosen_ids p [] k = tt
chosen_ids p (d ∷ rows) (ne, k) = (
  ground (arith, any_other p d.id rows ne),
  same_ids p d (select p rows) rows ne (chosen_ids p rows k),
)

pub update-chosen :
    (p : ExternalEvent → Bool) (f : ExternalEvent → ExternalEvent) (rows : List ExternalEvent)
    → IsKeyed rows
    → update_where (λ e. any (λ q. q.id == e.id) (select p rows)) f rows ≡ update_where p f rows
update-chosen p f rows k = update_where_congr f _ p rows (chosen_ids p rows k)

module _ (q : ExternalEvent → Bool) (f : ExternalEvent → ExternalEvent)
    (keep : (e : ExternalEvent) → (f e).id ≡ e.id) where
  -- An update that keeps the ids keeps the table well-formed.
  pub update_where-IsValid :
      (es : Events) → IsValid es → IsValid (record es { rows = update_where q f es.rows })
  update_where-IsValid es v = record {
    keyed = update_where-HasKeys (λ e. e.id) q f keep es.rows v.keyed;
    below =
        All-update_where (λ e. e.id < es.next_id) q f (λ e h. ground (arith, keep e)) es.rows
          v.below;
  }

-- So does a new row with the next id.
pub append-IsValid :
    (es : Events) (e : ExternalEvent)
    → e.id ≡ es.next_id
    → IsValid es
    → IsValid (record { rows = es.rows ++ e ∷ []; next_id = suc es.next_id })
append-IsValid es e same v = record {
  keyed = append-HasKeys (λ e. e.id) es.next_id es.rows e same v.keyed v.below;
  below =
      All-append (λ d. d.id < suc es.next_id) es.rows (e ∷ [])
        (All-map (λ d. d.id < es.next_id) {Q = λ d. d.id < suc es.next_id} (λ d h. omega arith)
          es.rows v.below)
        (omega arith, tt);
}
