-- ===== src/Mailing/Digest/Lines.antt =====
-- Every registration with an event has its line in the mail.
use mathlib.Core.List.{map-append}
use intern_logenhelfer_de.Base.{
  ℕ, ◌≡◌, refl, subst, All-map, ap, sym, ◌∙◌, String, Bool, true, false, ◌&&◌, ◌||◌, some, List, [],
  ◌∷◌, ◌++◌, map, ◌==◌, nat_eq, nat_beq_iff, string_eq, eq_refl, select, any, any-append, is_some,
  arith, All, Bool-cases, Option-cases, inl, inr,
}
use intern_logenhelfer_de.Store.{User}
use intern_logenhelfer_de.Mailing.Digest.{
  Participant, DigestEvent, DigestStrings, event_of, is_valid, group_by_event, line_of, event_lines,
  all_lines, is_pending, collect,
}
use intern_logenhelfer_de.Mailing.Digest.Groups.{insert, push-valid}

abbrev pub has_line : String → List String → Bool
has_line l lines = any (λ m. m == l) lines

pub has_line-append :
    (l : String) (xs ys : List String) → has_line l (xs ++ ys) ≡ (has_line l xs || has_line l ys)
has_line-append l xs ys = any-append (λ m. m == l) xs ys

-- Whether one of the groups has a row with this line.
module _ (strings : DigestStrings) (events : List DigestEvent) (users : List User) where
  abbrev among : String → List Participant → Bool
  among l ps = has_line l (map (line_of strings users) ps)

  among-append :
      (l : String) (ps qs : List Participant) → among l (ps ++ qs) ≡ (among l ps || among l qs)
  among-append l ps qs =
      ap (has_line l) (map-append (line_of strings users) ps qs)
      ∙ has_line-append l (map (line_of strings users) ps) (map (line_of strings users) qs)

  abbrev mentions : String → List (ℕ × List Participant) → Bool
  mentions l [] = false
  mentions l ((id, ps) ∷ groups) =
      (is_some (event_of events (some id)) && among l ps) || mentions l groups

  has_line-all_lines :
      (line : DigestEvent → String) (l : String) (groups : List (ℕ × List Participant))
      → mentions l groups ≡ true
      → has_line l (all_lines line strings events users groups) ≡ true
  unfolding all_lines
  has_line-all_lines line l [] h = cc
  has_line-all_lines line l ((id, ps) ∷ groups) h =
      let rest = all_lines line strings events users groups in
      let block = event_lines line strings users (event_of events (some id)) ps in
      elim (Option-cases (event_of events (some id))) [
        | inl gone ↦ rw gone (has_line-all_lines line l groups (rw gone at h))
        | inr (e, there) ↦
            let lines = map (line_of strings users) ps in
            rw there (
              has_line-append l (line e ∷ (lines ++ "" ∷ [])) rest
              ∙ elim (Bool-cases (among l ps)) [
                | inl here ↦ ground (arith, has_line-append l lines ("" ∷ []), here)
                | inr absent ↦
                    let later = has_line-all_lines line l groups (rw (there, absent) at h) in
                    ground arith
              ])
      ]

  mentions-insert_new :
      (id : ℕ) (p : Participant) (groups : List (ℕ × List Participant))
      → is_some (event_of events (some id)) ≡ true
      → mentions (line_of strings users p) (insert id p groups) ≡ true
  unfolding insert
  mentions-insert_new id p [] h = let own = eq_refl (line_of strings users p) in ground (arith, own)
  mentions-insert_new id p ((j, ps) ∷ groups) h = elim (Bool-cases (j == id)) [
    | inl same ↦
        let l = line_of strings users p in
        rw (same, h) (ground (arith, among-append l ps (p ∷ []), eq_refl l))
    | inr other ↦ rw other (ground (arith, mentions-insert_new id p groups h))
  ]

  mentions-insert_old :
      (id : ℕ) (l : String) (p : Participant) (groups : List (ℕ × List Participant))
      → mentions l groups ≡ true
      → mentions l (insert id p groups) ≡ true
  unfolding insert
  mentions-insert_old id l p [] h = cc
  mentions-insert_old id l p ((j, ps) ∷ groups) h = elim (Bool-cases (j == id)) [
    | inl same ↦
        let key : j ≡ id = (nat_beq_iff j id).0 same in
        rw same (
          ground
            (arith, among-append l ps (p ∷ []), ap (λ i. is_some (event_of events (some i))) key))
    | inr other ↦ rw other (ground (arith, mentions-insert_old id l p groups))
  ]

  mentions-group :
      (l : String) (ps : List Participant) (groups : List (ℕ × List Participant))
      → mentions l groups ≡ true
      → mentions l (group_by_event events ps groups) ≡ true
  unfolding group_by_event
  mentions-group l [] groups h = h
  mentions-group l (p ∷ ps) groups h = elim (Bool-cases (is_valid events p)) [
    | inl fits ↦
        let (id, pushed, _) = push-valid events p groups fits in
        rw (fits, pushed)
          (mentions-group l ps (insert id p groups) (mentions-insert_old id l p groups h))
    | inr stray ↦ rw stray (mentions-group l ps groups h)
  ]

  abbrev Mentioned : List (ℕ × List Participant) → List Participant → Type 0
  Mentioned groups ps =
      All (λ p. is_valid events p ≡ true → mentions (line_of strings users p) groups ≡ true) ps

  group-mentions :
      (ps : List Participant) (groups : List (ℕ × List Participant))
      → Mentioned (group_by_event events ps groups) ps
  unfolding group_by_event
  group-mentions [] groups = tt
  group-mentions (p ∷ ps) groups = elim (Bool-cases (is_valid events p)) [
    | inl fits ↦
        let (id, pushed, known) = push-valid events p groups fits in
        let l = line_of strings users p in
        let step : group_by_event events (p ∷ ps) groups
            ≡ group_by_event events ps (insert id p groups) =
          rw (fits, pushed) refl in
        subst (λ g. Mentioned g (p ∷ ps)) (sym step)
          (
            (λ _. mentions-group l ps (insert id p groups) (mentions-insert_new id p groups known)),
            group-mentions ps (insert id p groups),
          )
    | inr stray ↦
        let step : group_by_event events (p ∷ ps) groups ≡ group_by_event events ps groups =
          rw stray refl in
        subst (λ g. Mentioned g (p ∷ ps)) (sym step) ((λ h. absurd (cc)), group-mentions ps groups)
  ]

  -- The lines of all pending rows with an event.
  pub collect-lines :
      (line : DigestEvent → String) (rows : List Participant)
      → All
          (λ p.
            is_valid events p ≡ true
            → has_line (line_of strings users p) (collect line strings events users rows).lines
              ≡ true)
          (select is_pending rows)
  unfolding collect
  collect-lines line rows =
      let pending = select is_pending rows in
      All-map _
        (λ p told fits.
          has_line-all_lines line (line_of strings users p) (group_by_event events pending [])
            (told fits))
        pending (group-mentions pending [])
