-- ===== src/Ranking/Accounts.antt =====
-- src/analytics/subscriber_ranking.py: what either loop leaves on the board and in the dict of
-- ineligible creators.
use yobi_analytics.Prelude.{
  ◌≡◌, refl, sym, subst, ◌∙◌, Bool, true, false, not, ◌&&◌, ◌||◌, Option, none, some, List, [], ◌∷◌,
  Dict, lookup, has, member, lookup-insert, exists, String, str_eq, eq_iff, ◌⊎◌, inl, inr,
  Bool-cases, Option-cases, if◌then◌else◌, is_some, arith,
}
use yobi_analytics.Prelude.SortKeep.{exists-append}
use yobi_analytics.Ranking.Subscribers.{
  SubscriberRow, Roster, creator_ids, mark_missing, roster_missing_ineligible, judge, judge_rows,
}

-- One row for each creator.
abbrev pub IsUnique : List SubscriberRow → Type 0
IsUnique [] = Unit
IsUnique (row ∷ rows) = (member row.creator_id (creator_ids rows) ≡ false) × IsUnique rows

unfoldable pub find_row : String → List SubscriberRow → Option SubscriberRow
find_row k [] = none
find_row k (row ∷ rows) = if str_eq row.creator_id k then some row else find_row k rows

find_row-absent :
    (k : String) (rows : List SubscriberRow)
    → member k (creator_ids rows) ≡ false
    → find_row k rows ≡ none
unfolding find_row member
find_row-absent k [] h = refl
find_row-absent k (row ∷ rows) h = ground (arith, find_row-absent k rows)

pub find_row-member :
    (k : String) (rows : List SubscriberRow)
    → is_some (find_row k rows) ≡ member k (creator_ids rows)
unfolding find_row member
find_row-member k [] = refl
find_row-member k (row ∷ rows) = ground (arith, find_row-member k rows)

unique_here :
    (k : String) (row : SubscriberRow) (rows : List SubscriberRow)
    → str_eq row.creator_id k ≡ true
    → member row.creator_id (creator_ids rows) ≡ false
    → member k (creator_ids rows) ≡ false
unique_here k row rows e h =
    subst (λ i. member i (creator_ids rows) ≡ false) ((eq_iff row.creator_id k).0 e) h

lookup-mark_missing :
    (k : String) (seen : List String) (roster : Roster)
    → lookup k (mark_missing seen roster)
      ≡ (if has k roster && not (member k seen) then some "current_missing" else none)
unfolding mark_missing lookup
lookup-mark_missing k seen [] = refl
lookup-mark_missing k seen ((j, o) ∷ roster) =
    ground (arith, lookup-mark_missing k seen roster, eq_iff j k)

module _ {E : Type 0} (id_of : E → String) (verdict : SubscriberRow → String ⊎ E) where
  abbrev pub reason_or : Option String → String ⊎ E → Option String
  reason_or base (inl reason) = some reason
  reason_or base (inr entry) = base

  -- The reason that a creator's row gives, or what was there before the loop.
  abbrev pub reason_in : Option String → Option SubscriberRow → Option String
  reason_in base none = base
  reason_in base (some row) = reason_or base (verdict row)

  abbrev pub is_candidate : String ⊎ E → Bool
  is_candidate (inl reason) = false
  is_candidate (inr entry) = true

  abbrev pub is_placed : Option SubscriberRow → Bool
  is_placed none = false
  is_placed (some row) = is_candidate (verdict row)

  -- A candidate carries its row's creator.
  abbrev pub IsNamed : String → String ⊎ E → Type 0
  IsNamed creator_id (inl reason) = Unit
  IsNamed creator_id (inr entry) = id_of entry ≡ creator_id

  lookup-judge :
      (k : String) (row : SubscriberRow) (v : String ⊎ E) (acc : List E × Dict String)
      → lookup k (judge row.creator_id v acc).1
        ≡ (if str_eq row.creator_id k then reason_or (lookup k acc.1) v else lookup k acc.1)
  unfolding judge
  lookup-judge k row (inl reason) acc = lookup-insert row.creator_id k reason acc.1
  lookup-judge k row (inr entry) acc = ground arith

  pub lookup-judge_rows :
      (k : String) (rows : List SubscriberRow) (acc : List E × Dict String)
      → IsUnique rows
      → lookup k (judge_rows verdict rows acc).1 ≡ reason_in (lookup k acc.1) (find_row k rows)
  unfolding judge_rows find_row
  lookup-judge_rows k [] acc u = refl
  lookup-judge_rows k (row ∷ rows) acc u = elim (Bool-cases (str_eq row.creator_id k)) [
    | inl e ↦
        let absent = find_row-absent k rows (unique_here k row rows e u.0) in
        rw e (
          lookup-judge_rows k rows (judge row.creator_id (verdict row) acc) u.1
          ∙ rw (absent, lookup-judge k row (verdict row) acc, e) refl)
    | inr e ↦ rw e (
        lookup-judge_rows k rows (judge row.creator_id (verdict row) acc) u.1
        ∙ rw (lookup-judge k row (verdict row) acc, e) refl)
  ]

  abbrev pub on_board : String → List E → Bool
  on_board k entries = exists (λ e. str_eq (id_of e) k) entries

  exists-judge :
      (k : String) (row : SubscriberRow) (v : String ⊎ E) (acc : List E × Dict String)
      → IsNamed row.creator_id v
      → on_board k (judge row.creator_id v acc).0
        ≡ (on_board k acc.0 || (str_eq row.creator_id k && is_candidate v))
  unfolding judge
  exists-judge k row (inl reason) acc h = ground arith
  exists-judge k row (inr entry) acc h =
      ground (arith, exists-append (λ e. str_eq (id_of e) k) acc.0 (entry ∷ []))

  pub exists-judge_rows :
      (k : String) (rows : List SubscriberRow) (acc : List E × Dict String)
      → ((row : SubscriberRow) → IsNamed row.creator_id (verdict row))
      → IsUnique rows
      → on_board k (judge_rows verdict rows acc).0
        ≡ (on_board k acc.0 || is_placed (find_row k rows))
  unfolding judge_rows find_row
  exists-judge_rows k [] acc named u = ground arith
  exists-judge_rows k (row ∷ rows) acc named u = elim (Bool-cases (str_eq row.creator_id k)) [
    | inl e ↦
        let absent = find_row-absent k rows (unique_here k row rows e u.0) in
        rw e (
          exists-judge_rows k rows (judge row.creator_id (verdict row) acc) named u.1
          ∙ rw (absent, exists-judge k row (verdict row) acc (named row), e) (ground arith))
    | inr e ↦ rw e (
        exists-judge_rows k rows (judge row.creator_id (verdict row) acc) named u.1
        ∙ rw (exists-judge k row (verdict row) acc (named row), e) (ground arith))
  ]

-- Of the creators known to the roster or observed on the day each one is either on the board or
-- ineligible, and nobody else is either.
abbrev pub IsAccounted : String → Roster → List SubscriberRow → Bool → Dict String → Type 0
IsAccounted k roster rows placed ineligible =
    ((placed && has k ineligible) ≡ false)
    × ((placed || has k ineligible) ≡ (has k roster || member k (creator_ids rows)))

module _ {E : Type 0} (id_of : E → String) (verdict : SubscriberRow → String ⊎ E) where
  settled :
      (k : String) (roster : Roster) (rows : List SubscriberRow) (v : String ⊎ E) (placed : Bool)
      (ineligible : Dict String) (base : Option String)
      → member k (creator_ids rows) ≡ true
      → base ≡ none
      → placed ≡ is_candidate id_of verdict v
      → lookup k ineligible ≡ reason_or id_of verdict base v
      → IsAccounted k roster rows placed ineligible
  settled k roster rows (inl reason) placed ineligible base m b p l = ground arith
  settled k roster rows (inr entry) placed ineligible base m b p l = ground arith

  unobserved :
      (k : String) (roster : Roster) (rows : List SubscriberRow) (placed : Bool)
      (ineligible : Dict String)
      → member k (creator_ids rows) ≡ false
      → placed ≡ false
      → lookup k ineligible ≡ (
          if has k roster && not (member k (creator_ids rows))
          then some "current_missing"
          else none)
      → IsAccounted k roster rows placed ineligible
  unobserved k roster rows placed ineligible m p l = ground arith

  pub judge_rows-IsAccounted :
      (k : String) (roster : Roster) (rows : List SubscriberRow)
      → ((row : SubscriberRow) → IsNamed id_of verdict row.creator_id (verdict row))
      → IsUnique rows
      → let judged = judge_rows verdict rows ([], roster_missing_ineligible rows roster) in
        IsAccounted k roster rows (on_board id_of verdict k judged.0) judged.1
  unfolding roster_missing_ineligible
  judge_rows-IsAccounted k roster rows named u =
      let acc : List E × Dict String = ([], mark_missing (creator_ids rows) roster) in
      let board = exists-judge_rows id_of verdict k rows acc named u in
      let reason = lookup-judge_rows id_of verdict k rows acc u in
      let base = lookup-mark_missing k (creator_ids rows) roster in
      let known = sym (find_row-member k rows) in
      elim (Option-cases (find_row k rows)) [
        | inl e ↦
            unobserved k roster rows _ _ (rw e at known) (rw e at board) (rw e at reason ∙ base)
        | inr (row, e) ↦
            let m = rw e at known in
            settled k roster rows (verdict row) _ _ _ m (base ∙ rw m (ground arith)) (rw e at board)
              (rw e at reason)
      ]
