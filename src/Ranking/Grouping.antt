-- ===== src/Ranking/Grouping.antt =====
-- The grouping of the rows of the day by creator in src/analytics/ranking_reducer.py.
use yobi_analytics.Prelude.{
  ◌≡◌, refl, sym, ap, subst, ◌∙◌, true, false, List, [], ◌∷◌, ◌++◌, Dict, lookup, insert,
  lookup-insert, keys, member, exists, String, str_eq, eq_iff, eq_refl, inl, inr, Bool-cases,
  if◌then◌else◌, All, arith,
}
use mathlib.Core.Bool.{true≢false}
use mathlib.Core.List.{append-nil, append_assoc}
use yobi_analytics.Prelude.SortKeep.{exists-append}
use yobi_analytics.HistoryWorker.Records.{HistoryRow}
use yobi_analytics.Ranking.VideoCatalog.{of_creator}
use yobi_analytics.Ranking.Reducer.{rows_or_empty, rows_by_creator}

abbrev pub Groups : Type 0
Groups = Dict (List HistoryRow)

-- No key stands twice.
abbrev pub IsDistinct : Groups → Type 0
IsDistinct [] = Unit
IsDistinct ((k, rows) ∷ groups) = (member k (keys groups) ≡ false) × IsDistinct groups

of_creator-snoc :
    (k : String) (seen : List HistoryRow) (row : HistoryRow)
    → of_creator k (seen ++ (row ∷ []))
      ≡ (if str_eq row.creator_id k then of_creator k seen ++ (row ∷ []) else of_creator k seen)
of_creator-snoc k [] row = ground arith
of_creator-snoc k (x ∷ xs) row = ground (arith, of_creator-snoc k xs row)

-- Each group holds the rows of its creator among those that were seen.
abbrev pub Holds : List HistoryRow → Groups → Type 0
Holds seen groups = All (λ e. e.1 ≡ of_creator e.0 seen) groups

str_eq-swap : (s t : String) → str_eq s t ≡ false → str_eq t s ≡ false
str_eq-swap s t h = elim (Bool-cases (str_eq t s)) [
  | inl e ↦ absurd (true≢false (sym (eq_refl t) ∙ ap (λ i. str_eq i t) ((eq_iff t s).0 e) ∙ h))
  | inr e ↦ e
]

-- A row of another creator changes no group that holds.
other-Holds :
    (seen : List HistoryRow) (row : HistoryRow) (groups : Groups)
    → member row.creator_id (keys groups) ≡ false
    → Holds seen groups
    → Holds (seen ++ (row ∷ [])) groups
unfolding member
other-Holds seen row [] m h = tt
other-Holds seen row ((j, rows) ∷ groups) m h = elim (Bool-cases (str_eq row.creator_id j)) [
  | inl e ↦ ground (arith, str_eq-swap j row.creator_id)
  | inr e ↦ (
    h.0 ∙ sym (of_creator-snoc j seen row ∙ rw e refl),
    other-Holds seen row groups (ground (arith, str_eq-swap j row.creator_id)) h.1,
  )
]

member-insert :
    (k j : String) (v : List HistoryRow) (groups : Groups)
    → member j (keys (insert k v groups)) ≡ (if str_eq k j then true else member j (keys groups))
unfolding member insert
member-insert k j v [] = refl
member-insert k j v ((i, w) ∷ groups) =
    ground (arith, eq_iff i k, eq_iff i j, eq_iff k j, member-insert k j v groups)

insert-IsDistinct :
    (k : String) (v : List HistoryRow) (groups : Groups)
    → IsDistinct groups
    → IsDistinct (insert k v groups)
unfolding member insert
insert-IsDistinct k v [] h = (refl, tt)
insert-IsDistinct k v ((i, w) ∷ groups) h = elim (Bool-cases (str_eq i k)) [
  | inl e ↦ rw e h
  | inr e ↦
      rw e
        (member-insert k i v groups ∙ rw (str_eq-swap i k e) h.0, insert-IsDistinct k v groups h.1)
]

insert-Holds :
    (seen : List HistoryRow) (row : HistoryRow) (v : List HistoryRow) (groups : Groups)
    → v ≡ of_creator row.creator_id (seen ++ (row ∷ []))
    → IsDistinct groups
    → Holds seen groups
    → Holds (seen ++ (row ∷ [])) (insert row.creator_id v groups)
unfolding insert
insert-Holds seen row v [] e u h = (e, tt)
insert-Holds seen row v ((j, rows) ∷ groups) e u h = elim (Bool-cases (str_eq j row.creator_id)) [
  | inl t ↦
      let same = (eq_iff j row.creator_id).0 t in
      rw t (
        e ∙ ap (λ i. of_creator i (seen ++ (row ∷ []))) (sym same),
        other-Holds seen row groups (subst (λ i. member i (keys groups) ≡ false) same u.0) h.1,
      )
  | inr t ↦ rw t (
    h.0 ∙ sym (of_creator-snoc j seen row ∙ rw (str_eq-swap j row.creator_id t) refl),
    insert-Holds seen row v groups e u.1 h.1,
  )
]

-- The groups of the rows that were seen: each creator's rows once, under its id, and no other key.
abbrev pub IsGrouped : List HistoryRow → Groups → Type 0
IsGrouped seen groups =
    ((k : String) → rows_or_empty (lookup k groups) ≡ of_creator k seen)
    × IsDistinct groups
    × Holds seen groups
    × ((k : String) → member k (keys groups) ≡ exists (λ row. str_eq row.creator_id k) seen)

next_rows :
    (seen : List HistoryRow) (row : HistoryRow) (groups : Groups)
    → rows_or_empty (lookup row.creator_id groups) ≡ of_creator row.creator_id seen
    → rows_or_empty (lookup row.creator_id groups) ++ (row ∷ [])
      ≡ of_creator row.creator_id (seen ++ (row ∷ []))
next_rows seen row groups e =
    ap (λ xs. xs ++ (row ∷ [])) e
    ∙ sym (of_creator-snoc row.creator_id seen row ∙ rw (eq_refl row.creator_id) refl)

insert-IsGrouped :
    (seen : List HistoryRow) (row : HistoryRow) (groups : Groups)
    → IsGrouped seen groups
    → IsGrouped
        (seen ++ (row ∷ []))
        (insert row.creator_id (rows_or_empty (lookup row.creator_id groups) ++ (row ∷ [])) groups)
insert-IsGrouped seen row groups h =
    let v = rows_or_empty (lookup row.creator_id groups) ++ (row ∷ []) in
    let e = next_rows seen row groups (h.0 row.creator_id) in
    (
      λ k. elim (Bool-cases (str_eq row.creator_id k)) [
        | inl t ↦
            rw (lookup-insert row.creator_id k v groups, t)
              (e ∙ ap (λ i. of_creator i (seen ++ (row ∷ []))) ((eq_iff row.creator_id k).0 t))
        | inr t ↦
            rw (lookup-insert row.creator_id k v groups, of_creator-snoc k seen row, t) (h.0 k)
      ],
      insert-IsDistinct row.creator_id v groups h.1,
      insert-Holds seen row v groups e h.1 h.2,
      λ k.
          member-insert row.creator_id k v groups
          ∙ rw (h.3 k, exists-append (λ r. str_eq r.creator_id k) seen (row ∷ [])) (ground arith),
    )

pub rows_by_creator-IsGrouped :
    (rows seen : List HistoryRow) (groups : Groups)
    → IsGrouped seen groups
    → IsGrouped (seen ++ rows) (rows_by_creator rows groups)
unfolding rows_by_creator
rows_by_creator-IsGrouped [] seen groups h =
    subst (λ xs. IsGrouped xs groups) (sym (append-nil seen)) h
rows_by_creator-IsGrouped (row ∷ rows) seen groups h =
    subst (λ xs. IsGrouped xs (rows_by_creator (row ∷ rows) groups))
      (append_assoc seen (row ∷ []) rows)
      (rows_by_creator-IsGrouped rows (seen ++ (row ∷ []))
        (insert row.creator_id (rows_or_empty (lookup row.creator_id groups) ++ (row ∷ [])) groups)
        (insert-IsGrouped seen row groups h))
