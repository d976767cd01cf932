-- ===== src/Ranking/Observed.antt =====
-- src/analytics/subscriber_ranking.py: where the numbers of a growth row come from.
use yobi_analytics.Prelude.{
  ℕ, ◌≡◌, refl, sym, ap, ◌∙◌, Bool, true, false, ◌&&◌, List, [], ◌∷◌, ◌++◌, insert, lookup-insert,
  eq_iff, Bool-cases, Option, none, some, Dict, lookup, exists, String, str_eq, ◌==◌, eq_refl,
  ==_iff, ◌⊎◌, inl, inr, All, All-map_pred, All-append, arith,
}
use mathlib.Core.Option.{some-injective}
use yobi_analytics.Prelude.Integers.{ℤ, minus}
use yobi_analytics.Prelude.Sort.{All-sorted}
use yobi_analytics.Prelude.SortKeep.{numbered}
use yobi_analytics.Ranking.Order.{ranked, precedes}
use yobi_analytics.Ranking.Subscribers.{
  SubscriberRow, Roster, judge, judge_rows, visible_count, usable_count, with_organization,
  current_check, validate_roster_membership,
}
use yobi_analytics.Ranking.Leaderboards.{
  GrowthCandidate, growth_entry, growth_of, anchor_check, anchor_by_creator, growth_candidacy,
  growth_judged, growth_row, build_growth_leaderboard,
}

abbrev pub visible_as : ℕ → Bool → Option ℕ → Bool
visible_as count true observed = false
visible_as count false none = false
visible_as count false (some n) = n == count

-- The row has this count and does not hide it.
abbrev pub shows : ℕ → SubscriberRow → Bool
shows count row = visible_as count row.hidden_subscriber_count row.subscriber_count

abbrev pub shows_some : ℕ → Option SubscriberRow → Bool
shows_some count none = false
shows_some count (some row) = shows count row

-- The row is the last one of the creator.
abbrev pub IsLastOf : List SubscriberRow → String → SubscriberRow → Type 0
IsLastOf rows creator_id row =
    (before : List SubscriberRow) × (after : List SubscriberRow) × (rows ≡ before ++ (row ∷ after))
    × (row.creator_id ≡ creator_id)
    × (exists (λ r. str_eq r.creator_id creator_id) after ≡ false)

-- The creator was seen on the day with the current count, the last of its rows among the anchor's
-- shows the anchor count, neither count is hidden, and the growth is their difference.
abbrev pub IsObserved : List SubscriberRow → List SubscriberRow → String → ℕ → ℕ → ℤ → Type 0
IsObserved rows anchor_rows creator_id current anchor growth =
    (exists (λ row. str_eq row.creator_id creator_id && shows current row) rows ≡ true)
    × ((row : SubscriberRow) × IsLastOf anchor_rows creator_id row × (shows anchor row ≡ true))
    × (growth ≡ minus current anchor)

anchor_by_creator-IsLastOf :
    (k : String) (rows : List SubscriberRow) (d : Dict SubscriberRow) (row : SubscriberRow)
    → lookup k (anchor_by_creator rows d) ≡ some row
    → ((lookup k d ≡ some row) × (exists (λ r. str_eq r.creator_id k) rows ≡ false))
      ⊎ IsLastOf rows k row
unfolding anchor_by_creator
anchor_by_creator-IsLastOf k [] d row h = inl (h, refl)
anchor_by_creator-IsLastOf k (r ∷ rows) d row h =
    elim (anchor_by_creator-IsLastOf k rows (insert r.creator_id r d) row h) [
      | inr (before, after, split, own, last) ↦
          inr (r ∷ before, after, ap (λ rs. r ∷ rs) split, own, last)
      | inl (found, none_after) ↦ elim (Bool-cases (str_eq r.creator_id k)) [
        | inl same ↦
            let here : r ≡ row =
              some-injective r row (rw (lookup-insert r.creator_id k r d, same) at found) in
            inr (
              [],
              rows,
              ap (λ x. x ∷ rows) here,
              ap (λ x. x.creator_id) (sym here) ∙ (eq_iff r.creator_id k).0 same,
              none_after,
            )
        | inr other ↦
            inl (rw (lookup-insert r.creator_id k r d, other) at found, rw other none_after)
      ]
    ]

shown_by_last :
    (rows : List SubscriberRow) (k : String) (count : ℕ) (o : Option SubscriberRow)
    → lookup k (anchor_by_creator rows []) ≡ o
    → shows_some count o ≡ true
    → (row : SubscriberRow) × IsLastOf rows k row × (shows count row ≡ true)
unfolding lookup
shown_by_last rows k count none e h = absurd cc
shown_by_last rows k count (some row) e h = elim (anchor_by_creator-IsLastOf k rows [] row e) [
  | inl (found, _) ↦ absurd cc
  | inr last ↦ (row, last, h)
]

module _ {A : Type 0} where
  in_itself : (xs : List A) → All (λ x. (p : A → Bool) → p x ≡ true → exists p xs ≡ true) xs
  in_itself [] = tt
  in_itself (x ∷ xs) =
      (λ p h. rw h refl, All-map_pred (λ y h p t. ground (arith, h p t)) xs (in_itself xs))

abbrev CountFits : Bool → Option ℕ → String ⊎ ℕ → Type 0
CountFits hidden observed (inl reason) = Unit
CountFits hidden observed (inr count) = visible_as count hidden observed ≡ true

visible_count-CountFits :
    (hidden missing : String) (h : Bool) (c : Option ℕ)
    → CountFits h c (visible_count hidden missing h c)
unfolding visible_count
visible_count-CountFits hidden missing true c = tt
visible_count-CountFits hidden missing false none = tt
visible_count-CountFits hidden missing false (some n) = (==_iff n n).1 refl

abbrev CurrentFits : SubscriberRow → String ⊎ (Option String × ℕ) → Type 0
CurrentFits row (inl reason) = Unit
CurrentFits row (inr (organization, count)) = shows count row ≡ true

with_organization-CurrentFits :
    (row : SubscriberRow) (organization : Option String) (count : String ⊎ ℕ)
    → CountFits row.hidden_subscriber_count row.subscriber_count count
    → CurrentFits row (with_organization organization count)
with_organization-CurrentFits row organization (inl reason) h = tt
with_organization-CurrentFits row organization (inr count) h = h

current_check-CurrentFits :
    (row : SubscriberRow) (check : Option String × Option String)
    → CurrentFits row (current_check check row)
unfolding current_check usable_count
current_check-CurrentFits row (organization, some reason) = tt
current_check-CurrentFits row (organization, none) =
    with_organization-CurrentFits row organization _ (visible_count-CountFits _ _ _ _)

abbrev AnchorFits : Option SubscriberRow → String ⊎ ℕ → Type 0
AnchorFits anchor (inl reason) = Unit
AnchorFits anchor (inr count) = shows_some count anchor ≡ true

shown_anchor :
    (anchor : SubscriberRow) (count : String ⊎ ℕ)
    → CountFits anchor.hidden_subscriber_count anchor.subscriber_count count
    → AnchorFits (some anchor) count
shown_anchor anchor (inl reason) h = tt
shown_anchor anchor (inr count) h = h

anchor_check-AnchorFits : (anchor : Option SubscriberRow) → AnchorFits anchor (anchor_check anchor)
unfolding anchor_check usable_count
anchor_check-AnchorFits none = tt
anchor_check-AnchorFits (some anchor) = shown_anchor anchor _ (visible_count-CountFits _ _ _ _)

-- The same, with the anchor's rows by their creator as the build holds them.
abbrev FromAnchors : List SubscriberRow → Dict SubscriberRow → String → ℕ → ℕ → ℤ → Type 0
FromAnchors rows anchors creator_id current anchor growth =
    (exists (λ row. str_eq row.creator_id creator_id && shows current row) rows ≡ true)
    × (shows_some anchor (lookup creator_id anchors) ≡ true)
    × (growth ≡ minus current anchor)

abbrev OfCandidate : List SubscriberRow → Dict SubscriberRow → GrowthCandidate → Type 0
OfCandidate rows anchors c =
    FromAnchors rows anchors c.creator_id c.current_count c.anchor_count c.absolute_growth

abbrev EntryFits : List SubscriberRow → Dict SubscriberRow → String ⊎ GrowthCandidate → Type 0
EntryFits rows anchors (inl reason) = Unit
EntryFits rows anchors (inr entry) = OfCandidate rows anchors entry

growth_entry-EntryFits :
    (rows : List SubscriberRow) (anchors : Dict SubscriberRow) (row : SubscriberRow)
    (anchor : String ⊎ ℕ) (current : String ⊎ (Option String × ℕ))
    → ((p : SubscriberRow → Bool) → p row ≡ true → exists p rows ≡ true)
    → AnchorFits (lookup row.creator_id anchors) anchor
    → CurrentFits row current
    → EntryFits rows anchors (growth_entry row.creator_id anchor current)
unfolding growth_entry growth_of
growth_entry-EntryFits rows anchors row anchor (inl reason) here a c = tt
growth_entry-EntryFits rows anchors row (inl reason) (inr (organization, count)) here a c = tt
growth_entry-EntryFits rows anchors row (inr anchor) (inr (organization, count)) here a c = (
  here (λ r. str_eq r.creator_id row.creator_id && shows count r) (rw (eq_refl row.creator_id) c),
  a,
  refl,
)

judge_rows-All :
    {E : Type 0} (P : E → Type 0) (Q : String ⊎ E → Type 0) (verdict : SubscriberRow → String ⊎ E)
    (rows : List SubscriberRow) (acc : List E × Dict String)
    → ((v : String ⊎ E) (k : String) (acc : List E × Dict String)
        → Q v
        → All P acc.0
        → All P (judge k v acc).0)
    → All (λ row. Q (verdict row)) rows
    → All P acc.0
    → All P (judge_rows verdict rows acc).0
unfolding judge_rows
judge_rows-All P Q verdict [] acc step h k = k
judge_rows-All P Q verdict (row ∷ rows) acc step h k =
    judge_rows-All P Q verdict rows (judge row.creator_id (verdict row) acc) step h.1
      (step (verdict row) row.creator_id acc h.0 k)

judge-EntryFits :
    (rows : List SubscriberRow) (anchors : Dict SubscriberRow) (v : String ⊎ GrowthCandidate)
    (k : String) (acc : List GrowthCandidate × Dict String)
    → EntryFits rows anchors v
    → All (OfCandidate rows anchors) acc.0
    → All (OfCandidate rows anchors) (judge k v acc).0
unfolding judge
judge-EntryFits rows anchors (inl reason) k acc h a = a
judge-EntryFits rows anchors (inr entry) k acc h a =
    All-append (OfCandidate rows anchors) acc.0 (entry ∷ []) a (h, tt)

growth_candidacy-EntryFits :
    (roster : Option Roster) (rows : List SubscriberRow) (anchors : Dict SubscriberRow)
    (row : SubscriberRow)
    → ((p : SubscriberRow → Bool) → p row ≡ true → exists p rows ≡ true)
    → EntryFits rows anchors (growth_candidacy roster anchors row)
unfolding growth_candidacy
growth_candidacy-EntryFits roster rows anchors row here =
    growth_entry-EntryFits rows anchors row _ _ here
      (anchor_check-AnchorFits (lookup row.creator_id anchors))
      (current_check-CurrentFits row (validate_roster_membership row.creator_id roster))

pub numbered-All_rows :
    {A B : Type 0} (P : A → Type 0) (Q : B → Type 0) (f : ℕ → A → B) (n : ℕ) (xs : List A)
    → ((m : ℕ) (x : A) → P x → Q (f m x))
    → All P xs
    → All Q (numbered f n xs)
unfolding numbered
numbered-All_rows P Q f n [] h a = tt
numbered-All_rows P Q f n (x ∷ xs) h a = (h n x a.0, numbered-All_rows P Q f _ xs h a.1)

-- Every row of a growth leaderboard has a current count that one of the day's rows shows for its
-- creator and an anchor count that the last of the creator's anchor rows shows: no hidden or missing
-- count is read as 0. The growth is the difference of the two.
pub growth_rows_show_counts :
    (roster : Option Roster) (rows anchor_rows : List SubscriberRow)
    → All
        (λ r.
          IsObserved rows anchor_rows r.creator_id r.current_subscriber_count
            r.anchor_subscriber_count r.absolute_growth)
        (build_growth_leaderboard roster anchor_rows rows).0
unfolding build_growth_leaderboard growth_judged ranked
growth_rows_show_counts roster rows anchor_rows =
    let anchors = anchor_by_creator anchor_rows [] in
    numbered-All_rows (OfCandidate rows anchors) _ growth_row 1 _
      (λ m c h. (h.0, shown_by_last anchor_rows c.creator_id c.anchor_count _ refl h.1, h.2))
      (All-sorted (precedes (λ c. c.absolute_growth) (λ c. c.creator_id)) (OfCandidate rows anchors)
        _
        (judge_rows-All (OfCandidate rows anchors) (EntryFits rows anchors)
          (growth_candidacy roster anchors) rows _ (judge-EntryFits rows anchors)
          (All-map_pred (λ row here. growth_candidacy-EntryFits roster rows anchors row here) rows
            (in_itself rows))
          tt))
