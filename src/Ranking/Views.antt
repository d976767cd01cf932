-- ===== src/Ranking/Views.antt =====
-- src/analytics/subscriber_ranking.py: the view of one organization against a ranking of its
-- creators alone.
use yobi_analytics.Prelude.{
  ℕ, suc, ◌≡◌, refl, sym, ap, ◌∙◌, Bool, true, false, Option, none, some, List, [], ◌∷◌, ◌++◌, Dict,
  lookup, member, keep, String, str_eq, ◌⊎◌, inl, inr, Bool-cases, if◌then◌else◌,
}
use mathlib.Core.List.{append-nil, append_assoc}
use yobi_analytics.Prelude.Integers.{ℤ}
use yobi_analytics.Prelude.SortKeep.{numbered, keep-sorted}
use yobi_analytics.Ranking.Order.{ranked, precedes, precedes-total, precedes_trans}
use yobi_analytics.Ranking.Subscribers.{
  SubscriberRow, Roster, validate_roster_membership, current_check, judge, judge_rows,
  organization_check, roster_entry_check, with_organization,
}
use yobi_analytics.Ranking.Leaderboards.{
  total_entry, TotalCandidate, GrowthCandidate, total_verdict, total_judged, total_row, total_score,
  build_total_subscribers_leaderboard, growth_entry, growth_candidacy, growth_judged, growth_row,
  growth_of, anchor_by_creator, build_growth_leaderboard, is_organization, with_total_rank,
  with_growth_rank, filter_by_organization,
}

abbrev pub lists_under : String → Option (Option String) → Bool
lists_under wanted none = false
lists_under wanted (some o) = is_organization wanted o

-- The rows of the creators that the roster lists under the organization.
abbrev pub members_of : String → Roster → List SubscriberRow → List SubscriberRow
members_of wanted roster rows = keep (λ row. lists_under wanted (lookup row.creator_id roster)) rows

module _ {E : Type 0} (verdict : SubscriberRow → String ⊎ E) where
  abbrev entries_of : String ⊎ E → List E
  entries_of (inl reason) = []
  entries_of (inr entry) = entry ∷ []

  abbrev candidates : List SubscriberRow → List E
  candidates [] = []
  candidates (row ∷ rows) = entries_of (verdict row) ++ candidates rows

  judge-candidates :
      (k : String) (v : String ⊎ E) (acc : List E × Dict String)
      → (judge k v acc).0 ≡ acc.0 ++ entries_of v
  unfolding judge
  judge-candidates k (inl reason) acc = sym (append-nil acc.0)
  judge-candidates k (inr entry) acc = refl

  pub judge_rows-candidates :
      (rows : List SubscriberRow) (acc : List E × Dict String)
      → (judge_rows verdict rows acc).0 ≡ acc.0 ++ candidates rows
  unfolding judge_rows
  judge_rows-candidates [] acc = sym (append-nil acc.0)
  judge_rows-candidates (row ∷ rows) acc =
      judge_rows-candidates rows (judge row.creator_id (verdict row) acc)
      ∙ ap (λ xs. xs ++ candidates rows) (judge-candidates row.creator_id (verdict row) acc)
      ∙ append_assoc acc.0 (entries_of (verdict row)) (candidates rows)

module _ {E : Type 0} (verdict : SubscriberRow → String ⊎ E) (q : E → Bool)
    (p : SubscriberRow → Bool) where
  abbrev Agrees : Bool → String ⊎ E → Type 0
  Agrees b (inl reason) = Unit
  Agrees b (inr entry) = q entry ≡ b

  keep-candidate :
      (b : Bool) (v : String ⊎ E) (rest : List E)
      → Agrees b v
      → keep q (entries_of verdict v ++ rest)
        ≡ (if b then entries_of verdict v ++ keep q rest else keep q rest)
  keep-candidate true (inl reason) rest h = refl
  keep-candidate false (inl reason) rest h = refl
  keep-candidate true (inr entry) rest h = rw h refl
  keep-candidate false (inr entry) rest h = rw h refl

  pub keep-candidates :
      (rows : List SubscriberRow)
      → ((row : SubscriberRow) → Agrees (p row) (verdict row))
      → keep q (candidates verdict rows) ≡ candidates verdict (keep p rows)
  keep-candidates [] h = refl
  keep-candidates (row ∷ rows) h =
      keep-candidate (p row) (verdict row) (candidates verdict rows) (h row)
      ∙ elim (Bool-cases (p row)) [
        | inl e ↦ rw e (ap (λ xs. entries_of verdict (verdict row) ++ xs) (keep-candidates rows h))
        | inr e ↦ rw e (keep-candidates rows h)
      ]

renumbered :
    {A B : Type 0} (f : ℕ → A → B) (w : ℕ → B → B) (p : B → Bool) (q : A → Bool) (m n : ℕ)
    (xs : List A)
    → ((i : ℕ) (x : A) → p (f i x) ≡ q x)
    → ((i j : ℕ) (x : A) → w i (f j x) ≡ f i x)
    → numbered w m (keep p (numbered f n xs)) ≡ numbered f m (keep q xs)
unfolding numbered
renumbered f w p q m n [] h k = refl
renumbered f w p q m n (x ∷ xs) h k = elim (Bool-cases (q x)) [
  | inl e ↦
      rw (h n x, e, k m n x) (ap (λ ys. f m x ∷ ys) (renumbered f w p q (suc m) (suc n) xs h k))
  | inr e ↦ rw (h n x, e) (renumbered f w p q m (suc n) xs h k)
]

-- A ranking that is filtered by `p` and renumbered is the ranking of the candidates that pass `q`.
pub view-ranked :
    {A B : Type 0} (score : A → ℤ) (name : A → String) (f : ℕ → A → B) (w : ℕ → B → B)
    (p : B → Bool) (q : A → Bool) (xs : List A)
    → ((i : ℕ) (x : A) → p (f i x) ≡ q x)
    → ((i j : ℕ) (x : A) → w i (f j x) ≡ f i x)
    → numbered w 1 (keep p (numbered f 1 (ranked score name xs)))
      ≡ numbered f 1 (ranked score name (keep q xs))
unfolding ranked
view-ranked score name f w p q xs h k =
    renumbered f w p q 1 1 (ranked score name xs) h k
    ∙ ap (numbered f 1) (
        keep-sorted (precedes score name) (precedes-total score name) (precedes_trans score name) q
          xs)

-- What the checks of a row leave of its organization.
abbrev IsListed : String → Bool → String ⊎ (Option String × ℕ) → Type 0
IsListed wanted b (inl reason) = Unit
IsListed wanted b (inr (organization, count)) = is_organization wanted organization ≡ b

with_organization-IsListed :
    (wanted : String) (b : Bool) (organization : Option String) (count : String ⊎ ℕ)
    → is_organization wanted organization ≡ b
    → IsListed wanted b (with_organization organization count)
with_organization-IsListed wanted b organization (inl reason) h = tt
with_organization-IsListed wanted b organization (inr count) h = h

checked-IsListed :
    (wanted : String) (entry : Option (Option String)) (row : SubscriberRow)
    → IsListed wanted (lists_under wanted entry) (current_check (roster_entry_check entry) row)
unfolding roster_entry_check organization_check current_check
checked-IsListed wanted none row = tt
checked-IsListed wanted (some none) row = tt
checked-IsListed wanted (some (some o)) row = elim (Bool-cases (str_eq o "")) [
  | inl e ↦ rw e tt
  | inr e ↦ elim (Bool-cases (member o ("vspo" ∷ "hololive" ∷ []))) [
    | inl f ↦ rw (e, f) (with_organization-IsListed wanted _ (some o) _ refl)
    | inr f ↦ rw (e, f) tt
  ]
]

total_entry-Agrees :
    (verdict : SubscriberRow → String ⊎ TotalCandidate) (p : SubscriberRow → Bool)
    (wanted k : String) (b : Bool) (current : String ⊎ (Option String × ℕ))
    → IsListed wanted b current
    → Agrees verdict (λ c. is_organization wanted c.organization) p b (total_entry k current)
unfolding total_entry
total_entry-Agrees v p wanted k b (inl reason) h = tt
total_entry-Agrees v p wanted k b (inr (organization, count)) h = h

growth_entry-Agrees :
    (verdict : SubscriberRow → String ⊎ GrowthCandidate) (p : SubscriberRow → Bool)
    (wanted k : String) (b : Bool) (anchor : String ⊎ ℕ) (current : String ⊎ (Option String × ℕ))
    → IsListed wanted b current
    → Agrees verdict
        (λ c. is_organization wanted c.organization)
        p
        b
        (growth_entry k anchor current)
unfolding growth_entry growth_of
growth_entry-Agrees v p wanted k b anchor (inl reason) h = tt
growth_entry-Agrees v p wanted k b (inl reason) (inr (organization, count)) h = tt
growth_entry-Agrees v p wanted k b (inr anchor) (inr (organization, count)) h = h

view-judged :
    {E B : Type 0} (verdict : SubscriberRow → String ⊎ E) (score : E → ℤ) (name : E → String)
    (f : ℕ → E → B) (w : ℕ → B → B) (p : B → Bool) (q : E → Bool) (t : SubscriberRow → Bool)
    (rows : List SubscriberRow) (d e : Dict String)
    → ((i : ℕ) (x : E) → p (f i x) ≡ q x)
    → ((i j : ℕ) (x : E) → w i (f j x) ≡ f i x)
    → ((row : SubscriberRow) → Agrees verdict q t (t row) (verdict row))
    → numbered w 1 (keep p (numbered f 1 (ranked score name (judge_rows verdict rows ([], d)).0)))
      ≡ numbered f 1 (ranked score name (judge_rows verdict (keep t rows) ([], e)).0)
view-judged verdict score name f w p q t rows d e h k agree =
    view-ranked score name f w p q (judge_rows verdict rows ([], d)).0 h k
    ∙ ap (λ xs. numbered f 1 (ranked score name xs))
        (ap (keep q) (judge_rows-candidates verdict rows ([], d))
          ∙ keep-candidates verdict q t rows agree
          ∙ sym (judge_rows-candidates verdict (keep t rows) ([], e)))

-- The view of one organization of either leaderboard, renumbered and not sorted again, is the
-- leaderboard of the creators that the roster lists under that organization, on their own.
pub organization_views_rank_alone :
    (roster : Roster) (rows anchor_rows : List SubscriberRow) (organization : String)
    → let own = members_of organization roster rows in
      (filter_by_organization
          (λ r. r.organization)
          with_total_rank
          (build_total_subscribers_leaderboard (some roster) rows).0
          organization
        ≡ (build_total_subscribers_leaderboard (some roster) own).0)
      × (filter_by_organization
            (λ r. r.organization)
            with_growth_rank
            (build_growth_leaderboard (some roster) anchor_rows rows).0
            organization
          ≡ (build_growth_leaderboard (some roster) anchor_rows own).0)
unfolding filter_by_organization build_total_subscribers_leaderboard build_growth_leaderboard
    total_judged growth_judged total_verdict growth_candidacy validate_roster_membership
organization_views_rank_alone roster rows anchor_rows organization =
    let t = total_verdict (some roster) in
    let g = growth_candidacy (some roster) (anchor_by_creator anchor_rows []) in
    let p = λ (row : SubscriberRow). lists_under organization (lookup row.creator_id roster) in
    (
      view-judged t total_score (λ c. c.creator_id) total_row with_total_rank
          (λ r. is_organization organization r.organization)
          (λ c. is_organization organization c.organization) p rows _ _ (λ i x. refl)
          (λ i j x. refl)
          (λ row.
            total_entry-Agrees t p organization row.creator_id _ _
              (checked-IsListed organization (lookup row.creator_id roster) row)),
      view-judged g (λ c. c.absolute_growth) (λ c. c.creator_id) growth_row with_growth_rank
          (λ r. is_organization organization r.organization)
          (λ c. is_organization organization c.organization) p rows _ _ (λ i x. refl)
          (λ i j x. refl)
          (λ row.
            growth_entry-Agrees g p organization row.creator_id _ _ _
              (checked-IsListed organization (lookup row.creator_id roster) row)),
    )
