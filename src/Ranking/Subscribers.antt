-- ===== src/Ranking/Subscribers.antt =====
-- src/analytics/subscriber_ranking.py: the checks that a subscriber count passes before it is ranked,
-- and the loop that both builders run over the rows of the day.
use yobi_analytics.Prelude.{
  ℕ, Bool, true, false, Option, none, some, List, [], ◌∷◌, ◌++◌, map, Dict, lookup, insert, member,
  String, str_eq, ◌⊎◌, inl, inr, if◌then◌else◌,
}

pub record SubscriberRow : Type 0 where
  pub creator_id : String
  pub subscriber_count : Option ℕ
  pub hidden_subscriber_count : Bool

-- The roster: each creator's organization. `none` stands for a missing roster.
abbrev pub Roster : Type 0
Roster = Dict (Option String)

abbrev valid_subscriber_organizations : List String
valid_subscriber_organizations = "vspo" ∷ "hololive" ∷ []

abbrev pub creator_ids : List SubscriberRow → List String
creator_ids rows = map (λ row. row.creator_id) rows

unfoldable pub mark_missing : List String → Roster → Dict String
unfolding member
mark_missing seen [] = []
mark_missing seen ((k, _) ∷ roster) =
    let rest = mark_missing seen roster in
    if member k seen then rest else (k, "current_missing") ∷ rest

unfoldable pub roster_missing_ineligible : List SubscriberRow → Roster → Dict String
unfolding mark_missing
roster_missing_ineligible rows roster = mark_missing (creator_ids rows) roster

unfoldable pub organization_check : Option String → Option String × Option String
unfolding member
organization_check none = (none, some "organization_missing")
organization_check (some organization) =
    if str_eq organization ""
    then (none, some "organization_missing")
    else if member organization valid_subscriber_organizations
    then (some organization, none)
    else (none, some "organization_invalid")

unfoldable pub roster_entry_check : Option (Option String) → Option String × Option String
unfolding organization_check
roster_entry_check none = (none, some "creator_not_in_roster")
roster_entry_check (some organization) = organization_check organization

-- `(organization, ineligible_reason)`
unfoldable pub validate_roster_membership : String → Option Roster → Option String × Option String
unfolding roster_entry_check lookup
validate_roster_membership creator_id none = (none, none)
validate_roster_membership creator_id (some roster) = roster_entry_check (lookup creator_id roster)

unfoldable pub visible_count : String → String → Bool → Option ℕ → String ⊎ ℕ
visible_count hidden missing true count = inl hidden
visible_count hidden missing false none = inl missing
visible_count hidden missing false (some count) = inr count

-- The count of an observation, or the reason that there is none.
unfoldable pub usable_count : String → String → SubscriberRow → String ⊎ ℕ
unfolding visible_count
usable_count hidden missing row =
    visible_count hidden missing row.hidden_subscriber_count row.subscriber_count

abbrev pub with_organization : Option String → String ⊎ ℕ → String ⊎ (Option String × ℕ)
with_organization organization (inl reason) = inl reason
with_organization organization (inr count) = inr (organization, count)

-- The checks that both builders start with: the organization and the current count of a row.
unfoldable pub current_check :
    Option String × Option String → SubscriberRow → String ⊎ (Option String × ℕ)
unfolding usable_count
current_check (_, some reason) row = inl reason
current_check (organization, none) row =
    with_organization organization (usable_count "current_hidden" "current_missing" row)

-- One round of either loop: a row is a candidate, or its reason is recorded.
unfoldable pub judge :
    {E : Type 0} → String → String ⊎ E → List E × Dict String → List E × Dict String
unfolding insert
judge creator_id (inl reason) (eligible, ineligible) =
    (eligible, insert creator_id reason ineligible)
judge creator_id (inr entry) (eligible, ineligible) = (eligible ++ (entry ∷ []), ineligible)

unfoldable pub judge_rows :
    {E : Type 0}
    → (SubscriberRow → String ⊎ E)
    → List SubscriberRow
    → List E × Dict String
    → List E × Dict String
unfolding judge
judge_rows verdict [] acc = acc
judge_rows verdict (row ∷ rows) acc =
    judge_rows verdict rows (judge row.creator_id (verdict row) acc)
