-- ===== src/HistoryWorker/Coverage.antt =====
-- Which videos of a shard `collect_history_shard` asks for and which it carries forward.
use yobi_analytics.Prelude.{
  ℕ, ◌-◌, ◌≡◌, refl, ◌∙◌, String, Bool, true, false, not, ◌&&◌, ◌||◌, Option, none, some, List, [],
  ◌∷◌, arith, Dict, lookup, insert, lookup-insert, member, keep, exists, str_eq, eq_iff,
  if◌then◌else◌,
}
use yobi_analytics.Prelude.Sort.{sorted, place}
use yobi_analytics.Prelude.TextSets.{member-sorted_set, member-append}
use yobi_analytics.TrackingSchedule.{Floats}
use yobi_analytics.HistoryWorker.Records.{HistoryRow, Video, ManifestEntry, Master}
use yobi_analytics.HistoryWorker.Collect.{
  Fetched, carried_row, master_row, add_carried, carry_forward_non_due_rows, Stores, due_set,
  non_due, carried, ids_to_fetch, creators_from, rows_by_id, shard_rows,
}

-- Some row of the list is for the video.
abbrev pub has_row : String → List HistoryRow → Bool
has_row k rows = exists (λ row. str_eq row.video_id k) rows

abbrev pub has_key : String → Dict String → Bool
has_key k d = exists (λ e. str_eq e.0 k) d

module _ (fl : Floats) where
  -- The rows that yesterday's shard keeps under a key are of that video.
  abbrev pub IsIndexed : Dict HistoryRow → Type 0
  IsIndexed previous =
      (k : String) (row : HistoryRow) → lookup k previous ≡ some row → row.video_id ≡ k

  carried_row-video_id :
      (k c : String) (previous : Option HistoryRow) (found : Option (Video fl)) (row : HistoryRow)
      → ((p : HistoryRow) → previous ≡ some p → p.video_id ≡ k)
      → carried_row fl k c previous found ≡ some row
      → row.video_id ≡ k
  unfolding carried_row master_row
  carried_row-video_id k c (some p) found row indexed e = ground (arith, indexed p refl)
  carried_row-video_id k c none none row indexed e = cc
  carried_row-video_id k c none (some v) row indexed e = ground arith

  add_carried-exact :
      (k j : String) (row : Option HistoryRow) (rest : List HistoryRow × List String)
      → ((r : HistoryRow) → row ≡ some r → r.video_id ≡ j)
      → (has_row k (add_carried fl j row rest).0 || member k (add_carried fl j row rest).1)
        ≡ (if str_eq j k then true else (has_row k rest.0 || member k rest.1))
  unfolding member
  add_carried-exact k j none rest h = ground arith
  add_carried-exact k j (some r) rest h = rw (h r refl) (ground arith)

  -- Each video of the list is carried or forced, and nothing else is.
  carry_forward-exact :
      (k : String) (non_due : Dict String) (previous : Dict HistoryRow) (master : Master fl)
      → IsIndexed previous
      → (has_row k (carry_forward_non_due_rows fl non_due previous master).0
          || member k (carry_forward_non_due_rows fl non_due previous master).1)
        ≡ has_key k non_due
  unfolding carry_forward_non_due_rows member
  carry_forward-exact k [] previous master indexed = refl
  carry_forward-exact k ((j, c) ∷ non_due) previous master indexed =
      add_carried-exact k j _ (carry_forward_non_due_rows fl non_due previous master)
        (λ r. carried_row-video_id j c _ _ r (indexed j))
      ∙ rw (carry_forward-exact k non_due previous master indexed)

rows_by_id-IsIndexed :
    (rows : List HistoryRow) (d : Dict HistoryRow)
    → ((k : String) (row : HistoryRow) → lookup k d ≡ some row → row.video_id ≡ k)
    → (k : String) (row : HistoryRow) → lookup k (rows_by_id rows d) ≡ some row
    → row.video_id ≡ k
unfolding rows_by_id
rows_by_id-IsIndexed [] d h = h
rows_by_id-IsIndexed (r ∷ rows) d h =
    rows_by_id-IsIndexed rows (insert r.video_id r d)
      (λ k row found. ground (arith, lookup-insert r.video_id k r d, eq_iff r.video_id k, h k row))

has_key-place :
    (le : String × String → String × String → Bool) (k : String) (e : String × String)
    (d : Dict String)
    → has_key k (place le e d) ≡ has_key k (e ∷ d)
unfolding place
has_key-place le k e [] = refl
has_key-place le k e (x ∷ d) = ground (arith, has_key-place le k e d)

has_key-sorted :
    (le : String × String → String × String → Bool) (k : String) (d : Dict String)
    → has_key k (sorted le d) ≡ has_key k d
unfolding sorted
has_key-sorted le k [] = refl
has_key-sorted le k (e ∷ d) =
    ground (arith, has_key-place le k e (sorted le d), has_key-sorted le k d)

has_key-keep :
    (p : String → Bool) (k : String) (d : Dict String)
    → has_key k (keep (λ e. p e.0) d) ≡ (has_key k d && p k)
has_key-keep p k [] = refl
has_key-keep p k ((j, c) ∷ d) = ground (arith, has_key-keep p k d, eq_iff j k)

has_key-insert :
    (k j c : String) (d : Dict String)
    → has_key k (insert j c d) ≡ (if str_eq j k then true else has_key k d)
unfolding insert
has_key-insert k j c [] = refl
has_key-insert k j c ((i, b) ∷ d) =
    ground (arith, has_key-insert k j c d, eq_iff i j, eq_iff j k, eq_iff i k)

-- Some entry is of the video.
abbrev pub has_entry : String → List ManifestEntry → Bool
has_entry k entries = exists (λ entry. str_eq entry.video_id k) entries

has_key-creators_from :
    (k : String) (entries : List ManifestEntry) (d : Dict String)
    → has_key k (creators_from entries d) ≡ (has_entry k entries || has_key k d)
unfolding creators_from
has_key-creators_from k [] d = refl
has_key-creators_from k (entry ∷ entries) d = ground (
  arith,
  has_key-creators_from k entries (insert entry.video_id entry.creator_id d),
  has_key-insert k entry.video_id entry.creator_id d,
)

lookup_nil : (k : String) → lookup {V = HistoryRow} k [] ≡ none
unfolding lookup
lookup_nil k = refl

covering :
    (entry due forced row ids : Bool)
    → ids ≡ (due || forced)
    → (row || forced) ≡ (entry && not due)
    → (entry ≡ true → (ids || row) ≡ true) × (row ≡ true → (entry ≡ true) × (due ≡ false))
covering entry true forced row ids e h = (λ a. ground arith, λ b. ground arith)
covering entry false forced row ids e h = (λ a. ground arith, λ b. ground arith)

module _ (fl : Floats) (digest : String → ℕ) (shard_of : String → ℕ)
    (fetch : List String → Fetched) where
  has_key-non_due :
      (k : String) (d : ℕ) (active : List ManifestEntry)
      → has_key k (non_due fl digest shard_of fetch d active)
        ≡ (has_entry k active && not (member k (due_set fl digest shard_of fetch d active)))
  unfolding non_due creators_from
  has_key-non_due k d active =
      has_key-sorted _ k _
      ∙ has_key-keep (λ j. not (member j (due_set fl digest shard_of fetch d active))) k
          (creators_from active [])
      ∙ ground (arith, has_key-creators_from k active [])

  member-ids_to_fetch :
      (k : String) (d n : ℕ) (active : List ManifestEntry) (s : Stores fl)
      → member k (ids_to_fetch fl digest shard_of fetch d n active s) ≡ (
          member k (due_set fl digest shard_of fetch d active)
          || member k (carried fl digest shard_of fetch d n active s).1)
  unfolding ids_to_fetch
  member-ids_to_fetch k d n active s = member-sorted_set k _ ∙ member-append k _ _

  carried-exact :
      (k : String) (d n : ℕ) (active : List ManifestEntry) (s : Stores fl)
      → (has_row k (carried fl digest shard_of fetch d n active s).0
          || member k (carried fl digest shard_of fetch d n active s).1)
        ≡ has_key k (non_due fl digest shard_of fetch d active)
  unfolding carried
  carried-exact k d n active s =
      carry_forward-exact fl k _ _ s.master
        (rows_by_id-IsIndexed (shard_rows (s.history (d - 1) n)) [] (λ j row e. cc (lookup_nil j)))

  -- On every day each active video of the shard is asked of YouTube or has a row carried forward
  -- from its last known views, and a row is carried only for an active video that is not due.
  pub carried-covers :
      (k : String) (d n : ℕ) (active : List ManifestEntry) (s : Stores fl)
      → (has_entry k active ≡ true
          → (member k (ids_to_fetch fl digest shard_of fetch d n active s)
              || has_row k (carried fl digest shard_of fetch d n active s).0)
            ≡ true)
        × (has_row k (carried fl digest shard_of fetch d n active s).0 ≡ true
            → (has_entry k active ≡ true)
              × (member k (due_set fl digest shard_of fetch d active) ≡ false))
  carried-covers k d n active s =
      covering (has_entry k active) (member k (due_set fl digest shard_of fetch d active))
        (member k (carried fl digest shard_of fetch d n active s).1)
        (has_row k (carried fl digest shard_of fetch d n active s).0)
        (member k (ids_to_fetch fl digest shard_of fetch d n active s))
        (member-ids_to_fetch k d n active s)
        (carried-exact k d n active s ∙ has_key-non_due k d active)
