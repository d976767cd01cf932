-- ===== src/HistoryWorker/Retry.antt =====
-- Collecting a shard again on the same day.
use yobi_analytics.Prelude.{
  ℕ, ◌≡◌, ◌≢◌, refl, sym, ◌∙◌, ap, ==_iff, String, Bool, not, Option, none, some, List, [], ◌∷◌,
  ◌++◌, arith, All, Dict, lookup, keep, length, map, exists, ltb, ◌==◌, Bool-cases, Option-cases,
  inl, inr, subst,
}
use yobi_analytics.Prelude.Sort.{sorted}
use yobi_analytics.TrackingSchedule.{Floats}
use yobi_analytics.HistoryWorker.Records.{HistoryRow, Video, ManifestEntry, upsert_videos}
use yobi_analytics.HistoryWorker.Updates.{build_scheduler_updates, patch_entry, patch_entries}
use yobi_analytics.HistoryWorker.Replay.{IsKeyed}
use yobi_analytics.HistoryWorker.Collect.{
  Fetched, Stores, Error, ok, raised, bad_shard, misplaced_videos, ShardCollectionResult, row_le,
  carried, write_back, write_history, finish, finish_fresh, collect_active, collect_history_shard,
  history_shard_count,
}
use yobi_analytics.HistoryWorker.RowBuild.{
  IsFresh, fresh_rows-IsFresh, IsCarried, carry_forward-IsCarried, own_rows, own_rows-build,
}

ok-ne-raised {ℓ} : {A : Type ℓ} {a : A} {x : Error} → ok a ≢ raised x
ok-ne-raised e = cc

ok-injective {ℓ} : {A : Type ℓ} (a b : A) → ok a ≡ ok b → a ≡ b
ok-injective a b e = cc

-- Some entry of the list does not belong to the shard.
abbrev some_id : (String → ℕ) → ℕ → List ManifestEntry → Bool
some_id shard_of n entries = exists (λ entry. not (shard_of entry.video_id == n)) entries

patch_entry-some_id :
    (fl : Floats) (shard_of : String → ℕ) (n : ℕ) (d : Dict (Video fl))
    (entries : List ManifestEntry)
    → some_id shard_of n (map (λ entry. patch_entry fl (lookup entry.video_id d) entry) entries)
      ≡ some_id shard_of n entries
unfolding patch_entry
patch_entry-some_id fl shard_of n d [] = refl
patch_entry-some_id fl shard_of n d (entry ∷ entries) =
    elim (Option-cases (lookup entry.video_id d)) [
      | inl e ↦ rw (e, patch_entry-some_id fl shard_of n d entries)
      | inr (v, e) ↦ rw (e, patch_entry-some_id fl shard_of n d entries)
    ]

module _ (fl : Floats) (digest : String → ℕ) (shard_of : String → ℕ)
    (fetch : List String → Fetched) where
  abbrev Outcome : Type 0
  Outcome = ShardCollectionResult × Stores fl

  write_back-eq :
      (n : ℕ) (us : List (Video fl)) (s : Stores fl)
      → ((write_back fl digest shard_of fetch n us s).master ≡ upsert_videos fl us s.master)
        × ((write_back fl digest shard_of fetch n us s).history ≡ s.history)
  unfolding write_back upsert_videos
  write_back-eq n [] s = (refl, refl)
  write_back-eq n (v ∷ vs) s = (refl, refl)

  write_back-some_id :
      (n : ℕ) (us : List (Video fl)) (s : Stores fl)
      → some_id shard_of n ((write_back fl digest shard_of fetch n us s).manifest n)
        ≡ some_id shard_of n (s.manifest n)
  unfolding write_back patch_entries
  write_back-some_id n [] s = refl
  write_back-some_id n (v ∷ vs) s =
      rw ((==_iff n n).1 refl) (patch_entry-some_id fl shard_of n _ (s.manifest n))

  -- What a retry reports of the rows that it reads back.
  abbrev pub retried : List HistoryRow → ShardCollectionResult
  retried rows = record {
    requested_count = length (own_rows fl rows);
    collected_count = length rows;
    skipped = [];
    rows = rows;
  }

  -- The rows of the day are stored, and collecting the shard again reports them and changes
  -- nothing, whatever the clock says.
  abbrev IsSettled : ℕ → ℕ → Stores fl → Outcome → Type 0
  IsSettled d n s (r, s') =
      (some_id shard_of n (s'.manifest n) ≡ some_id shard_of n (s.manifest n))
      × (s'.history d n ≡ some r.rows)
      × ((at' : ℕ) (active : List ManifestEntry)
          → collect_active fl digest shard_of fetch d at' n active (some r.rows) s'
            ≡ ok (retried r.rows, s'))

  -- With nothing to update, what follows the rows changes nothing.
  finish-nothing :
      (n count : ℕ) (skipped : Dict String) (fresh rows : List HistoryRow) (s : Stores fl)
      → build_scheduler_updates fl fresh s.master ≡ []
      → (finish fl digest shard_of fetch n count skipped fresh rows s).1 ≡ s
  unfolding finish write_back
  finish-nothing n count skipped fresh rows s e = rw e

  stored :
      (d n : ℕ) (us : List (Video fl)) (rows : List HistoryRow) (s : Stores fl)
      → (write_back fl digest shard_of fetch n us
            (write_history fl digest shard_of fetch d n rows s)).history
          d n
        ≡ some rows
  stored d n us rows s =
      ap (λ (h : ℕ → ℕ → Option (List HistoryRow)). h d n) (write_back-eq n us _).1 ∙ ground arith

  finish-IsSettled :
      (d n at count : ℕ) (skipped : Dict String) (fresh carried_rows : List HistoryRow)
      (s : Stores fl)
      → All (IsFresh at) fresh
      → All (IsCarried fl) carried_rows
      → IsKeyed fl s.master
      → IsSettled d n s (
          finish fl digest shard_of fetch n count skipped fresh
            (sorted row_le (fresh ++ carried_rows))
            (write_history fl digest shard_of fetch d n (sorted row_le (fresh ++ carried_rows)) s))
  unfolding finish collect_active
  finish-IsSettled d n at count skipped fresh carried_rows s f c keyed = (
    write_back-some_id n (build_scheduler_updates fl fresh s.master) written,
    stored d n (build_scheduler_updates fl fresh s.master) rows s,
    λ at' active.
        ap (λ (s' : Stores fl). ok (retried rows, s'))
          (finish-nothing n (length (own_rows fl rows)) [] (own_rows fl rows) rows after (
            rw (write_back-eq n (build_scheduler_updates fl fresh s.master) written).0
              (own_rows-build fl at s.master fresh carried_rows f c keyed))),
  )
    where
      rows : List HistoryRow
      rows = sorted row_le (fresh ++ carried_rows)

      written : Stores fl
      written = write_history fl digest shard_of fetch d n rows s

      after : Stores fl
      after =
          write_back fl digest shard_of fetch n (build_scheduler_updates fl fresh s.master) written

  IsSettled-finish_fresh :
      (d n at count : ℕ) (skipped : Dict String) (carried_rows : List HistoryRow)
      (fresh : Option (List HistoryRow)) (s : Stores fl) (out : Outcome)
      → ((rows : List HistoryRow) → fresh ≡ some rows → All (IsFresh at) rows)
      → All (IsCarried fl) carried_rows
      → IsKeyed fl s.master
      → finish_fresh fl digest shard_of fetch d n count skipped carried_rows fresh s ≡ ok out
      → IsSettled d n s out
  unfolding finish_fresh
  IsSettled-finish_fresh d n at count skipped carried_rows none s out f c keyed e = cc
  IsSettled-finish_fresh d n at count skipped carried_rows (some fresh) s out f c keyed e =
      subst (IsSettled d n s) (ok-injective _ _ e)
        (finish-IsSettled d n at count skipped fresh carried_rows s (f fresh refl) c keyed)

  IsSettled-collect_active :
      (d at n : ℕ) (active : List ManifestEntry) (s : Stores fl) (out : Outcome)
      → IsKeyed fl s.master
      → collect_active fl digest shard_of fetch d at n active none s ≡ ok out
      → IsSettled d n s out
  unfolding collect_active carried
  IsSettled-collect_active d at n active s out keyed e =
      IsSettled-finish_fresh d n at _ _ _ _ s out (fresh_rows-IsFresh at _ _)
        (carry_forward-IsCarried fl _ _ _) keyed e

  -- A day that was not collected before, collected: its rows are stored under its date and shard,
  -- and collecting the shard again on that day, at any later clock, returns the same rows and
  -- leaves history, Video Master and manifest as they are. It is asked that Video Master keeps
  -- every video under its own id.
  pub collect_history_shard-retry :
      (d at n : ℕ) (s : Stores fl) (r : ShardCollectionResult) (s' : Stores fl)
      → IsKeyed fl s.master
      → s.history d n ≡ none
      → collect_history_shard fl digest shard_of fetch d at n s ≡ ok (r, s')
      → (s'.history d n ≡ some r.rows)
        × ((at' : ℕ)
            → collect_history_shard fl digest shard_of fetch d at' n s' ≡ ok (retried r.rows, s'))
  unfolding collect_history_shard
  collect_history_shard-retry d at n s r s' keyed new e =
      elim (Bool-cases (ltb n history_shard_count)) [
        | inr outside ↦ absurd (ok-ne-raised {x = bad_shard} (sym e ∙ rw outside))
        | inl inside ↦ elim (Bool-cases (some_id shard_of n (s.manifest n))) [
          | inl wrong ↦ absurd (ok-ne-raised {x = misplaced_videos} (sym e ∙ rw (inside, wrong)))
          | inr right ↦
              let settled =
                IsSettled-collect_active d at n _ s (r, s') keyed (rw (inside, right, new) at e) in
              (
                settled.1,
                λ at'.
                    rw (inside, settled.0 ∙ right, settled.1)
                      (settled.2 at' (keep (λ entry. entry.active) (s'.manifest n))),
              )
        ]
      ]
