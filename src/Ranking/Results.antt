-- ===== src/Ranking/Results.antt =====
-- src/analytics/ranking_reducer.py: which creators get a result, and with which videos.
use yobi_analytics.Prelude.{
  ℕ, ◌≡◌, refl, sym, ap, subst, ◌∙◌, Bool, true, false, some, List, [], ◌∷◌, map, keys, keep,
  String, str_eq, inl, inr, Bool-cases, if◌then◌else◌, All, arith,
}
use mathlib.Core.Bool.{true≢false}
use yobi_analytics.Prelude.Optional.{◌>>=◌}
use yobi_analytics.Prelude.Sort.{place, sorted}
use yobi_analytics.HistoryWorker.Records.{HistoryRow}
use yobi_analytics.Ranking.VideoCatalog.{
  Period, VideoInfo, VideoRankingRow, of_creator, before_by_id,
}
use yobi_analytics.Ranking.VideoRanking.{serialize_row}
use yobi_analytics.Ranking.CatalogVideos.{row_ids, catalog_has_videos}
use yobi_analytics.Ranking.Grouping.{Groups}
use yobi_analytics.Ranking.Reducer.{
  Sources, VideoRankingResult, build_video_ranking_result, write_result, write_or_stop,
  write_creators,
}

-- The leading elements that pass the test.
abbrev pub take_while : (String → Bool) → List String → List String
take_while p [] = []
take_while p (x ∷ xs) = let rest = take_while p xs in if p x then x ∷ rest else []

abbrev pub holds_none : {A : Type 0} → List A → Bool
holds_none [] = true
holds_none (x ∷ xs) = false

-- The group is not empty and holds its creator's rows of the day.
abbrev IsOwn : List HistoryRow → String × List HistoryRow → Type 0
IsOwn today (k, rows) = (rows ≡ of_creator k today) × (holds_none rows ≡ false)

keep_again : {A : Type 0} (p : A → Bool) (xs : List A) → keep p (keep p xs) ≡ keep p xs
keep_again p [] = refl
keep_again p (x ∷ xs) = ground (arith, keep_again p xs)

holds_none-map : {A B : Type 0} (f : A → B) (xs : List A) → holds_none (map f xs) ≡ holds_none xs
holds_none-map f [] = refl
holds_none-map f (x ∷ xs) = refl

holds_none-place :
    {A : Type 0} (le : A → A → Bool) (x : A) (ys : List A) → holds_none (place le x ys) ≡ false
unfolding place
holds_none-place le x [] = refl
holds_none-place le x (y ∷ ys) = ground arith

holds_none-sorted :
    {A : Type 0} (le : A → A → Bool) (xs : List A) → holds_none (sorted le xs) ≡ holds_none xs
unfolding sorted
holds_none-sorted le [] = refl
holds_none-sorted le (x ∷ xs) = holds_none-place le x (sorted le xs)

-- The videos of the result are those of its creator's rows of the day, sorted by id.
abbrev pub HasItsVideos : List HistoryRow → VideoRankingResult → Type 0
HasItsVideos today result =
    map (λ v. v.video_id) result.videos
    ≡ row_ids (sorted before_by_id (of_creator result.creator_id today))

abbrev result_with : ℕ → String → String → List VideoRankingRow → VideoRankingResult
result_with report_date creator_id generated_at catalog = record {
  report_date = report_date;
  creator_id = creator_id;
  generated_at = generated_at;
  videos = map serialize_row catalog;
}

serialized_ids :
    (rows : List VideoRankingRow)
    → map (λ v. v.video_id) (map serialize_row rows) ≡ map (λ row. row.video_id) rows
unfolding serialize_row
serialized_ids [] = refl
serialized_ids (row ∷ rows) = ap (λ xs. row.video_id ∷ xs) (serialized_ids rows)

module _ (src : Sources) (report_date : ℕ) (generated_at : String) (info : VideoInfo)
    (anchors : Period → List HistoryRow) (today : List HistoryRow) where
  put_step :
      (k : String) (catalog : List VideoRankingRow) (rest : List VideoRankingResult)
      → holds_none catalog ≡ false
      → write_or_stop src report_date generated_at info anchors
          (some (build_video_ranking_result report_date k generated_at catalog))
          rest
        ≡ (if src.accepts k then result_with report_date k generated_at catalog ∷ rest else [])
  unfolding build_video_ranking_result write_result
  put_step k [] rest h = absurd (true≢false h)
  put_step k (row ∷ rows) rest h = elim (Bool-cases (src.accepts k)) [
    | inl e ↦ rw e refl
    | inr e ↦ rw e refl
  ]

  -- The creators of the results are those of the groups up to the first write that fails, and each
  -- result has its creator's videos.
  abbrev AreResults : Groups → List VideoRankingResult → Type 0
  AreResults groups puts =
      (map (λ r. r.creator_id) puts ≡ take_while src.accepts (keys groups))
      × All (HasItsVideos today) puts

  step-AreResults :
      (k : String) (rows : List HistoryRow) (groups : Groups) (catalog : List VideoRankingRow)
      (rest : List VideoRankingResult)
      → map (λ row. row.video_id) catalog ≡ row_ids (sorted before_by_id (of_creator k today))
      → AreResults groups rest
      → AreResults
          ((k, rows) ∷ groups)
          (if src.accepts k then result_with report_date k generated_at catalog ∷ rest else [])
  step-AreResults k rows groups catalog rest ids h = elim (Bool-cases (src.accepts k)) [
    | inl e ↦ rw e (ap (λ ks. k ∷ ks) h.0, (serialized_ids catalog ∙ ids, h.1))
    | inr e ↦ rw e (refl, tt)
  ]

  own_again :
      (k : String) (rows : List HistoryRow)
      → rows ≡ of_creator k today
      → of_creator k rows ≡ of_creator k today
  own_again k rows h = ap (of_creator k) h ∙ keep_again (λ row. str_eq row.creator_id k) today

  pub write_creators-AreResults :
      (groups : Groups)
      → All (IsOwn today) groups
      → AreResults groups (write_creators src report_date generated_at info anchors groups)
  unfolding write_creators
  write_creators-AreResults [] h = (refl, tt)
  write_creators-AreResults ((k, rows) ∷ groups) h =
      let (catalog, built, ids) =
        catalog_has_videos src.topic_ids rows anchors k report_date info in
      let own = own_again k rows (h.0).0 in
      let same = ids ∙ ap (λ xs. row_ids (sorted before_by_id xs)) own in
      let rest = write_creators src report_date generated_at info anchors groups in
      let full =
        sym (holds_none-map (λ row. row.video_id) catalog)
        ∙ ap holds_none same
        ∙ holds_none-map (λ row. row.video_id) (sorted before_by_id (of_creator k today))
        ∙ holds_none-sorted before_by_id (of_creator k today)
        ∙ ap holds_none (sym (h.0).0)
        ∙ (h.0).1 in
      subst
        (λ o. AreResults ((k, rows) ∷ groups) (
          write_or_stop src report_date generated_at info anchors
            (o >>= λ c. some (build_video_ranking_result report_date k generated_at c)) rest))
        (sym built)
        (subst (AreResults ((k, rows) ∷ groups)) (sym (put_step k catalog rest full))
          (step-AreResults k rows groups catalog rest same (write_creators-AreResults groups h.1)))
