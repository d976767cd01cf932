-- ===== src/DeliveryLog/Available.antt =====
-- The bulk reads of src/stores/notification_delivery_log_store.py where the table can be read.
use yobi_analytics.Prelude.{
  ℕ, zero, suc, ◌≡◌, refl, sym, String, Option, none, some, List, [], ◌∷◌, ◌++◌, ◌&&◌, ◌≤◌, ◌+◌,
  length, take, length-take-le, arith, drop, Dict, lookup, member, Bool-cases, inl, inr, ◌∙◌,
}
use native.Mathlib.Nat.{le_trans}
use yobi_analytics.Prelude.TextSets.{distinct, sorted_set}
use yobi_analytics.Prelude.Distinct.{
  IsDistinct, sorted_set-IsDistinct, take-IsDistinct, drop-IsDistinct,
}
use yobi_analytics.DeliveryLog.{LogRow, already_delivered}
use yobi_analytics.DeliveryLog.Bulk.{
  Answer, Ask, batch_get_limit, prepend, batch_get_rows, read_batches, handled_ids, handled_ids_of,
  SettledCache, is_empty, live_entry, entry_of, remember_rows, read_unsettled, delivered_video_ids,
}
use yobi_analytics.DeliveryLog.Paging.{IsBatchGet}
use yobi_analytics.DeliveryLog.Cached.{
  IsSettledCache, handled_ids-exact, delivered_video_ids-Reports,
}

-- A request that BatchGetItem takes: one to a hundred keys, none of them twice.
abbrev pub IsRequest : List String → Type 0
IsRequest request = (1 ≤ length request) × (length request ≤ 100) × IsDistinct request

-- The request is answered; the keys left unprocessed are no more than were asked for and none of
-- them is there twice, and the fifth attempt (number 4) leaves none.
pub record IsServed (attempt : ℕ) (request : List String) (answer : Answer) : Type 0 where
  pub rows : Dict LogRow
  pub unprocessed : List String
  pub answered : answer ≡ some (rows, unprocessed)
  pub fewer : length unprocessed ≤ length request
  pub apart : IsDistinct unprocessed
  pub finished : 4 ≤ attempt → unprocessed ≡ []

-- Every request that BatchGetItem takes is served; of any other nothing is said.
abbrev pub IsAvailable : Ask → Type 0
IsAvailable ask =
    (batch attempt : ℕ) (request : List String)
    → IsRequest request
    → IsServed attempt request (ask batch attempt request)

cons-ne-nil : (v : String) (vs : List String) → (v ∷ vs) ≡ [] → ⊥
cons-ne-nil v vs h = cc

prepend-returns :
    (rows : Dict LogRow) (o : Option (Dict LogRow))
    → (rest : Dict LogRow) × (o ≡ some rest)
    → (all : Dict LogRow) × (prepend rows o ≡ some all)
unfolding prepend
prepend-returns rows none (rest, e) = absurd cc
prepend-returns rows (some r) (rest, e) = (rows ++ r, refl)

answered-returns :
    (ask : ℕ → List String → Answer) (attempt n : ℕ) (request : List String)
    → ((n : ℕ) (r : List String) → IsRequest r → IsServed n r (ask n r))
    → (found : Dict LogRow) (unprocessed : List String)
    → ask attempt request ≡ some (found, unprocessed)
    → length unprocessed ≤ 100
    → IsDistinct unprocessed
    → (4 ≤ attempt → unprocessed ≡ [])
    → attempt + n ≡ 4
    → (rows : Dict LogRow) × (batch_get_rows ask attempt (suc n) request ≡ some rows)
unfolding batch_get_rows
answered-returns ask attempt n request served found [] e few apart finished count =
    (found, rw (e, batch_get_rows) refl)
answered-returns ask attempt zero request served found (v ∷ left) e few apart finished count =
    absurd (cons-ne-nil v left (finished (omega arith)))
answered-returns ask attempt (suc n) request served found (v ∷ left) e few apart finished count =
    let next = served (suc attempt) (v ∷ left) (omega arith, few, apart) in
    let (all, h) = prepend-returns found _ (
      answered-returns ask (suc attempt) n (v ∷ left) served next.rows next.unprocessed
        next.answered (le_trans next.fewer few) next.apart next.finished (omega arith)) in
    (all, rw (e, batch_get_rows) h)

batch-IsRequest :
    (v : String) (ids : List String)
    → IsDistinct (v ∷ ids)
    → IsRequest (take batch_get_limit (v ∷ ids))
batch-IsRequest v ids h = (
  omega arith,
  length-take-le batch_get_limit (v ∷ ids),
  take-IsDistinct batch_get_limit (v ∷ ids) h,
)

read_batches-returns :
    (ask : Ask) (fuel : ℕ) (to_read : List String)
    → IsAvailable ask
    → IsDistinct to_read
    → (rows : Dict LogRow) × (read_batches ask fuel to_read ≡ some rows)
unfolding read_batches
read_batches-returns ask zero to_read served apart = ([], refl)
read_batches-returns ask (suc fuel) [] served apart = ([], refl)
read_batches-returns ask (suc fuel) (v ∷ to_read) served apart =
    let valid = batch-IsRequest v to_read apart in
    let first = served fuel 0 (take batch_get_limit (v ∷ to_read)) valid in
    let (rows, e) =
      answered-returns (ask fuel) 0 4 (take batch_get_limit (v ∷ to_read)) (served fuel) first.rows
        first.unprocessed first.answered (le_trans first.fewer valid.1) first.apart first.finished
        refl in
    let (all, h) = prepend-returns rows _ (
      read_batches-returns ask fuel (drop batch_get_limit (v ∷ to_read)) served
        (drop-IsDistinct batch_get_limit (v ∷ to_read) apart)) in
    (all, rw e h)

handled_ids-returns :
    (ask : Ask) (video_ids : List String) (now : ℕ)
    → IsAvailable ask
    → (handled : List String) × (handled_ids ask video_ids now ≡ some handled)
unfolding handled_ids
handled_ids-returns ask video_ids now served =
    let (rows, e) =
      read_batches-returns ask (length (sorted_set video_ids)) (sorted_set video_ids) served
        (sorted_set-IsDistinct video_ids) in
    (handled_ids_of now rows, rw (e, handled_ids) refl)

remember_rows-returns :
    (client_id : String) (now expires_at : ℕ) (settled : List String) (cache : SettledCache)
    (o : Option (Dict LogRow))
    → (rows : Dict LogRow) × (o ≡ some rows)
    → (handled : List String) × ((remember_rows client_id now expires_at settled cache o).handled
        ≡ some handled)
unfolding remember_rows
remember_rows-returns client_id now expires_at settled cache none (rows, e) = absurd cc
remember_rows-returns client_id now expires_at settled cache (some rows) e = (_, refl)

read_unsettled-returns :
    (ask : Ask) (client_id : String) (wanted : List String) (now : ℕ) (entry : ℕ × List String)
    (cache : SettledCache)
    → IsAvailable ask
    → (handled : List String) × ((read_unsettled ask client_id wanted now entry cache).handled
        ≡ some handled)
unfolding read_unsettled
read_unsettled-returns ask client_id wanted now entry cache served =
    remember_rows-returns client_id now entry.0 _ cache _
      (read_batches-returns ask _ _ served (sorted_set-IsDistinct _))

delivered_video_ids-returns :
    (ask : Ask) (client_id : String) (video_ids : List String) (now monotonic ttl : ℕ)
    (cache : SettledCache)
    → IsAvailable ask
    → (handled : List String) × ((delivered_video_ids ask client_id video_ids now monotonic ttl
          cache).handled
        ≡ some handled)
unfolding delivered_video_ids
delivered_video_ids-returns ask client_id video_ids now monotonic ttl cache served =
    elim (Bool-cases (is_empty (distinct video_ids))) [
      | inl e ↦ rw e ([], refl)
      | inr e ↦ rw e (
          read_unsettled-returns ask client_id (distinct video_ids) now
            (live_entry monotonic ttl (entry_of (lookup client_id cache))) cache served)
    ]

-- Where DynamoDB answers every request of one to 100 different keys, and its fifth attempt leaves
-- no id unprocessed, both bulk reads return, and with a cache of settled ids only they report the
-- same ids: exactly those asked for whose item is handled.
pub bulk_reads_agree :
    (reads : String → String → Option LogRow) (ask : Ask) (client_id : String)
    (video_ids : List String) (now monotonic ttl : ℕ) (cache : SettledCache)
    → IsBatchGet (reads client_id) ask
    → IsAvailable ask
    → IsSettledCache reads cache
    → (plain : List String) × (cached : List String) × (handled_ids ask video_ids now ≡ some plain)
      × ((delivered_video_ids ask client_id video_ids now monotonic ttl cache).handled
          ≡ some cached)
      × ((v : String)
          → (member v plain ≡ (member v video_ids && already_delivered (reads client_id v) now))
            × (member v cached ≡ member v plain))
bulk_reads_agree reads ask client_id video_ids now monotonic ttl cache law served settled =
    let (plain, h) = handled_ids-returns ask video_ids now served in
    let (cached, k) =
      delivered_video_ids-returns ask client_id video_ids now monotonic ttl cache served in
    let exact = handled_ids-exact (reads client_id) ask law video_ids now plain h in
    let reported =
      (delivered_video_ids-Reports reads ask client_id law video_ids now monotonic ttl cache
          settled).0
        cached k in
    (plain, cached, h, k, λ v. (exact v, reported v ∙ sym (exact v)))
