-- ===== src/DeliveryLog/BulkTests.antt =====
-- A BatchGetItem in memory, and bulk reads of the delivery log at concrete inputs.
use yobi_analytics.Prelude.{
  ℕ, ◌≡◌, refl, sym, ◌∙◌, ap, subst, String, true, false, not, ◌&&◌, Option, none, some, List, [],
  ◌∷◌, str_eq, eq_iff, eq_refl, if◌then◌else◌, Bool-cases, inl, inr, Dict, lookup, keep, keys,
  member, arith, All, All-map_pred,
}
use mathlib.Core.Option.{some-injective}
use yobi_analytics.Prelude.TextSets.{member-keep}
use yobi_analytics.DeliveryLog.{LogRow, claimed, delivered, suppressed, already_delivered}
use yobi_analytics.DeliveryLog.Bulk.{Ask, SettledCache, handled_ids, delivered_video_ids}
use yobi_analytics.DeliveryLog.Paging.{IsAnswer, IsBatchGet}
use yobi_analytics.DeliveryLog.Passing.{is_settled_item}
use yobi_analytics.DeliveryLog.Cached.{IsSettledCache, ListsHandled, delivered_video_ids-exact}
use yobi_analytics.DeliveryLog.Available.{IsAvailable, bulk_reads_agree}

-- The items that a table has for a request, each of the request's ids answered.
row_or_rest : String → Option LogRow → Dict LogRow → Dict LogRow
row_or_rest v none rest = rest
row_or_rest v (some row) rest = (v, row) ∷ rest

rows_of : (String → Option LogRow) → List String → Dict LogRow
unfolding row_or_rest
rows_of read [] = []
rows_of read (v ∷ request) = row_or_rest v (read v) (rows_of read request)

IsItem : (String → Option LogRow) → List String → String × LogRow → Type 0
IsItem read request e = (read e.0 ≡ some e.1) × (member e.0 request ≡ true)

widened :
    (v w : String) (request : List String) → member v request ≡ true → member v (w ∷ request) ≡ true
unfolding member
widened v w request h = ground arith

row_sound :
    (read : String → Option LogRow) (v : String) (request : List String) (o : Option LogRow)
    (rest : Dict LogRow)
    → read v ≡ o
    → All (IsItem read request) rest
    → All (IsItem read (v ∷ request)) (row_or_rest v o rest)
unfolding row_or_rest IsItem member
row_sound read v request none rest e h =
    All-map_pred (λ i k. (k.0, widened i.0 v request k.1)) rest h
row_sound read v request (some row) rest e h =
    ((e, rw (eq_refl v) refl), All-map_pred (λ i k. (k.0, widened i.0 v request k.1)) rest h)

rows_of_sound :
    (read : String → Option LogRow) (request : List String)
    → All (IsItem read request) (rows_of read request)
unfolding rows_of
rows_of_sound read [] = tt
rows_of_sound read (v ∷ request) =
    row_sound read v request (read v) _ refl (rows_of_sound read request)

no_row : (row : LogRow) → none ≡ some row → ⊥
no_row row h = cc

row_complete :
    (v w : String) (o : Option LogRow) (row : LogRow) (rest : Dict LogRow)
    → (str_eq v w ≡ true → o ≡ some row)
    → (str_eq v w ≡ false → member w (keys rest) ≡ true)
    → member w (keys (row_or_rest v o rest)) ≡ true
unfolding row_or_rest member
row_complete v w none row rest here there = elim (Bool-cases (str_eq v w)) [
  | inl e ↦ absurd (no_row row (here e))
  | inr e ↦ there e
]
row_complete v w (some r) row rest here there = elim (Bool-cases (str_eq v w)) [
  | inl e ↦ rw e refl
  | inr e ↦ rw e (there e)
]

rows_of_complete :
    (read : String → Option LogRow) (request : List String) (w : String) (row : LogRow)
    → member w request ≡ true
    → read w ≡ some row
    → member w (keys (rows_of read request)) ≡ true
unfolding rows_of member
rows_of_complete read [] w row h found = h
rows_of_complete read (v ∷ request) w row h found =
    row_complete v w (read v) row _ (λ e. ap read ((eq_iff v w).0 e) ∙ found)
      (λ e. rows_of_complete read request w row (rw e at h) found)

keep_all :
    (v : String) (request : List String)
    → member v (keep (λ w. not (member w [])) request) ≡ member v request
unfolding member
keep_all v request = ground (arith, member-keep (λ w. true) v request)

abbrev ask_memory : (String → Option LogRow) → Ask
ask_memory read batch attempts request = some (rows_of read request, [])

rows_of-IsAnswer :
    (read : String → Option LogRow) (request : List String)
    → IsAnswer read (keep (λ w. not (member w [])) request) (rows_of read request)
unfolding IsItem
rows_of-IsAnswer read request = record {
  sound =
      All-map_pred (λ e h. (h.0, keep_all e.0 request ∙ h.1)) (rows_of read request)
        (rows_of_sound read request);
  complete =
      λ v row h found. rows_of_complete read request v row (sym (keep_all v request) ∙ h) found;
}

nothing_left : (request : List String) (v : String) → member v [] ≡ true → member v request ≡ true
unfolding member
nothing_left request v h = absurd cc

ask_memory-IsBatchGet : (read : String → Option LogRow) → IsBatchGet read (ask_memory read)
ask_memory-IsBatchGet read batch attempts request rows unprocessed e =
    subst
      (λ p.
        ((v : String) → member v p.1 ≡ true → member v request ≡ true)
        × IsAnswer read (keep (λ v. not (member v p.1)) request) p.0)
      (some-injective _ _ e) (nothing_left request, rows_of-IsAnswer read request)

ask_memory-IsAvailable : (read : String → Option LogRow) → IsAvailable (ask_memory read)
ask_memory-IsAvailable read batch attempts request valid = record {
  rows = rows_of read request;
  unprocessed = [];
  answered = refl;
  fewer = omega arith;
  apart = tt;
  finished = λ _. refl;
}

-- What the log holds for client-1: a delivery, a claim of minute 1 and a suppression.
log_of : String → Option LogRow
log_of v =
    if str_eq v "video-1"
    then some (delivered 60000000)
    else if str_eq v "video-2"
    then some (claimed 60000000)
    else if str_eq v "video-3"
    then some (suppressed 60000000)
    else none

abbrev asked_ids : List String
asked_ids = "video-1" ∷ "video-2" ∷ "video-3" ∷ "video-4" ∷ []

-- The cache knows the delivery of video-1.
abbrev warm_cache : SettledCache
warm_cache = ("client-1", (900, "video-1" ∷ [])) ∷ []

abbrev reads_of : String → String → Option LogRow
reads_of client_id v = log_of v

only_one : (v : String) → member v ("video-1" ∷ []) ≡ true → str_eq "video-1" v ≡ true
unfolding member
only_one v h = ground arith

no_entry : (entry : ℕ × List String) → none ≡ some entry → ⊥
no_entry entry h = cc

warm_entry :
    (c v : String) (entry : ℕ × List String)
    → lookup c warm_cache ≡ some entry
    → member v entry.1 ≡ true
    → str_eq "video-1" v ≡ true
unfolding lookup member
warm_entry c v entry h m = elim (Bool-cases (str_eq "client-1" c)) [
  | inl e ↦
      let f : (900, "video-1" ∷ []) ≡ entry = some-injective _ _ (rw e at h) in
      only_one v (subst (λ x. member v x.1 ≡ true) (sym f) m)
  | inr e ↦ absurd (no_entry entry (rw e at h))
]

warm_cache-IsSettledCache : IsSettledCache reads_of warm_cache
unfolding log_of
warm_cache-IsSettledCache c entry h v m =
    subst (λ w. is_settled_item (log_of w) ≡ true)
      ((eq_iff "video-1" v).0 (warm_entry c v entry h m)) refl

delivered_video_ids-exact_example :
    let bulk =
      delivered_video_ids (ask_memory log_of) "client-1" asked_ids 1261000000 100 900 warm_cache in
    ListsHandled log_of asked_ids 1261000000 bulk.handled × IsSettledCache reads_of bulk.cache
delivered_video_ids-exact_example =
    delivered_video_ids-exact reads_of (ask_memory log_of) "client-1" (ask_memory-IsBatchGet log_of)
      asked_ids 1261000000 100 900 warm_cache warm_cache-IsSettledCache

bulk_reads_agree_example :
    (plain : List String) × (cached : List String) × (handled_ids
        (ask_memory log_of)
        asked_ids
        1261000000
      ≡ some plain)
    × ((delivered_video_ids
          (ask_memory log_of)
          "client-1"
          asked_ids
          1261000000
          100
          900
          warm_cache).handled
        ≡ some cached)
    × ((v : String)
        → (member v plain ≡ (member v asked_ids && already_delivered (log_of v) 1261000000))
          × (member v cached ≡ member v plain))
bulk_reads_agree_example =
    bulk_reads_agree reads_of (ask_memory log_of) "client-1" asked_ids 1261000000 100 900 warm_cache
      (ask_memory-IsBatchGet log_of) (ask_memory-IsAvailable log_of) warm_cache-IsSettledCache
