-- ===== src/DeliveryLog/Bulk.antt =====
-- src/stores/notification_delivery_log_store.py: the bulk reads of one client's items. `ask` stands
-- for BatchGetItem: the answer to the request with these video ids, by the number of the batch (as the
-- fuel that is left) and of the attempt, from 0 on; `none` is a ClientError. The waits between attempts
-- are left out.
use yobi_analytics.Prelude.{
  ℕ, zero, suc, ◌+◌, String, Bool, true, false, not, Option, none, some, List, [], ◌∷◌, ◌++◌,
  length, take, drop, keep, Dict, keys, lookup, insert, ltb, str_eq, member, if◌then◌else◌,
}
use yobi_analytics.Prelude.TextSets.{distinct, sorted_set}
use yobi_analytics.DeliveryLog.{LogRow, claimed, delivered, suppressed, already_delivered}

abbrev pub batch_get_limit : ℕ
batch_get_limit = 100

abbrev pub batch_get_max_attempts : ℕ
batch_get_max_attempts = 5

-- The items found, and UnprocessedKeys.
abbrev pub Answer : Type 0
Answer = Option (Dict LogRow × List String)

abbrev pub Ask : Type 0
Ask = ℕ → ℕ → List String → Answer

unfoldable pub prepend : Dict LogRow → Option (Dict LogRow) → Option (Dict LogRow)
prepend rows none = none
prepend rows (some rest) = some (rows ++ rest)

-- `_batch_get_rows`; `none` is NotificationDeliveryLogStoreError.
unfoldable pub batch_get_rows :
    (ℕ → List String → Answer) → (attempt rounds : ℕ) → List String → Option (Dict LogRow)
unfolding prepend
batch_get_rows ask attempt zero request = none
batch_get_rows ask attempt (suc rounds) request = elim (ask attempt request) [
  | none ↦ none
  | some answer ↦ elim answer.1 [
    | [] ↦ some answer.0
    | v ∷ unprocessed ↦ prepend answer.0 (batch_get_rows ask (suc attempt) rounds (v ∷ unprocessed))
  ]
]

-- `for start in range(0, len(to_read), _BATCH_GET_LIMIT)`; the fuel is the number of ids to read.
unfoldable pub read_batches : Ask → (fuel : ℕ) → List String → Option (Dict LogRow)
unfolding prepend batch_get_rows
read_batches ask zero to_read = some []
read_batches ask (suc fuel) [] = some []
read_batches ask (suc fuel) (v ∷ to_read) =
    elim (batch_get_rows (ask fuel) 0 batch_get_max_attempts (take batch_get_limit (v ∷ to_read))) [
      | none ↦ none
      | some rows ↦ prepend rows (read_batches ask fuel (drop batch_get_limit (v ∷ to_read)))
    ]

abbrev pub is_settled : LogRow → Bool
is_settled (claimed _) = false
is_settled (delivered _) = true
is_settled (suppressed _) = true

abbrev pub settled_ids_of : Dict LogRow → List String
settled_ids_of rows = keys (keep (λ e. is_settled e.1) rows)

abbrev pub handled_ids_of : (now : ℕ) → Dict LogRow → List String
handled_ids_of now rows = keys (keep (λ e. already_delivered (some e.1) now) rows)

unfoldable pub handled_ids : Ask → List String → (now : ℕ) → Option (List String)
unfolding read_batches
handled_ids ask video_ids now =
    let wanted = sorted_set video_ids in
    elim (read_batches ask (length wanted) wanted) [
      | none ↦ none
      | some rows ↦ some (handled_ids_of now rows)
    ]

-- `_settled_cache`: by client, when the entry expires and the settled ids.
abbrev pub SettledCache : Type 0
SettledCache = Dict (ℕ × List String)

-- `_settled_cache.pop(client_id, None)`
abbrev pub pop_client : String → SettledCache → SettledCache
pop_client client_id cache = keep (λ e. not (str_eq e.0 client_id)) cache

-- `_settled_cache.get(client_id, (0.0, set()))`
abbrev pub entry_of : Option (ℕ × List String) → ℕ × List String
entry_of none = (0, [])
entry_of (some entry) = entry

-- The entry to start from: a new one, of the lifetime `ttl`, where the stored one has expired.
unfoldable pub live_entry : (monotonic ttl : ℕ) → ℕ × List String → ℕ × List String
live_entry monotonic ttl (expires_at, settled) =
    if ltb monotonic expires_at then (expires_at, settled) else (monotonic + ttl, [])

abbrev pub is_empty : List String → Bool
is_empty [] = true
is_empty (_ ∷ _) = false

-- What a call answers, and the cache after it.
pub record Bulk : Type 0 where
  pub handled : Option (List String)
  pub cache : SettledCache

-- What the rows add to the settled ids; an error leaves the cache as it was.
unfoldable pub remember_rows :
    (client_id : String) (now expires_at : ℕ)
    → (settled : List String) → SettledCache
    → Option (Dict LogRow)
    → Bulk
remember_rows client_id now expires_at settled cache none = record { handled = none; cache = cache }
remember_rows client_id now expires_at settled cache (some rows) = record {
  handled = some (settled ++ handled_ids_of now rows);
  cache = insert client_id (expires_at, settled ++ settled_ids_of rows) cache;
}

-- `sorted(wanted - settled)`
abbrev pub ids_to_read : (wanted settled : List String) → List String
ids_to_read wanted settled = sorted_set (keep (λ v. not (member v settled)) wanted)

unfoldable pub read_unsettled :
    Ask
    → (client_id : String) → (wanted : List String) → (now : ℕ) (entry : ℕ × List String)
    → SettledCache
    → Bulk
unfolding read_batches remember_rows
read_unsettled ask client_id wanted now entry cache =
    let settled = keep (λ v. member v wanted) entry.1 in
    let to_read = ids_to_read wanted settled in
    remember_rows client_id now entry.0 settled cache (read_batches ask (length to_read) to_read)

-- `monotonic` is time.monotonic(), `ttl` the jittered lifetime of a new entry.
unfoldable pub delivered_video_ids :
    Ask
    → (client_id : String) → (video_ids : List String) → (now monotonic ttl : ℕ) → SettledCache
    → Bulk
unfolding read_unsettled live_entry
delivered_video_ids ask client_id video_ids now monotonic ttl cache =
    let wanted = distinct video_ids in
    if is_empty wanted
    then record { handled = some []; cache = pop_client client_id cache }
    else read_unsettled ask client_id wanted now
        (live_entry monotonic ttl (entry_of (lookup client_id cache))) cache
