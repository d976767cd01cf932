-- ===== src/DeliveryLog/Paging.antt =====
-- The batched reads of src/stores/notification_delivery_log_store.py, and what BatchGetItem is relied
-- on for.
use yobi_analytics.Prelude.{
  ℕ, zero, suc, ◌≤◌, ◌≡◌, ◌⊎◌, refl, sym, ap, ◌∙◌, subst, String, Bool, true, false, not, ◌||◌,
  Option, none, some, List, [], ◌∷◌, ◌++◌, length, take, drop, keep, Dict, keys, member, arith, All,
  All-append, All-map_pred, Option-cases, inl, inr, take-drop, length-drop-le,
}
use mathlib.Core.Option.{some-injective}
use yobi_analytics.Prelude.TextSets.{member-append, member-keep}
use yobi_analytics.DeliveryLog.{LogRow}
use yobi_analytics.DeliveryLog.Bulk.{
  Ask, batch_get_limit, batch_get_max_attempts, prepend, batch_get_rows, read_batches,
}

-- The rows are the items that the table has for the request.
pub record IsAnswer (read : String → Option LogRow) (request : List String) (rows : Dict LogRow)
    : Type 0 where
  pub sound : All (λ e. (read e.0 ≡ some e.1) × (member e.0 request ≡ true)) rows
  pub complete :
      (v : String) (row : LogRow)
      → member v request ≡ true
      → read v ≡ some row
      → member v (keys rows) ≡ true

-- What DynamoDB documents of BatchGetItem: the keys it names as unprocessed are of the request, and it
-- answers the others, all from the items `read`.
abbrev pub IsBatchGet : (read : String → Option LogRow) → Ask → Type 0
IsBatchGet read ask =
    (batch attempt : ℕ) (request : List String) (rows : Dict LogRow) (unprocessed : List String)
    → ask batch attempt request ≡ some (rows, unprocessed)
    → ((v : String) → member v unprocessed ≡ true → member v request ≡ true)
      × IsAnswer read (keep (λ v. not (member v unprocessed)) request) rows

covered_left : (m a b : Bool) → m ≡ (a || b) → a ≡ true → m ≡ true
covered_left m a b e h = ground arith

covered_right : (m a b : Bool) → m ≡ (a || b) → b ≡ true → m ≡ true
covered_right m a b e h = ground arith

pub or-cases : (a b : Bool) → (a || b) ≡ true → (a ≡ true) ⊎ (b ≡ true)
or-cases true b h = inl refl
or-cases false b h = inr h

member-keys_append :
    (v : String) (rows rest : Dict LogRow)
    → member v (keys (rows ++ rest)) ≡ (member v (keys rows) || member v (keys rest))
unfolding member
member-keys_append v [] rest = refl
member-keys_append v (e ∷ rows) rest = ground (arith, member-keys_append v rows rest)

either_found :
    (v : String) (rows rest : Dict LogRow)
    → (member v (keys rows) ≡ true) ⊎ (member v (keys rest) ≡ true)
    → member v (keys (rows ++ rest)) ≡ true
either_found v rows rest (inl h) =
    covered_left _ (member v (keys rows)) (member v (keys rest)) (member-keys_append v rows rest) h
either_found v rows rest (inr h) =
    covered_right _ (member v (keys rows)) (member v (keys rest)) (member-keys_append v rows rest) h

-- The ids of a request that are unprocessed and those that are not.
unprocessed-split :
    (request unprocessed : List String) (v : String)
    → (member v unprocessed ≡ true → member v request ≡ true)
    → member v request
      ≡ (member v (keep (λ w. not (member w unprocessed)) request) || member v unprocessed)
unprocessed-split request unprocessed v h =
    ground (arith, member-keep (λ w. not (member w unprocessed)) v request)

all-processed :
    (request : List String) (v : String)
    → member v request ≡ member v (keep (λ w. not (member w [])) request)
unfolding member
all-processed request v = ground (arith, member-keep (λ w. true) v request)

rows-ne-none : (rows : Dict LogRow) → some rows ≡ none → ⊥
rows-ne-none rows h = cc

take-split :
    (n : ℕ) (xs : List String) (v : String)
    → member v xs ≡ (member v (take n xs) || member v (drop n xs))
take-split n xs v = ap (member v) (sym (take-drop n xs)) ∙ member-append v (take n xs) (drop n xs)

prepend-some :
    (rows all : Dict LogRow) (o : Option (Dict LogRow))
    → prepend rows o ≡ some all
    → (rest : Dict LogRow) × (o ≡ some rest) × (all ≡ rows ++ rest)
unfolding prepend
prepend-some rows all none h = absurd cc
prepend-some rows all (some rest) h = (rest, refl, sym (some-injective _ _ h))

nil-IsAnswer : (read : String → Option LogRow) → IsAnswer read [] []
unfolding member
nil-IsAnswer read = record { sound = tt; complete = λ v row h _. h }

module _ (read : String → Option LogRow) where
  -- An answer for some of the ids, before one for the others.
  IsAnswer-join :
      (request first second : List String) (rows rest : Dict LogRow)
      → ((v : String) → member v request ≡ (member v first || member v second))
      → IsAnswer read first rows
      → IsAnswer read second rest
      → IsAnswer read request (rows ++ rest)
  IsAnswer-join request first second rows rest split a b = record {
    sound =
        All-append _ rows rest
          (All-map_pred (λ e h. (h.0, covered_left (member e.0 request) _ _ (split e.0) h.1)) rows
            a.sound)
          (All-map_pred (λ e h. (h.0, covered_right (member e.0 request) _ _ (split e.0) h.1)) rest
            b.sound);
    complete = λ v row asked found.
        elim (or-cases (member v first) (member v second) (sym (split v) ∙ asked)) [
          | inl h ↦ either_found v rows rest (inl (a.complete v row h found))
          | inr h ↦ either_found v rows rest (inr (b.complete v row h found))
        ];
  }

  IsAnswer-same :
      (request asked : List String) (rows : Dict LogRow)
      → ((v : String) → member v request ≡ member v asked)
      → IsAnswer read asked rows
      → IsAnswer read request rows
  IsAnswer-same request asked rows same a = record {
    sound = All-map_pred (λ e h. (h.0, same e.0 ∙ h.1)) rows a.sound;
    complete = λ v row h found. a.complete v row (sym (same v) ∙ h) found;
  }

  batch_get_rows-IsAnswer :
      (ask : Ask) (batch attempt rounds : ℕ) (request : List String) (rows : Dict LogRow)
      → IsBatchGet read ask
      → batch_get_rows (ask batch) attempt rounds request ≡ some rows
      → IsAnswer read request rows
  unfolding batch_get_rows
  batch_get_rows-IsAnswer ask batch attempt zero request rows law h = absurd cc
  batch_get_rows-IsAnswer ask batch attempt (suc rounds) request rows law h =
      elim (Option-cases (ask batch attempt request)) [
        | inl e ↦ absurd (rows-ne-none rows (sym (rw (e, batch_get_rows) at h)))
        | inr ((found, []), e) ↦
            let (within, answer) = law batch attempt request found [] e in
            subst (IsAnswer read request) (some-injective _ _ (rw (e, batch_get_rows) at h))
              (IsAnswer-same request _ found (all-processed request) answer)
        | inr ((found, v ∷ left), e) ↦
            let (within, answer) = law batch attempt request found (v ∷ left) e in
            let (rest, read_rest, all) = prepend-some found rows _ (rw (e, batch_get_rows) at h) in
            subst (IsAnswer read request) (sym all) (
              IsAnswer-join request _ (v ∷ left) found rest
                (λ w. unprocessed-split request (v ∷ left) w (within w)) answer
                (batch_get_rows-IsAnswer ask batch (suc attempt) rounds (v ∷ left) rest law
                  read_rest))
      ]

  pub read_batches-IsAnswer :
      (ask : Ask) (fuel : ℕ) (to_read : List String) (rows : Dict LogRow)
      → IsBatchGet read ask
      → length to_read ≤ fuel
      → read_batches ask fuel to_read ≡ some rows
      → IsAnswer read to_read rows
  unfolding read_batches
  read_batches-IsAnswer ask zero [] rows law enough h =
      subst (IsAnswer read []) (some-injective _ _ h) (nil-IsAnswer read)
  read_batches-IsAnswer ask zero (v ∷ to_read) rows law enough h = absurd (omega arith)
  read_batches-IsAnswer ask (suc fuel) [] rows law enough h =
      subst (IsAnswer read []) (some-injective _ _ h) (nil-IsAnswer read)
  read_batches-IsAnswer ask (suc fuel) (v ∷ to_read) rows law enough h =
      elim (Option-cases
        (batch_get_rows (ask fuel) 0 batch_get_max_attempts (take batch_get_limit (v ∷ to_read)))) [
          | inl e ↦ absurd (rows-ne-none rows (sym (rw e at h)))
          | inr (found, e) ↦
              let (rest, read_rest, all) = prepend-some found rows _ (rw e at h) in
              subst (IsAnswer read (v ∷ to_read)) (sym all) (
                IsAnswer-join (v ∷ to_read) (take batch_get_limit (v ∷ to_read))
                  (drop batch_get_limit (v ∷ to_read)) found rest
                  (take-split batch_get_limit (v ∷ to_read))
                  (batch_get_rows-IsAnswer ask fuel 0 batch_get_max_attempts
                    (take batch_get_limit (v ∷ to_read)) found law e)
                  (read_batches-IsAnswer ask fuel (drop batch_get_limit (v ∷ to_read)) rest law
                    (omega (arith, length-drop-le 99 to_read)) read_rest))
        ]
