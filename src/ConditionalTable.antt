-- ===== src/ConditionalTable.antt =====
-- A DynamoDB table as the stores use it: a put or a delete of one item, on a condition or on none,
-- is one atomic step on that item. boto3 is not under src/; this is what the code relies on.
use yobi_analytics.Prelude.{
  Bool, true, false, Option, ◌≡◌, ◌≢◌, ◌∙◌, ◌⊎◌, inl, inr, if◌then◌else◌, Bool-cases,
}

-- What the stored item must satisfy, and the item that replaces it (`none` deletes it).
pub record Write (Row : Type 0) : Type 0 where
  pub condition : Option Row → Bool
  pub item : Option Row → Option Row

-- `other_error` is any ClientError but a failed condition.
pub data Reply : Type 0 where
  done condition_failed other_error : Reply

module _ {Key Row State : Type 0} (same : Key → Key → Bool) (read : State → Key → Option Row) where
  -- The write took place: its condition held, and only the item at its key was replaced.
  abbrev pub Applied : Write Row → Key → State → State → Type 0
  Applied w key s s' =
      (w.condition (read s key) ≡ true)
      × ((j : Key) → read s' j ≡ (if same key j then w.item (read s key) else read s j))

  abbrev pub Unchanged : State → State → Type 0
  Unchanged s s' = (j : Key) → read s' j ≡ read s j

  -- After an error of another kind (a timeout, say) the write may have taken place or not.
  abbrev pub Effect : Reply → Write Row → Key → State → State → Type 0
  Effect done w key s s' = Applied w key s s'
  Effect condition_failed w key s s' = (w.condition (read s key) ≡ false) × Unchanged s s'
  Effect other_error w key s s' = Applied w key s s' ⊎ Unchanged s s'

module _ {Key Row State : Type 0} (same : Key → Key → Bool) (read : State → Key → Option Row)
    (same-equal : (k d : Key) → same k d ≡ true → k ≡ d) where
  Applied-blocked :
      (d : Key) (item : Option Row) (w : Write Row) (k : Key) (s s' : State)
      → read s d ≡ item
      → ((same k d ≡ true) → w.condition item ≡ false)
      → Applied same read w k s s'
      → (read s' d ≡ item) × ((same k d ≡ true) → ⊥)
  Applied-blocked d item w k s s' at_d blocked (met, reads) = elim (Bool-cases (same k d)) [
    | inl e ↦
        let k-eq : k ≡ d = same-equal k d e in
        let met' : w.condition item ≡ true = cc at_d in absurd (cc (blocked e))
    | inr other ↦ (reads d ∙ rw other at_d, λ e. cc)
  ]

  -- A write whose condition fails on the item of `d`, if it is for `d`, does not take place there.
  pub Effect-blocked :
      (d : Key) (item : Option Row) (reply : Reply) (w : Write Row) (k : Key) (s s' : State)
      → read s d ≡ item
      → ((same k d ≡ true) → w.condition item ≡ false)
      → Effect same read reply w k s s'
      → (read s' d ≡ item) × ((same k d ≡ true) → reply ≢ done)
  Effect-blocked d item done w k s s' at_d blocked e =
      let (kept, never) = Applied-blocked d item w k s s' at_d blocked e in
      (kept, λ same. absurd (never same))
  Effect-blocked d item condition_failed w k s s' at_d blocked (_, reads) =
      (reads d ∙ at_d, λ same e. cc)
  Effect-blocked d item other_error w k s s' at_d blocked (inl e) =
      ((Applied-blocked d item w k s s' at_d blocked e).0, λ same e'. cc)
  Effect-blocked d item other_error w k s s' at_d blocked (inr reads) =
      (reads d ∙ at_d, λ same e'. cc)

pub record ConditionalTable (Key Row : Type 0) (same : Key → Key → Bool) : Type 1 where
  pub State : Type 0
  pub read : State → Key → Option Row
  pub write : Write Row → Key → State → Reply × State
  pub write_effect :
      (w : Write Row) (key : Key) (s : State)
      → Effect same read (write w key s).0 w key s (write w key s).1
