-- ===== src/DeliveryLog/Passing.antt =====
-- The ids of the rows that pass a test.
use yobi_analytics.Prelude.{
  ℕ, ◌≡◌, refl, sym, ap, ◌∙◌, subst, String, Bool, true, false, ◌&&◌, Option, none, some, List, [],
  ◌∷◌, keep, Dict, keys, str_eq, eq_iff, member, arith, All, Bool-cases, Option-cases, inl, inr,
}
use mathlib.Core.Option.{some-injective}
use yobi_analytics.DeliveryLog.{LogRow, claimed, delivered, suppressed, already_delivered}
use yobi_analytics.DeliveryLog.Bulk.{is_settled, settled_ids_of, handled_ids_of}
use yobi_analytics.DeliveryLog.Paging.{IsAnswer}

not_both : (b : Bool) → (b && false) ≡ true → ⊥
not_both b h = ground arith

pub and_true : (a b : Bool) → (a && b) ≡ true → (a ≡ true) × (b ≡ true)
and_true a b h = ground arith

-- The ids of the rows that pass a test are those asked for whose item passes it.
module _ (read : String → Option LogRow) (p : LogRow → Bool) where
  abbrev passes : Option LogRow → Bool
  passes none = false
  passes (some row) = p row

  kept-passes :
      (v : String) (request : List String) (rows : Dict LogRow)
      → All (λ e. (read e.0 ≡ some e.1) × (member e.0 request ≡ true)) rows
      → member v (keys (keep (λ e. p e.1) rows)) ≡ true
      → (member v request ≡ true) × (passes (read v) ≡ true)
  unfolding member
  kept-passes v request [] sound h = absurd cc
  kept-passes v request ((w, row) ∷ rows) ((r, m), sound) h = elim (Bool-cases (p row)) [
    | inr t ↦ kept-passes v request rows sound (rw t at h)
    | inl t ↦ elim (Bool-cases (str_eq w v)) [
      | inr e ↦ kept-passes v request rows sound (rw (t, e) at h)
      | inl e ↦
          let same : w ≡ v = (eq_iff w v).0 e in
          (
            subst (λ x. member x request ≡ true) same m,
            subst (λ x. passes (read x) ≡ true) same (ap passes r ∙ t),
          )
    ]
  ]

  row_passes :
      (v w : String) (row row' : LogRow)
      → read w ≡ some row'
      → read v ≡ some row
      → p row ≡ true
      → w ≡ v
      → p row' ≡ true
  row_passes v w row row' r found t same =
      ap p (some-injective _ _ (sym r ∙ ap read same ∙ found)) ∙ t

  passes-kept :
      (v : String) (request : List String) (row : LogRow) (rows : Dict LogRow)
      → All (λ e. (read e.0 ≡ some e.1) × (member e.0 request ≡ true)) rows
      → member v (keys rows) ≡ true
      → read v ≡ some row
      → p row ≡ true
      → member v (keys (keep (λ e. p e.1) rows)) ≡ true
  unfolding member
  passes-kept v request row [] sound h found t = h
  passes-kept v request row ((w, row') ∷ rows) ((r, m), sound) h found t =
      elim (Bool-cases (str_eq w v)) [
        | inl e ↦ rw (row_passes v w row row' r found t ((eq_iff w v).0 e), e) refl
        | inr e ↦ elim (Bool-cases (p row')) [
          | inl u ↦ rw (u, e) (passes-kept v request row rows sound (rw e at h) found t)
          | inr u ↦ rw u (passes-kept v request row rows sound (rw e at h) found t)
        ]
      ]

  both_true : (a b : Bool) → a ≡ true → b ≡ true → (a && b) ≡ true
  both_true a b h k = ground arith

  asked-kept :
      (v : String) (request : List String) (rows : Dict LogRow)
      → IsAnswer read request rows
      → (member v request && passes (read v)) ≡ true
      → member v (keys (keep (λ e. p e.1) rows)) ≡ true
  asked-kept v request rows a h = elim (Option-cases (read v)) [
    | inl none_there ↦ absurd (not_both (member v request) (rw none_there at h))
    | inr (row, found) ↦
        let (m, t) = and_true (member v request) (p row) (rw found at h) in
        passes-kept v request row rows a.sound (a.complete v row m found) found t
  ]

  member-passing :
      (v : String) (request : List String) (rows : Dict LogRow)
      → IsAnswer read request rows
      → member v (keys (keep (λ e. p e.1) rows)) ≡ (member v request && passes (read v))
  member-passing v request rows a = elim (Bool-cases (member v request && passes (read v))) [
    | inl e ↦ asked-kept v request rows a e ∙ sym e
    | inr e ↦ elim (Bool-cases (member v (keys (keep (λ e. p e.1) rows)))) [
      | inl h ↦
          let (m, t) = kept-passes v request rows a.sound h in
          h ∙ sym (both_true (member v request) (passes (read v)) m t)
      | inr h ↦ h ∙ sym e
    ]
  ]

passes-already_delivered :
    (read : String → Option LogRow) (now : ℕ) (o : Option LogRow)
    → passes read (λ row. already_delivered (some row) now) o ≡ already_delivered o now
unfolding already_delivered
passes-already_delivered read now none = refl
passes-already_delivered read now (some row) = refl

abbrev pub is_settled_item : Option LogRow → Bool
is_settled_item none = false
is_settled_item (some row) = is_settled row

pub settled-handled :
    (now : ℕ) (o : Option LogRow) → is_settled_item o ≡ true → already_delivered o now ≡ true
unfolding already_delivered
settled-handled now none h = cc
settled-handled now (some (claimed _)) h = absurd cc
settled-handled now (some (delivered _)) h = refl
settled-handled now (some (suppressed _)) h = refl

passes-settled :
    (read : String → Option LogRow) (o : Option LogRow)
    → passes read is_settled o ≡ is_settled_item o
passes-settled read none = refl
passes-settled read (some row) = refl

pub list-ne-none : (xs : List String) → some xs ≡ none → ⊥
list-ne-none xs h = cc

module _ (read : String → Option LogRow) where
  pub member-handled :
      (v : String) (request : List String) (rows : Dict LogRow) (now : ℕ)
      → IsAnswer read request rows
      → member v (handled_ids_of now rows) ≡ (member v request && already_delivered (read v) now)
  member-handled v request rows now a =
      member-passing read (λ row. already_delivered (some row) now) v request rows a
      ∙ ap (λ b. member v request && b) (passes-already_delivered read now (read v))

  pub member-settled :
      (v : String) (request : List String) (rows : Dict LogRow)
      → IsAnswer read request rows
      → member v (settled_ids_of rows) ≡ (member v request && is_settled_item (read v))
  member-settled v request rows a =
      member-passing read is_settled v request rows a
      ∙ ap (λ b. member v request && b) (passes-settled read (read v))
