-- ===== src/ExecutionLock/Message.antt =====
-- `_sanitize_error_message` of src/collection/execution_lock.py, over the code points of the text.
use yobi_analytics.Prelude.{
  ℕ, zero, suc, ◌+◌, ◌-◌, ◌≤◌, ◌≡◌, refl, Bool, true, false, ◌&&◌, ◌||◌, List, [], ◌∷◌, ◌++◌, arith,
  ltb, leb, ltb-false→le, ◌==◌, if◌then◌else◌, length, take, Bool-cases, inl, inr, length-take-le,
  length-append,
}

abbrev pub max_last_error_length : ℕ
max_last_error_length = 500

-- What `\s` and `str.strip` take for white space.
pub is_space : ℕ → Bool
is_space c =
    (leb 9 c && leb c 13)
    || (leb 28 c && leb c 32)
    || (c == 133)
    || (c == 160)
    || (c == 5760)
    || (leb 8192 c && leb c 8202)
    || (c == 8232)
    || (c == 8233)
    || (c == 8239)
    || (c == 8287)
    || (c == 12288)

-- `re.sub(r"\s+", " ", text)`; the flag says that the character before was white space.
pub collapse : Bool → List ℕ → List ℕ
collapse after_space [] = []
collapse after_space (c ∷ cs) =
    let spaced = collapse true cs in
    let plain = collapse false cs in
    if is_space c then (if after_space then spaced else 32 ∷ spaced) else c ∷ plain

-- `.lstrip()` and `.rstrip()`
pub lstrip : List ℕ → List ℕ
lstrip [] = []
lstrip (c ∷ cs) = let rest = lstrip cs in if is_space c then rest else c ∷ cs

-- What `rstrip` leaves of a text that ends in `c` and then in what is left of the rest.
trim_end : ℕ → List ℕ → List ℕ
trim_end c [] = if is_space c then [] else c ∷ []
trim_end c (d ∷ ds) = c ∷ d ∷ ds

pub rstrip : List ℕ → List ℕ
rstrip [] = []
rstrip (c ∷ cs) = trim_end c (rstrip cs)

-- A long message is cut to 499 characters and an ellipsis.
unfoldable pub sanitize_error_message : List ℕ → List ℕ
unfolding is_space collapse lstrip rstrip trim_end
sanitize_error_message message =
    let collapsed = rstrip (lstrip (collapse false message)) in
    if ltb max_last_error_length (length collapsed)
    then take (max_last_error_length - 1) collapsed ++ 8230 ∷ []
    else collapsed

-- The only white space in a stored message is the plain space, and no two of them are adjacent.
-- The flag says that the character before was one.
abbrev pub IsOneLine : Bool → List ℕ → Type 0
IsOneLine after_space [] = Unit
IsOneLine after_space (c ∷ cs) =
    ((is_space c ≡ true) → (c ≡ 32) × (after_space ≡ false)) × IsOneLine (is_space c) cs

space_is_space : is_space 32 ≡ true
unfolding is_space
space_is_space = refl

ellipsis_not_space : is_space 8230 ≡ false
unfolding is_space
ellipsis_not_space = refl

-- A text that may follow a space may follow any character.
IsOneLine-after : (b : Bool) (cs : List ℕ) → IsOneLine true cs → IsOneLine b cs
IsOneLine-after b [] h = tt
IsOneLine-after b (c ∷ cs) h = (λ e. absurd_flag (h.0 e), h.1)
  where
    absurd_flag : (c ≡ 32) × (true ≡ false) → (c ≡ 32) × (b ≡ false)
    absurd_flag f = cc f.1

collapse-IsOneLine : (b : Bool) (cs : List ℕ) → IsOneLine b (collapse b cs)
unfolding collapse
collapse-IsOneLine b [] = tt
collapse-IsOneLine true (c ∷ cs) = elim (Bool-cases (is_space c)) [
  | inl e ↦ rw e (collapse-IsOneLine true cs)
  | inr e ↦ rw e ((λ f. cc), rw e (collapse-IsOneLine false cs))
]
collapse-IsOneLine false (c ∷ cs) = elim (Bool-cases (is_space c)) [
  | inl e ↦ rw e ((λ f. (refl, refl)), rw space_is_space (collapse-IsOneLine true cs))
  | inr e ↦ rw e ((λ f. cc), rw e (collapse-IsOneLine false cs))
]

lstrip-IsOneLine : (b : Bool) (cs : List ℕ) → IsOneLine b cs → IsOneLine true (lstrip cs)
unfolding lstrip
lstrip-IsOneLine b [] h = tt
lstrip-IsOneLine b (c ∷ cs) h = elim (Bool-cases (is_space c)) [
  | inl e ↦ rw e (lstrip-IsOneLine (is_space c) cs h.1)
  | inr e ↦ rw e ((λ f. cc), h.1)
]

trim_end-IsOneLine :
    (b : Bool) (c : ℕ) (cs : List ℕ) → IsOneLine b (c ∷ cs) → IsOneLine b (trim_end c cs)
unfolding trim_end
trim_end-IsOneLine b c [] h = elim (Bool-cases (is_space c)) [ inl e ↦ rw e tt | inr e ↦ rw e h ]
trim_end-IsOneLine b c (d ∷ ds) h = h

rstrip-IsOneLine : (b : Bool) (cs : List ℕ) → IsOneLine b cs → IsOneLine b (rstrip cs)
unfolding rstrip
rstrip-IsOneLine b [] h = tt
rstrip-IsOneLine b (c ∷ cs) h =
    trim_end-IsOneLine b c (rstrip cs) (h.0, rstrip-IsOneLine (is_space c) cs h.1)

cut-IsOneLine :
    (n : ℕ) (b : Bool) (cs : List ℕ) → IsOneLine b cs → IsOneLine b (take n cs ++ 8230 ∷ [])
cut-IsOneLine zero b cs h = ((λ e. cc ellipsis_not_space), tt)
cut-IsOneLine (suc n) b [] h = ((λ e. cc ellipsis_not_space), tt)
cut-IsOneLine (suc n) b (c ∷ cs) h = (h.0, cut-IsOneLine n (is_space c) cs h.1)

length-cut-le : (n : ℕ) (cs : List ℕ) → length (take n cs ++ 8230 ∷ []) ≤ n + 1
length-cut-le n cs = omega (arith, length-append (take n cs) (8230 ∷ []), length-take-le n cs)

-- Every stored message is one line of at most 500 characters: no white space but single plain
-- spaces, and none at its start.
pub sanitize_error_message-IsOneLine :
    (message : List ℕ)
    → IsOneLine true (sanitize_error_message message)
      × (length (sanitize_error_message message) ≤ max_last_error_length)
unfolding sanitize_error_message
sanitize_error_message-IsOneLine message =
    let text = rstrip (lstrip (collapse false message)) in
    let one_line =
      rstrip-IsOneLine true _ (lstrip-IsOneLine false _ (collapse-IsOneLine false message)) in
    elim (Bool-cases (ltb max_last_error_length (length text))) [
      | inl e ↦ rw e (cut-IsOneLine 499 true text one_line, length-cut-le 499 text)
      | inr e ↦ rw e (one_line, ltb-false→le _ _ e)
    ]
