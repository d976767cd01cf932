-- ===== src/Slots/Keys.antt =====
-- src/notifications/delivery_slots.py: slots of the day and the keys of the index.
use Prim.Native.Char.{code}
use yobi_analytics.Prelude.{
  ℕ, String, zero, suc, ◌*◌, ◌/◌, ◌%◌, Bool, true, false, not, ◌||◌, Option, none, some, List, [],
  ◌∷◌, ltb, ◌==◌, str_eq, if◌then◌else◌,
}
use Prim.Native.String.{◌++◌ as join}

abbrev pub slot_minutes : ℕ
slot_minutes = 30

abbrev pub slots_per_day : ℕ
slots_per_day = 24 * 60 / slot_minutes

abbrev pub max_slots_per_client : ℕ
max_slots_per_client = 4

abbrev pub zones_partition : String
zones_partition = "zones"

abbrev digits : List String
digits = "0" ∷ "1" ∷ "2" ∷ "3" ∷ "4" ∷ "5" ∷ "6" ∷ "7" ∷ "8" ∷ "9" ∷ []

abbrev nth : ℕ → List String → String
nth n [] = ""
nth zero (x ∷ xs) = x
nth (suc n) (x ∷ xs) = nth n xs

-- `f"{n:02d}"` below 100
unfoldable pub two_digits : ℕ → String
two_digits n = join (nth (n / 10) digits) (nth (n % 10) digits)

-- `"|" in text`
unfoldable pub has_bar : String → Bool
has_bar String.[] = false
has_bar (String.◌∷◌ c s) = let rest = has_bar s in if code c == 124 then true else rest

-- `none` where a ValueError is raised.
unfoldable pub zone_slot_key : String → ℕ → Option String
unfolding two_digits has_bar
zone_slot_key zone slot =
    if not (ltb slot slots_per_day)
    then none
    else if str_eq zone "" || has_bar zone || str_eq zone zones_partition
    then none
    else some (join zone (join "|" (two_digits slot)))
