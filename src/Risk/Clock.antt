-- ===== src/Risk/Clock.antt =====
-- `_parse_t` of core/risk/guardrails.py: the "HH:MM" settings, as microseconds since midnight.
use Prim.Native.Char.{code}
use pypoc.Prelude.{
  ℕ, ◌+◌, ◌-◌, ◌*◌, ◌%◌, ◌<◌, ◌≡◌, refl, String, Bool, false, ◌&&◌, ◌||◌, Option, none, some, List,
  [], ◌∷◌, arith, leb, ltb, nat_beq, if◌then◌else◌,
}
use pypoc.Prelude.Int.{ℤ, pos, ◌-ℤ◌}
use pypoc.Prelude.Result.{Result, ok, raises, value_error}
use pypoc.Types.{DateTime, microseconds_per_minute, microseconds_per_day}

abbrev pub codes : String → List ℕ
codes String.[] = []
codes (String.◌∷◌ c s) = code c ∷ codes s

-- `now.time()`
abbrev pub time_of_day : DateTime → ℕ
time_of_day now = now % microseconds_per_day

-- `s.split(sep)`: the part before the first separator, and the parts after it.
split_parts : ℕ → List ℕ → List ℕ × List (List ℕ)
split_parts sep [] = ([], [])
split_parts sep (c ∷ s) =
    let (part, parts) = split_parts sep s in
    if nat_beq c sep then ([], part ∷ parts) else (c ∷ part, parts)

is_digit : ℕ → Bool
is_digit c = leb b'0' c && leb c b'9'

is_space : ℕ → Bool
is_space c = (leb 9 c && leb c 13) || (leb 28 c && leb c 32)

-- `int(text)`: the digits, where single underscores may stand between two of them.
digits : Bool → ℕ → List ℕ → Option ℕ
unfolding is_digit
digits after n [] = if after then some n else none
digits after n (c ∷ s) =
    let rest = digits (is_digit c) (if is_digit c then n * 10 + (c - b'0') else n) s in
    if is_digit c || (after && nat_beq c b'_') then rest else none

strip_left : List ℕ → List ℕ
unfolding is_space
strip_left [] = []
strip_left (c ∷ s) = if is_space c then strip_left s else c ∷ s

strip_right : List ℕ → List ℕ
unfolding is_space
strip_right [] = []
strip_right (c ∷ s) = elim (strip_right s) [
  | [] ↦ if is_space c then [] else c ∷ []
  | d ∷ t ↦ c ∷ d ∷ t
]

signed : List ℕ → Option ℤ
unfolding digits
signed [] = none
signed (c ∷ s) =
    if nat_beq c b'-'
    then elim (digits false 0 s) [ none ↦ none | some n ↦ some (pos 0 -ℤ pos n) ]
    else elim (digits false 0 (if nat_beq c b'+' then s else c ∷ s)) [
      | none ↦ none
      | some n ↦ some (pos n)
    ]

unfoldable pub parse_int : List ℕ → Option ℤ
unfolding signed strip_left strip_right ◌-ℤ◌
parse_int s = signed (strip_left (strip_right s))

-- `time(hour=h, minute=m)` refuses a number out of range.
make_time : Option ℤ → Option ℤ → Result ℕ
make_time (some (pos h)) (some (pos m)) =
    if ltb h 24 && ltb m 60 then ok ((h * 60 + m) * microseconds_per_minute) else raises value_error
make_time _ _ = raises value_error

two_parts : List ℕ → List (List ℕ) → Result ℕ
unfolding make_time parse_int
two_parts h (m ∷ []) = make_time (parse_int h) (parse_int m)
two_parts h _ = raises value_error

unfoldable pub parse_time : String → Result ℕ
unfolding split_parts two_parts
parse_time s = let (h, rest) = split_parts b':' (codes s) in two_parts h rest

make_time-bound : (h m : Option ℤ) {t : ℕ} → make_time h m ≡ ok t → t < microseconds_per_day
unfolding make_time
make_time-bound (some (pos h)) (some (pos m)) e = ground arith
make_time-bound _ _ e = ground arith

two_parts-bound :
    (h : List ℕ) (r : List (List ℕ)) {t : ℕ} → two_parts h r ≡ ok t → t < microseconds_per_day
unfolding two_parts
two_parts-bound h (m ∷ []) e = make_time-bound (parse_int h) (parse_int m) e
two_parts-bound h _ e = cc

-- A setting that is accepted is a time of day.
pub parse_time-bound : (s : String) {t : ℕ} → parse_time s ≡ ok t → t < microseconds_per_day
unfolding parse_time
parse_time-bound s e = let (h, rest) = split_parts b':' (codes s) in two_parts-bound h rest e

parse_opening : parse_time "09:15" ≡ ok 33_300_000_000
unfolding parse_time
parse_opening = refl

parse_spaced : parse_time " 9: 1_5" ≡ ok 33_300_000_000
unfolding parse_time
parse_spaced = refl

parse_out_of_range : parse_time "24:00" ≡ raises value_error
unfolding parse_time
parse_out_of_range = refl
