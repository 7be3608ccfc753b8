-- ===== src/Examples/Series.antt =====
-- A small stand-in for pandas on decimals: windows over a list, and a sentinel for NaN. The rolling
-- deviation is the spread of the window, and an exponential mean is the series itself.
use pypoc.Prelude.{
  ℕ, List, [], ◌∷◌, length, take, ltb, if◌then◌else◌, foldl, Bool, suc, drop_last, zip_with, map,
  keep, not,
}
use pypoc.Prelude.Int.{pos, negsuc, ◌+ℤ◌, ◌-ℤ◌, leb_ℤ, min_ℤ, max_ℤ}
use pypoc.Numbers.{Micro, micro_float, floor_quotient, is_zero_ℤ}
use pypoc.Strategies.Frame.{Pandas}

abbrev nan : Micro
nan = negsuc 999_999_999_999_999

abbrev is_nan : Micro → Bool
is_nan x = leb_ℤ x nan

abbrev largest : List Micro → Micro
largest [] = nan
largest (x ∷ xs) = foldl max_ℤ x xs

abbrev smallest : List Micro → Micro
smallest [] = nan
smallest (x ∷ xs) = foldl min_ℤ x xs

abbrev average : List Micro → Micro
average [] = nan
average (x ∷ xs) = floor_quotient (foldl ◌+ℤ◌ x xs) (pos (suc (length xs)))

abbrev windows : (List Micro → Micro) → ℕ → List Micro → List Micro → List Micro
windows agg n seen [] = []
windows agg n seen (x ∷ xs) =
    let window = take n (x ∷ seen) in
    (if ltb (length window) n then nan else agg window) ∷ windows agg n (x ∷ seen) xs

abbrev sums_from : Micro → List Micro → List Micro
sums_from acc [] = []
sums_from acc (x ∷ xs) = (acc +ℤ x) ∷ sums_from (acc +ℤ x) xs

abbrev shifted : List Micro → List Micro
shifted s = drop_last (nan ∷ s)

instance abbrev pub micro_pandas : Pandas Micro
micro_pandas = record {
  na = nan;
  is_na = is_nan;
  rolling_mean = λ n s. windows average n [] s;
  rolling_std = λ n s. windows (λ w. largest w -ℤ smallest w) n [] s;
  rolling_max = λ n s. windows largest n [] s;
  rolling_min = λ n s. windows smallest n [] s;
  ewm_span = λ n s. s;
  ewm_alpha = λ n s. s;
  maximum = largest;
  minimum = smallest;
  mean = average;
  cumsum = λ s. sums_from (pos 0) s;
  shift = shifted;
  diff = λ s. zip_with ◌-ℤ◌ s (shifted s);
  zeros_na = map λ x. if is_zero_ℤ x then nan else x;
  drop_na = keep λ x. not (is_nan x);
}
