-- ===== src/Web/Badges.antt =====
-- ui/pages/hosts_page/model/host_metrics.go. A `float64` is its 64 bits, and the operations on it
-- are an instance argument.
pub mod Units
use hosthalla.Base.{
  ℕ, zero, suc, ◌+◌, ◌*◌, ◌/◌, ◌%◌, ◌^◌, ◌≡◌, Bool, true, false, List, [], ◌∷◌, ◌++◌, Option, none,
  some, String, if◌then◌else◌, ltb, leb, ◌==◌, nat_eq, Error, failed, Result, ok, err,
}
use hosthalla.Text.{Text, codes}
use hosthalla.Text.Decimal.{itoa}
use hosthalla.Model.{Metric, SystemInfo}

-- `float64`: conversion, division, product, order, `math.IsNaN`, `math.IsInf`, `math.Max`, `math.Min`
-- and `%.1f`. The order is that of IEEE 754, in which nothing is on both sides of a number.
pub record Float64 : Type 0 where
  pub of_nat : ℕ → ℕ
  pub divide : ℕ → ℕ → ℕ
  pub times : ℕ → ℕ → ℕ
  pub less : ℕ → ℕ → Bool
  pub at_least : ℕ → ℕ → Bool
  pub is_nan : ℕ → Bool
  pub is_inf : ℕ → Bool
  pub max : ℕ → ℕ → ℕ
  pub min : ℕ → ℕ → ℕ
  pub print : ℕ → Text
  pub less_asym : (a b : ℕ) → less a b ≡ true → less b a ≡ false

-- `HostLatestMetricsBadges`
pub record Badges : Type 0 where
  pub cpu : Text
  pub cpu_usage_percentage : ℕ
  pub memory_used : Text
  pub memory_total : Text
  pub memory_usage_bytes : ℕ
  pub memory_total_bytes : ℕ
  pub disk : Text
  pub disk_usage_bytes : ℕ
  pub disk_total_bytes : ℕ
  pub memory_usage_percentage : ℕ
  pub disk_usage_percentage : ℕ

-- The loop of `formatBytes` over `n`, `div` and `exp`; a product wraps at 64 bits.
unfoldable pub scale : ℕ → ℕ → ℕ → ℕ → ℕ × ℕ
scale zero n div exp = (div, exp)
scale (suc fuel) n div exp =
    let rest = scale fuel (n / 1024) (div * 1024 % 2 ^ 64) (exp + 1) in
    if leb 1024 n then rest else (div, exp)

-- An `uint64` is divided down below 1024 in less than 7 rounds.
abbrev pub scale_fuel : ℕ
scale_fuel = 7

abbrev pub suffixes : List Text
suffixes = codes "KB" ∷ codes "MB" ∷ codes "GB" ∷ codes "TB" ∷ codes "PB" ∷ codes "EB" ∷ []

-- An index into an array: out of bounds it panics.
abbrev pub index : {A : Type 0} → List A → ℕ → Result A
index [] n = err (failed "index out of range")
index (x ∷ xs) zero = ok x
index (x ∷ xs) (suc n) = index xs n

module _ ⦃f : Float64⦄ where
  abbrev with_suffix : ℕ → ℕ → Result Text → Result Text
  with_suffix bytes div (err e) = err e
  with_suffix bytes div (ok suffix) =
      ok (f.print (f.divide (f.of_nat bytes) (f.of_nat div)) ++ b' ' ∷ suffix)

  unfoldable pub format_bytes : ℕ → Result Text
  format_bytes bytes =
      let (div, exp) = scale scale_fuel (bytes / 1024) 1024 0 in
      if ltb bytes 1024
      then ok (itoa bytes ++ codes " B")
      else with_suffix bytes div (index suffixes exp)

  unfoldable pub percentage : ℕ → ℕ → ℕ
  percentage used total =
      if total == 0
      then f.of_nat 0
      else f.times (f.divide (f.of_nat used) (f.of_nat total)) (f.of_nat 100)

  abbrev pub text_or_empty : Result Text → Text
  text_or_empty (ok t) = t
  text_or_empty (err e) = []

  abbrev pub total_memory : Option SystemInfo → ℕ
  total_memory none = 0
  total_memory (some info) = info.total_memory_bytes

  abbrev pub total_disk : Option SystemInfo → ℕ
  total_disk none = 0
  total_disk (some info) = info.total_disk_bytes

  -- No call of `formatBytes` panics, which is why its result can be taken as a text.
  unfoldable pub build_host_latest_metrics_badges : Metric → Option SystemInfo → Badges
  build_host_latest_metrics_badges metric info = record {
    cpu = f.print metric.cpu_usage_percentage ++ codes "%";
    cpu_usage_percentage = metric.cpu_usage_percentage;
    memory_used = text_or_empty (format_bytes metric.memory_usage_bytes);
    memory_total =
        if total_memory info == 0 then [] else text_or_empty (format_bytes (total_memory info));
    memory_usage_bytes = metric.memory_usage_bytes;
    memory_total_bytes = total_memory info;
    disk = text_or_empty (format_bytes metric.disk_usage_bytes);
    disk_usage_bytes = metric.disk_usage_bytes;
    disk_total_bytes = total_disk info;
    memory_usage_percentage = percentage metric.memory_usage_bytes (total_memory info);
    disk_usage_percentage = percentage metric.disk_usage_bytes (total_disk info);
  }
