-- ===== src/Panel/RateLimiter.antt =====
-- telegram_panel/api/middleware/rate_limiter.py. The event loop's time, a float, is an argument.
pub mod Window
pub mod Limit
use scalp_tn_aaa.Base.{
  ℕ, zero, suc, ◌+◌, Bool, true, false, not, ◌||◌, Option, none, some, List, [], ◌∷◌, ◌++◌, any,
  if◌then◌else◌, leb, ◌==◌, length,
}
use scalp_tn_aaa.Base.Maps.{lookup, insert, erase}
use scalp_tn_aaa.Float.{Float}

pub record RateLimiter (F : Type 0) : Type 0 where
  pub max : ℕ
  pub window : F
  pub exempt : List ℕ
  pub buckets : List (ℕ × List F)
  pub warnings : List (ℕ × ℕ)

abbrev pub is_exempt : ℕ → List ℕ → Bool
is_exempt id ids = any (λ i. id == i) ids

-- `d.get(k, default)`
abbrev pub get_or {ℓ} : {V : Type ℓ} → Option V → V → V
get_or none d = d
get_or (some v) d = v

module _ {F : Type 0} where
  abbrev pub bucket_of : ℕ → RateLimiter F → List F
  bucket_of id r = get_or (lookup id r.buckets) []

  unfoldable pub reset : ℕ → RateLimiter F → RateLimiter F
  reset id r = record r { buckets = erase id r.buckets; warnings = erase id r.warnings }

module _ {F : Type 0} ⦃fl : Float F⦄ where
  -- `while bucket and bucket[0] < cutoff: bucket.popleft()`
  unfoldable pub evict : F → List F → List F
  evict cutoff [] = []
  evict cutoff (t ∷ ts) = if fl.lt t cutoff then evict cutoff ts else t ∷ ts

  -- The answer on the evicted bucket.
  unfoldable pub admit : F → ℕ → List F → RateLimiter F → Bool × RateLimiter F
  admit now id bucket r =
      if leb r.max (length bucket)
      then (
        false,
        record r {
          buckets = insert id bucket r.buckets;
          warnings = insert id (get_or (lookup id r.warnings) 0 + 1) r.warnings;
        },
      )
      else (true, record r { buckets = insert id (bucket ++ (now ∷ [])) r.buckets })

  unfoldable pub check : F → ℕ → RateLimiter F → Bool × RateLimiter F
  check now id r =
      if is_exempt id r.exempt
      then (true, r)
      else admit now id (evict (fl.sub now r.window) (bucket_of id r)) r

  -- `not bucket or bucket[-1] < cutoff`
  abbrev pub is_stale : F → List F → Bool
  is_stale cutoff [] = true
  is_stale cutoff (t ∷ []) = fl.lt t cutoff
  is_stale cutoff (t ∷ u ∷ ts) = is_stale cutoff (u ∷ ts)

  abbrev pub stale_ids : F → List (ℕ × List F) → List ℕ
  stale_ids cutoff [] = []
  stale_ids cutoff (e ∷ es) =
      if is_stale cutoff e.1 then e.0 ∷ stale_ids cutoff es else stale_ids cutoff es

  abbrev pub purge_ids : List ℕ → RateLimiter F → RateLimiter F
  purge_ids [] r = r
  purge_ids (id ∷ ids) r =
      purge_ids ids (record r { buckets = erase id r.buckets; warnings = erase id r.warnings })

  unfoldable pub purge_stale : F → RateLimiter F → ℕ × RateLimiter F
  purge_stale now r =
      let stale = stale_ids (fl.sub now (fl.mul r.window (fl.lit 2 1))) r.buckets in
      (length stale, purge_ids stale r)
