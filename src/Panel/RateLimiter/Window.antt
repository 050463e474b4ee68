-- ===== src/Panel/RateLimiter/Window.antt =====
-- The sliding window of each user.
use scalp_tn_aaa.Base.{
  ℕ, suc, ◌≤◌, ◌≡◌, refl, true, false, List, [], ◌∷◌, ◌++◌, length, arith, All, if◌then◌else◌, ◌==◌,
  ◌↔◌,
}
use scalp_tn_aaa.Base.Maps.{lookup-insert}
use scalp_tn_aaa.Float.{Float}
use scalp_tn_aaa.Panel.RateLimiter.{RateLimiter, check, admit, evict, bucket_of, is_exempt}

module _ {F : Type 0} ⦃fl : Float F⦄ where
  pub length-evict : (cutoff : F) (ts : List F) → length (evict cutoff ts) ≤ length ts
  unfolding evict
  length-evict cutoff [] = omega arith
  length-evict cutoff (t ∷ ts) = ground (arith, length-evict cutoff ts)

  pub bucket_of-admit :
      (now : F) (id other : ℕ) (b : List F) (r : RateLimiter F)
      → bucket_of other (admit now id b r).1 ≡ (
          if other == id
          then (if (admit now id b r).0 then b ++ (now ∷ []) else b)
          else bucket_of other r)
  unfolding admit
  bucket_of-admit now id other b r = ground (
    arith,
    lookup-insert other id b r.buckets,
    lookup-insert other id (b ++ (now ∷ [])) r.buckets,
  )

  -- A request that is checked is answered `false` exactly if its user is not exempt and the user's
  -- bucket, once the requests from before the window are gone, is full.
  pub check_refused_iff :
      (now : F) (id : ℕ) (r : RateLimiter F)
      → ((check now id r).0 ≡ false) ↔ (
          (is_exempt id r.exempt ≡ false)
          × (r.max ≤ length (evict (fl.sub now r.window) (bucket_of id r))))
  unfolding check admit
  check_refused_iff now id r = ground arith

  -- What `evict` takes away lies before the cutoff.
  pub evicted : F → List F → List F
  evicted cutoff [] = []
  evicted cutoff (t ∷ ts) = if fl.lt t cutoff then t ∷ evicted cutoff ts else []

  abbrev pub AllBefore : F → List F → Type 0
  AllBefore cutoff = All λ t. fl.lt t cutoff ≡ true

  pub evicted-append-evict :
      (cutoff : F) (ts : List F)
      → (evicted cutoff ts ++ evict cutoff ts ≡ ts) × AllBefore cutoff (evicted cutoff ts)
  unfolding evicted evict
  evicted-append-evict cutoff [] = (refl, tt)
  evicted-append-evict cutoff (t ∷ ts) = ground (arith, evicted-append-evict cutoff ts)

  -- How many of the times are not before the cutoff.
  abbrev pub count_since : F → List F → ℕ
  count_since cutoff [] = 0
  count_since cutoff (t ∷ ts) =
      if fl.lt t cutoff then count_since cutoff ts else suc (count_since cutoff ts)

  pub count_since-le : (cutoff : F) (ts : List F) → count_since cutoff ts ≤ length ts
  count_since-le cutoff [] = omega arith
  count_since-le cutoff (t ∷ ts) = ground (arith, count_since-le cutoff ts)

  pub count_since-append :
      (cutoff : F) (old ts : List F)
      → AllBefore cutoff old
      → count_since cutoff (old ++ ts) ≡ count_since cutoff ts
  count_since-append cutoff [] ts h = refl
  count_since-append cutoff (t ∷ old) ts h = ground (arith, count_since-append cutoff old ts h.1)
