-- ===== src/Panel/RateLimiter/Limit.antt =====
-- The limit over any interleaving of requests.
use mathlib.Core.List.{append_assoc}
use mathlib.Core.Path.{subst}
use scalp_tn_aaa.Base.{
  ℕ, ◌≤◌, ◌<◌, ◌≡◌, refl, true, false, ◌&&◌, List, [], ◌∷◌, ◌++◌, length, arith, length-append,
  if◌then◌else◌, ◌==◌, All-append, ◌⊎◌, inl, inr, ap, ◌∙◌, Bool-cases, sym, ==_iff,
}
use scalp_tn_aaa.Float.{Float, IsOrdered, IsMonotone, ◌≼◌, lt_of_lt_of_le}
use scalp_tn_aaa.Panel.RateLimiter.{RateLimiter, check, admit, evict, bucket_of, is_exempt}
use scalp_tn_aaa.Panel.RateLimiter.Window.{
  bucket_of-admit, length-evict, evicted, evicted-append-evict, AllBefore, count_since,
  count_since-le, count_since-append,
}

module _ {F : Type 0} ⦃fl : Float F⦄ where
  -- The requests of all users, in the order of their times, with the times at which those of one
  -- user were let pass.
  pub data Runs (id : ℕ) (r : RateLimiter F) : RateLimiter F → F → List F → Type 0 where
    start : (t : F) → fl.is_finite t ≡ true → Runs id r r t []
    request :
        {s : RateLimiter F} {t : F} {passed : List F} (now : F) (who : ℕ)
        → Runs id r s t passed
        → t ≼ now
        → fl.is_finite now ≡ true
        → Runs id r
            (check now who s).1
            now
            (if who == id && (check now who s).0 then passed ++ (now ∷ []) else passed)

  record IsWindow (id : ℕ) (r s : RateLimiter F) (t : F) (passed : List F) : Type 0 where
    finite : fl.is_finite t ≡ true
    max : s.max ≡ r.max
    window : s.window ≡ r.window
    exempt : s.exempt ≡ r.exempt
    old : List F
    split : passed ≡ old ++ bucket_of id s
    before : AllBefore (fl.sub t r.window) old
    bounded : length (bucket_of id s) ≤ r.max

  check-keeps :
      (now : F) (who : ℕ) (s : RateLimiter F)
      → let s' = (check now who s).1 in
        (s'.max ≡ s.max) × (s'.window ≡ s.window) × (s'.exempt ≡ s.exempt)
  unfolding check admit
  check-keeps now who s = ground arith

  check-other :
      (now : F) (who id : ℕ) (s : RateLimiter F)
      → (who == id) ≡ false
      → bucket_of id (check now who s).1 ≡ bucket_of id s
  unfolding check
  check-other now who id s h =
      ground (arith, bucket_of-admit now who id (evict (fl.sub now s.window) (bucket_of who s)) s)

  admit-length :
      (now : F) (id : ℕ) (b : List F) (s : RateLimiter F)
      → (admit now id b s).0 ≡ true
      → length b < s.max
  unfolding admit
  admit-length now id b s h = ground arith

  -- A full bucket is only evicted, and any other takes the request too.
  check_self_cases :
      (now : F) (id : ℕ) (s : RateLimiter F)
      → is_exempt id s.exempt ≡ false
      → let b = evict (fl.sub now s.window) (bucket_of id s) in
        (((check now id s).0 ≡ true)
          × (bucket_of id (check now id s).1 ≡ b ++ (now ∷ []))
          × (length b < s.max))
        ⊎ (((check now id s).0 ≡ false) × (bucket_of id (check now id s).1 ≡ b))
  unfolding check
  check_self_cases now id s h =
      let b = evict (fl.sub now s.window) (bucket_of id s) in
      ground (arith, bucket_of-admit now id id b s, admit-length now id b s)

  module _ (laws : IsOrdered F) (mono : IsMonotone F) where
    AllBefore-mono : (c d : F) (ts : List F) → c ≼ d → AllBefore c ts → AllBefore d ts
    AllBefore-mono c d [] le h = tt
    AllBefore-mono c d (t ∷ ts) le h =
        (lt_of_lt_of_le laws t c d h.0 le, AllBefore-mono c d ts le h.1)

    cutoff_mono :
        (t now w : F)
        → t ≼ now
        → fl.is_finite t ≡ true
        → fl.is_finite now ≡ true
        → fl.is_finite w ≡ true
        → fl.sub t w ≼ fl.sub now w
    cutoff_mono t now w le ft fnow fw =
        mono.sub_mono t now w le (mono.sub_number t w ft fw) (mono.sub_number now w fnow fw)

    module _ (id : ℕ) (r : RateLimiter F) (fw : fl.is_finite r.window ≡ true)
        (limited : is_exempt id r.exempt ≡ false) where
      other-IsWindow :
          (s : RateLimiter F) (t : F) (passed : List F) (now : F) (who : ℕ)
          → IsWindow id r s t passed
          → t ≼ now
          → fl.is_finite now ≡ true
          → (who == id) ≡ false
          → IsWindow id r (check now who s).1 now passed
      other-IsWindow s t passed now who v le fnow ne =
          let (a, b, c) = check-keeps now who s in
          let same = check-other now who id s ne in
          record {
            finite = fnow;
            max = a ∙ v.max;
            window = b ∙ v.window;
            exempt = c ∙ v.exempt;
            old = v.old;
            split = v.split ∙ ap (λ k. v.old ++ k) (sym same);
            before =
                AllBefore-mono _ _ v.old (cutoff_mono t now r.window le v.finite fnow fw) v.before;
            bounded = rw same v.bounded;
          }

      self-IsWindow :
          (s : RateLimiter F) (t : F) (passed : List F) (now : F)
          → IsWindow id r s t passed
          → t ≼ now
          → fl.is_finite now ≡ true
          → IsWindow id r
              (check now id s).1
              now
              (if (check now id s).0 then passed ++ (now ∷ []) else passed)
      self-IsWindow s t passed now v le fnow =
          let b0 = bucket_of id s in
          let cutoff = fl.sub now s.window in
          let (join, early) = evicted-append-evict cutoff b0 in
          let (m, w, e) = check-keeps now id s in
          let kept : AllBefore (fl.sub now r.window) v.old =
            AllBefore-mono _ _ v.old (cutoff_mono t now r.window le v.finite fnow fw) v.before in
          let old =
            All-append {0, 0} (λ u. fl.lt u (fl.sub now r.window) ≡ true) v.old (evicted cutoff b0)
              kept (subst (λ u. AllBefore (fl.sub now u) (evicted cutoff b0)) v.window early) in
          let whole : passed ≡ v.old ++ (evicted cutoff b0 ++ evict cutoff b0) =
            v.split ∙ ap (λ k. v.old ++ k) (sym join) in
          elim (check_self_cases now id s (ap (is_exempt id) v.exempt ∙ limited)) [
            | inl (passes, bucket, room) ↦ rw passes record {
              finite = fnow;
              max = m ∙ v.max;
              window = w ∙ v.window;
              exempt = e ∙ v.exempt;
              old = v.old ++ evicted cutoff b0;
              split = ap (λ k. k ++ (now ∷ [])) whole ∙ rw bucket (simp append_assoc);
              before = old;
              bounded = omega (
                arith,
                ap (length {0}) bucket,
                length-append {0} (evict cutoff b0) (now ∷ []),
                v.max,
              );
            }
            | inr (refused, bucket) ↦ rw refused record {
              finite = fnow;
              max = m ∙ v.max;
              window = w ∙ v.window;
              exempt = e ∙ v.exempt;
              old = v.old ++ evicted cutoff b0;
              split = whole ∙ rw bucket (simp append_assoc);
              before = old;
              bounded = omega (arith, ap (length {0}) bucket, length-evict cutoff b0, v.bounded);
            }
          ]

      request-IsWindow :
          (s : RateLimiter F) (t : F) (passed : List F) (now : F) (who : ℕ)
          → IsWindow id r s t passed
          → t ≼ now
          → fl.is_finite now ≡ true
          → IsWindow id r
              (check now who s).1
              now
              (if who == id && (check now who s).0 then passed ++ (now ∷ []) else passed)
      request-IsWindow s t passed now who v le fnow = elim (Bool-cases (who == id)) [
        | inl same ↦
            subst
              (λ k.
                IsWindow id r (check now k s).1 now
                  (if k == id && (check now k s).0 then passed ++ (now ∷ []) else passed))
              (sym ((==_iff who id).0 same))
              (rw ((==_iff id id).1 refl) (self-IsWindow s t passed now v le fnow))
        | inr other ↦ rw other (other-IsWindow s t passed now who v le fnow other)
      ]

      Runs-IsWindow :
          bucket_of id r ≡ []
          → {s : RateLimiter F} {t : F} {passed : List F} → Runs id r s t passed
          → IsWindow id r s t passed
      Runs-IsWindow empty (start t ft) = record {
        finite = ft;
        max = refl;
        window = refl;
        exempt = refl;
        old = [];
        split = sym empty;
        before = tt;
        bounded = omega (arith, ap (length {0}) empty);
      }
      Runs-IsWindow empty (request {s} {t} {passed} now who runs le fnow) =
          request-IsWindow s t passed now who (Runs-IsWindow empty runs) le fnow

      -- Of a user that is not exempt, no window that ends at a request holds more than the limit
      -- of requests that were let pass. This is so for every interleaving with other users'
      -- requests, as long as the clock does not run backwards and the window is finite, from an
      -- empty bucket on.
      pub window_limit :
          bucket_of id r ≡ []
          → {s : RateLimiter F} {t : F} {passed : List F} → Runs id r s t passed
          → count_since (fl.sub t r.window) passed ≤ r.max
      window_limit empty {s} {t} runs =
          let v = Runs-IsWindow empty runs in
          omega (
            arith,
            ap (count_since (fl.sub t r.window)) v.split,
            count_since-append (fl.sub t r.window) v.old (bucket_of id s) v.before,
            count_since-le (fl.sub t r.window) (bucket_of id s),
            v.bounded,
          )
