-- ===== src/Panel/Auth/Roles.antt =====
-- The users that the middleware hands out, from its table and from its cache.
use mathlib.Core.Path.{subst}
use scalp_tn_aaa.Base.{
  ℕ, ◌≡◌, ◌≢◌, ◌⊎◌, refl, false, Option, none, some, List, arith, ◌==◌, ==_iff, Bool-cases,
  Option-cases, inl, inr, sym, ◌∙◌,
}
use scalp_tn_aaa.Base.Maps.{lookup, insert, erase, lookup-insert, lookup-erase}
use scalp_tn_aaa.Float.{Float}
use scalp_tn_aaa.Panel.Users.{owner, User, for_role}
use scalp_tn_aaa.Panel.Auth.{
  Auth, TgUser, get_user, finish_user, load_user, is_fresh, set_role, upsert, needs_promotion,
  promoted, cached_user,
}

-- The permissions are those of the role, and the owner's role is OWNER.
pub record IsCoherentUser (owner_id id : ℕ) (u : User) : Type 0 where
  pub permissions : u.permissions ≡ for_role u.role
  pub owner_role : (id ≢ owner_id) ⊎ (u.role ≡ owner)

abbrev pub IsCoherentEntry {ℓ} : {F : Type ℓ} → ℕ → ℕ → Option (User × F) → Type 0
IsCoherentEntry owner_id id none = Unit
IsCoherentEntry owner_id id (some (u, at)) = IsCoherentUser owner_id id u

abbrev pub IsCoherentOption : ℕ → ℕ → Option User → Type 0
IsCoherentOption owner_id id none = Unit
IsCoherentOption owner_id id (some u) = IsCoherentUser owner_id id u

-- The user that `load_user` gives has the permissions of its role.
abbrev IsLoaded : Option User → Type 0
IsLoaded none = Unit
IsLoaded (some u) = u.permissions ≡ for_role u.role

module _ {F : Type 0} where
  -- Every cached user is coherent.
  abbrev pub IsCoherent : Auth F → Type 0
  IsCoherent a = (id : ℕ) → IsCoherentEntry a.owner_id id (lookup id a.cache)

  load_user-IsLoaded :
      (id : ℕ) (tg : Option TgUser) (a : Auth F)
      → let (u, a') = load_user id tg a in
        IsLoaded u × (a'.owner_id ≡ a.owner_id) × (a'.cache ≡ a.cache)
  unfolding load_user upsert
  load_user-IsLoaded id none a = elim (Option-cases (lookup id a.rows)) [
    | inl e ↦ rw (e, load_user) (tt, refl, refl)
    | inr (r, e) ↦ rw (e, load_user) (refl, refl, refl)
  ]
  load_user-IsLoaded id (some t) a = elim (Option-cases (lookup id a.rows)) [
    | inl e ↦ rw (e, load_user) (refl, refl, refl)
    | inr (r, e) ↦ rw (e, load_user) (refl, refl, refl)
  ]

  insert-IsCoherentEntry :
      (owner_id id : ℕ) (u : User) (now : F) (cache : List (ℕ × (User × F)))
      → ((j : ℕ) → IsCoherentEntry owner_id j (lookup j cache))
      → IsCoherentUser owner_id id u
      → (j : ℕ) → IsCoherentEntry owner_id j (lookup j (insert id (u, now) cache))
  insert-IsCoherentEntry owner_id id u now cache h hu j = elim (Bool-cases (j == id)) [
    | inl e ↦
        rw (lookup-insert j id (u, now) cache, e)
          (subst (λ k. IsCoherentUser owner_id k u) (sym ((==_iff j id).0 e)) hu)
    | inr e ↦ rw (lookup-insert j id (u, now) cache, e) (h j)
  ]

  erase-IsCoherentEntry :
      (owner_id id : ℕ) (cache : List (ℕ × (User × F)))
      → ((j : ℕ) → IsCoherentEntry owner_id j (lookup j cache))
      → (j : ℕ) → IsCoherentEntry owner_id j (lookup j (erase id cache))
  erase-IsCoherentEntry owner_id id cache h j = elim (Bool-cases (j == id)) [
    | inl e ↦ rw (lookup-erase j id cache, e) tt
    | inr e ↦ rw (lookup-erase j id cache, e) (h j)
  ]

module _ {F : Type 0} ⦃fl : Float F⦄ where
  owner_of_no_promotion :
      (id : ℕ) (u : User) (a : Auth F)
      → needs_promotion id u a ≡ false
      → (id ≢ a.owner_id) ⊎ (u.role ≡ owner)
  owner_of_no_promotion id u a h = ground arith

  finish_user-IsCoherent :
      (now : F) (id : ℕ) (u : Option User) (a : Auth F)
      → IsLoaded u
      → IsCoherent a
      → let (v, b) = finish_user now id (u, a) in
        IsCoherentOption a.owner_id id v × (b.owner_id ≡ a.owner_id) × IsCoherent b
  unfolding finish_user set_role
  finish_user-IsCoherent now id none a l h = (tt, refl, h)
  finish_user-IsCoherent now id (some u) a l h = elim (Bool-cases (needs_promotion id u a)) [
    | inl e ↦
        let p : IsCoherentUser a.owner_id id (promoted u) = record {
          permissions = refl;
          owner_role = inr refl;
        } in
        rw e (p, refl, insert-IsCoherentEntry a.owner_id id (promoted u) now a.cache h p)
    | inr e ↦
        let p : IsCoherentUser a.owner_id id u = record {
          permissions = l;
          owner_role = owner_of_no_promotion id u a e;
        } in
        rw e (p, refl, insert-IsCoherentEntry a.owner_id id u now a.cache h p)
  ]

  cached-IsCoherent :
      (owner_id id : ℕ) (c : Option (User × F))
      → IsCoherentEntry owner_id id c
      → IsCoherentOption owner_id id (cached_user c)
  cached-IsCoherent owner_id id none h = tt
  cached-IsCoherent owner_id id (some (u, at)) h = h

  -- Whoever asks, and whatever role the table holds: from a coherent cache on, the user that
  -- `get_user` gives has the permissions of its role, the configured owner's role is OWNER, and the
  -- cache stays coherent.
  pub get_user-IsCoherent :
      (now : F) (id : ℕ) (tg : Option TgUser) (a : Auth F)
      → IsCoherent a
      → let (u, b) = get_user now id tg a in
        IsCoherentOption a.owner_id id u × (b.owner_id ≡ a.owner_id) × IsCoherent b
  unfolding get_user
  get_user-IsCoherent now id tg a h = elim (Bool-cases (is_fresh now (lookup id a.cache))) [
    | inl e ↦ rw e (cached-IsCoherent a.owner_id id (lookup id a.cache) (h id), refl, h)
    | inr e ↦
        let (loaded, same, cache) = load_user-IsLoaded id tg a in
        let before : IsCoherent (load_user id tg a).1 = λ j.
          subst (λ k. IsCoherentEntry k j (lookup j (load_user id tg a).1.cache)) (sym same)
            (subst (λ c. IsCoherentEntry a.owner_id j (lookup j c)) (sym cache) (h j)) in
        let (good, still, after) =
          finish_user-IsCoherent now id (load_user id tg a).0 (load_user id tg a).1 loaded before in
        rw e (
          subst (λ k. IsCoherentOption k id (finish_user now id (load_user id tg a)).0) same good,
          still ∙ same,
          after,
        )
  ]
