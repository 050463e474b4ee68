-- ===== src/Panel/Auth/Access.antt =====
-- Which requests are let pass, and when a changed role takes effect.
use scalp_tn_aaa.Base.{
  ℕ, ◌≡◌, refl, Bool, true, false, Option, none, some, arith, ◌==◌, if◌then◌else◌, Bool-cases,
  Option-cases, inl, inr, ap, ◌+◌, length, is_some, ◌∙◌,
}
use scalp_tn_aaa.Base.Maps.{lookup, lookup-insert, lookup-erase}
use scalp_tn_aaa.Float.{Float}
use scalp_tn_aaa.Panel.Users.{BotRole, blocked, User, for_role, Permission, grants, is_blocked}
use scalp_tn_aaa.Panel.Auth.{
  Auth, Row, TgUser, get_user, finish_user, load_user, check_permission, decide, is_fresh, set_role,
  upsert, invalidate_cache, deactivate, cached_user, handle_unauthorized,
}
use scalp_tn_aaa.Panel.Auth.Roles.{IsCoherent, IsCoherentOption, get_user-IsCoherent}

abbrev pub option_role : Option User → Option BotRole
option_role none = none
option_role (some u) = some u.role

abbrev pub option_active : Option User → Option Bool
option_active none = none
option_active (some u) = some u.is_active

abbrev pub role_grants : Permission → Option User → Bool
role_grants p none = false
role_grants p (some u) = if u.is_active then grants (for_role u.role) p else false

blocked-grants : (p : Permission) → grants (for_role blocked) p ≡ false
unfolding for_role grants
blocked-grants p = ground arith

module _ {F : Type 0} ⦃fl : Float F⦄ where
  decide-allowed :
      (p : Permission) (u : Option User) (b : Auth F) (owner_id id : ℕ)
      → IsCoherentOption owner_id id u
      → (decide p (u, b)).0.0 ≡ role_grants p u
  unfolding decide is_blocked
  decide-allowed p none b owner_id id h = refl
  decide-allowed p (some u) b owner_id id h = ground (arith, h.permissions, blocked-grants p)

  -- From a coherent cache on, a request is let pass exactly if the sender's user, cached or
  -- loaded, is there, is active, and has a role that grants the permission.
  pub check_permission_allowed :
      (now : F) (tg : TgUser) (p : Permission) (a : Auth F)
      → IsCoherent a
      → (check_permission now (some tg) p a).0.0 ≡ role_grants p (get_user now tg.id (some tg) a).0
  unfolding check_permission
  check_permission_allowed now tg p a h =
      let r = get_user now tg.id (some tg) a in
      decide-allowed p r.0 r.1 a.owner_id tg.id (get_user-IsCoherent now tg.id (some tg) a h).0

  -- Nothing up to the decision writes to the audit, and a sender's user is always found.
  finish_user-audit :
      (now : F) (id : ℕ) (u : Option User) (a : Auth F)
      → let (v, b) = finish_user now id (u, a) in (is_some v ≡ is_some u) × (b.audit ≡ a.audit)
  unfolding finish_user set_role
  finish_user-audit now id none a = (refl, refl)
  finish_user-audit now id (some u) a = ground arith

  load_user-audit :
      (id : ℕ) (tg : TgUser) (a : Auth F)
      → let (v, b) = load_user id (some tg) a in (is_some v ≡ true) × (b.audit ≡ a.audit)
  unfolding load_user upsert
  load_user-audit id tg a = elim (Option-cases (lookup id a.rows)) [
    | inl e ↦ rw (e, load_user) (refl, refl)
    | inr (r, e) ↦ rw (e, load_user) (refl, refl)
  ]

  cached-some :
      (now : F) (c : Option (User × F)) → is_fresh now c ≡ true → is_some (cached_user c) ≡ true
  cached-some now none h = absurd (ground arith)
  cached-some now (some (u, at)) h = refl

  get_user-audit :
      (now : F) (id : ℕ) (tg : TgUser) (a : Auth F)
      → let (v, b) = get_user now id (some tg) a in (is_some v ≡ true) × (b.audit ≡ a.audit)
  unfolding get_user
  get_user-audit now id tg a = elim (Bool-cases (is_fresh now (lookup id a.cache))) [
    | inl e ↦ rw e (cached-some now (lookup id a.cache) e, refl)
    | inr e ↦
        let r = load_user id (some tg) a in
        let (some_r, audit_r) = load_user-audit id tg a in
        let (same, audit) = finish_user-audit now id r.0 r.1 in
        rw e (same ∙ some_r, audit ∙ audit_r)
  ]

  decide-audit :
      (p : Permission) (u : Option User) (b : Auth F)
      → is_some u ≡ true
      → let ((ok, _), c) = decide p (u, b) in
        length c.audit ≡ length b.audit + (if ok then 0 else 1)
  unfolding decide handle_unauthorized
  decide-audit p none b h = absurd (ground arith)
  decide-audit p (some u) b h = ground arith

  -- Every request of a known sender that is denied leaves exactly one entry in the audit, and one
  -- that is let pass leaves none.
  check_permission_audit :
      (now : F) (tg : TgUser) (p : Permission) (a : Auth F)
      → let ((ok, _), after) = check_permission now (some tg) p a in
        length after.audit ≡ length a.audit + (if ok then 0 else 1)
  unfolding check_permission
  check_permission_audit now tg p a =
      let r = get_user now tg.id (some tg) a in
      let (found, same) = get_user-audit now tg.id tg a in
      decide-audit p r.0 r.1 found
      ∙ ap (λ k. length {0} k + (if (decide p r).0.0 then 0 else 1)) same

  finish_user-role :
      (now : F) (id : ℕ) (role : BotRole) (u : Option User) (a : Auth F)
      → option_role u ≡ some role
      → (id == a.owner_id) ≡ false
      → option_role (finish_user now id (u, a)).0 ≡ some role
  unfolding finish_user
  finish_user-role now id role none a e h = cc
  finish_user-role now id role (some u) a e h = ground arith

  finish_user-active :
      (now : F) (id : ℕ) (active : Bool) (u : Option User) (a : Auth F)
      → option_active u ≡ some active
      → option_active (finish_user now id (u, a)).0 ≡ some active
  unfolding finish_user
  finish_user-active now id active none a e = cc
  finish_user-active now id active (some u) a e = ground arith

  decide-inactive :
      (p : Permission) (u : Option User) (b : Auth F)
      → option_active u ≡ some false
      → (decide p (u, b)).0.0 ≡ false
  unfolding decide is_blocked
  decide-inactive p none b e = refl
  decide-inactive p (some u) b e = ground arith

  load_user-row :
      (id : ℕ) (tg : TgUser) (r : Row) (a : Auth F)
      → lookup id a.rows ≡ some r
      → (option_role (load_user id (some tg) a).0 ≡ some r.role)
        × (option_active (load_user id (some tg) a).0 ≡ some r.is_active)
        × ((load_user id (some tg) a).1.owner_id ≡ a.owner_id)
  unfolding load_user upsert
  load_user-row id tg r a h = rw (h, load_user) (refl, refl, refl)

  get_user-uncached :
      (now : F) (id : ℕ) (tg : Option TgUser) (a : Auth F)
      → lookup id a.cache ≡ none
      → get_user now id tg a ≡ finish_user now id (load_user id tg a)
  unfolding get_user
  get_user-uncached now id tg a h = simp h

  invalidated-lookup : (id : ℕ) (a : Auth F) → lookup id (invalidate_cache id a).cache ≡ none
  unfolding invalidate_cache
  invalidated-lookup id a = ground (arith, lookup-erase id id a.cache)

  set_role-row :
      (id : ℕ) (role : BotRole) (r : Row) (a : Auth F)
      → lookup id a.rows ≡ some r
      → lookup id (invalidate_cache id (set_role id role a)).rows ≡ some (record r { role = role })
  unfolding set_role invalidate_cache
  set_role-row id role r a h =
      simp h (ground (arith, lookup-insert id id (record r { role = role }) a.rows))

  owner-kept :
      (id : ℕ) (role : BotRole) (a : Auth F)
      → (invalidate_cache id (set_role id role a)).owner_id ≡ a.owner_id
  unfolding set_role invalidate_cache
  owner-kept id role a = refl

  deactivate-row :
      (id : ℕ) (r : Row) (a : Auth F)
      → lookup id a.rows ≡ some r
      → lookup id (invalidate_cache id (deactivate id a)).rows
        ≡ some (record r { role = blocked; is_active = false })
  unfolding deactivate invalidate_cache
  deactivate-row id r a h =
      simp h (
        ground (arith, lookup-insert id id (record r { role = blocked; is_active = false }) a.rows))

  -- A changed role of a known user other than the owner takes effect at the user's next request
  -- once the cache entry is invalidated, whatever was cached.
  pub changed_role_takes_effect :
      (now : F) (tg : TgUser) (role : BotRole) (r : Row) (a : Auth F)
      → lookup tg.id a.rows ≡ some r
      → (tg.id == a.owner_id) ≡ false
      → option_role
          (get_user now tg.id (some tg) (invalidate_cache tg.id (set_role tg.id role a))).0
        ≡ some role
  changed_role_takes_effect now tg role r a known other =
      let b = invalidate_cache tg.id (set_role tg.id role a) in
      let (new, _, same) =
        load_user-row tg.id tg (record r { role = role }) b (set_role-row tg.id role r a known) in
      ap (λ x. option_role x.0)
        (get_user-uncached now tg.id (some tg) b (invalidated-lookup tg.id (set_role tg.id role a)))
      ∙ finish_user-role now tg.id role _ _ new
          (ap (λ k. tg.id == k) (same ∙ owner-kept tg.id role a) ∙ other)

  -- A user whose row `deactivate` has switched off and whose cache entry is invalidated is denied
  -- every permission at the next request. This holds for the owner too.
  pub deactivated_is_denied :
      (now : F) (tg : TgUser) (p : Permission) (r : Row) (a : Auth F)
      → lookup tg.id a.rows ≡ some r
      → (check_permission now (some tg) p (invalidate_cache tg.id (deactivate tg.id a))).0.0 ≡ false
  unfolding check_permission
  deactivated_is_denied now tg p r a known =
      let b = invalidate_cache tg.id (deactivate tg.id a) in
      let (_, off, _) =
        load_user-row tg.id tg (record r { role = blocked; is_active = false }) b
          (deactivate-row tg.id r a known) in
      let got =
        get_user-uncached now tg.id (some tg) b (invalidated-lookup tg.id (deactivate tg.id a)) in
      ap (λ x. (decide p x).0.0) got
      ∙ decide-inactive p _ _ (finish_user-active now tg.id false _ _ off)
