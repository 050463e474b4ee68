-- ===== src/Panel/Auth.antt =====
-- `class AuthMiddleware` of telegram_panel/api/middleware/auth.py with the rows of
-- telegram_panel/storage/repositories/user_repo.py that it reads and writes. The event loop's time, a
-- float, is an argument. The message to the denied user is left out, and the audit is taken to accept
-- its entries.
pub mod Roles
pub mod Access
use scalp_tn_aaa.Base.{
  ℕ, Bool, true, false, not, Option, none, some, List, [], ◌∷◌, ◌++◌, any, if◌then◌else◌, ◌==◌,
}
use scalp_tn_aaa.Base.Text.{Text, codes, or_else}
use scalp_tn_aaa.Base.Maps.{lookup, insert, erase}
use scalp_tn_aaa.Float.{Float}
use scalp_tn_aaa.Panel.Users.{
  BotRole, owner, admin, viewer, blocked, User, make_user, for_role, Permission, grants, is_blocked,
}

-- A row of the table `users`.
pub record Row : Type 0 where
  pub username : Option Text
  pub first_name : Text
  pub last_name : Option Text
  pub role : BotRole
  pub is_active : Bool

-- The sender of an update, as Telegram gives it; `shown_id` is the text of the id.
pub record TgUser : Type 0 where
  pub id : ℕ
  pub shown_id : Text
  pub username : Option Text
  pub first_name : Text
  pub last_name : Option Text

pub data Reason : Type 0 where
  user_blocked : Reason
  missing_permission : Permission → Reason

-- `audit` holds the entries for unauthorized access, the last one first.
pub record Auth (F : Type 0) : Type 0 where
  pub rows : List (ℕ × Row)
  pub owner_id : ℕ
  pub admin_ids : List ℕ
  pub cache : List (ℕ × (User × F))
  pub audit : List (ℕ × Reason)

-- `_row_to_user`
abbrev pub row_to_user : ℕ → Row → User
row_to_user id r = make_user id r.username r.first_name r.last_name r.role r.is_active

-- `upsert`: an existing row keeps its role and its activity.
abbrev pub upserted_row : Option Row → User → Row
upserted_row none u = record {
  username = u.username;
  first_name = u.first_name;
  last_name = u.last_name;
  role = u.role;
  is_active = u.is_active;
}
upserted_row (some r) u = record r {
  username = u.username;
  first_name = u.first_name;
  last_name = u.last_name;
}

abbrev pub update_row : (Row → Row) → ℕ → Option Row → List (ℕ × Row) → List (ℕ × Row)
update_row f id none rows = rows
update_row f id (some r) rows = insert id (f r) rows

abbrev pub renamed : TgUser → User → User
renamed tg u = record u {
  username = tg.username;
  first_name = or_else tg.first_name tg.shown_id;
  last_name = tg.last_name;
}

abbrev pub is_owner_role : BotRole → Bool
is_owner_role owner = true
is_owner_role _ = false

abbrev pub promoted : User → User
promoted u = record u { role = owner; permissions = for_role owner }

module _ {F : Type 0} where
  unfoldable pub auto_role : ℕ → Auth F → BotRole
  auto_role id a =
      if id == a.owner_id then owner else if any (λ i. id == i) a.admin_ids then admin else viewer

  abbrev pub get_by_telegram_id : ℕ → Auth F → Option User
  get_by_telegram_id id a = elim (lookup id a.rows) [
    | none ↦ none
    | some r ↦ some (row_to_user id r)
  ]

  unfoldable pub upsert : User → Auth F → Auth F
  upsert u a = record a {
    rows = insert u.telegram_id (upserted_row (lookup u.telegram_id a.rows) u) a.rows;
  }

  -- An `UPDATE` of no row does nothing.
  unfoldable pub set_role : ℕ → BotRole → Auth F → Auth F
  set_role id role a = record a {
    rows = update_row (λ r. record r { role = role }) id (lookup id a.rows) a.rows;
  }

  unfoldable pub deactivate : ℕ → Auth F → Auth F
  deactivate id a = record a {
    rows =
        update_row (λ r. record r { role = blocked; is_active = false }) id (lookup id a.rows)
          a.rows;
  }

  unfoldable pub invalidate_cache : ℕ → Auth F → Auth F
  invalidate_cache id a = record a { cache = erase id a.cache }

  abbrev pub new_user : TgUser → Auth F → User
  new_user tg a =
      make_user tg.id tg.username (or_else tg.first_name tg.shown_id) tg.last_name
        (auto_role tg.id a) true

  -- The user from the table, created or updated from what Telegram gives.
  unfoldable pub load_user : ℕ → Option TgUser → Auth F → Option User × Auth F
  load_user id tg a = elim (get_by_telegram_id id a) [
    | none ↦ elim tg [ none ↦ (none, a) | some t ↦ (some (new_user t a), upsert (new_user t a) a) ]
    | some u ↦ elim tg [
      | none ↦ (some u, a)
      | some t ↦ (some (renamed t u), upsert (renamed t u) a)
    ]
  ]

  -- The owner's role and permissions, where another role is stored.
  abbrev pub needs_promotion : ℕ → User → Auth F → Bool
  needs_promotion id u a = if id == a.owner_id then not (is_owner_role u.role) else false

module _ {F : Type 0} ⦃fl : Float F⦄ where
  -- `_cache_ttl`
  abbrev pub cache_ttl : F
  cache_ttl = fl.lit 30 1

  -- What `get_user` does once a user is there: promotion of the owner, and the cache.
  unfoldable pub finish_user : F → ℕ → Option User × Auth F → Option User × Auth F
  finish_user now id (none, a) = (none, a)
  finish_user now id (some u, a) =
      if needs_promotion id u a
      then (
        some (promoted u),
        record (set_role id owner a) { cache = insert id (promoted u, now) a.cache },
      )
      else (some u, record a { cache = insert id (u, now) a.cache })

  abbrev pub is_fresh : F → Option (User × F) → Bool
  is_fresh now none = false
  is_fresh now (some (u, at)) = fl.lt (fl.sub now at) cache_ttl

  abbrev pub cached_user : Option (User × F) → Option User
  cached_user none = none
  cached_user (some (u, at)) = some u

  unfoldable pub get_user : F → ℕ → Option TgUser → Auth F → Option User × Auth F
  get_user now id tg a =
      let cached = lookup id a.cache in
      if is_fresh now cached
      then (cached_user cached, a)
      else finish_user now id (load_user id tg a)

  -- `_handle_unauthorized`
  unfoldable pub handle_unauthorized : User → Reason → Auth F → Auth F
  handle_unauthorized u reason a = record a { audit = (u.telegram_id, reason) ∷ a.audit }

  unfoldable pub decide : Permission → Option User × Auth F → (Bool × Option User) × Auth F
  decide permission (none, a) = ((false, none), a)
  decide permission (some u, a) =
      if is_blocked u
      then ((false, some u), handle_unauthorized u user_blocked a)
      else if grants u.permissions permission
      then ((true, some u), a)
      else ((false, some u), handle_unauthorized u (missing_permission permission) a)

  unfoldable pub check_permission :
      F → Option TgUser → Permission → Auth F → (Bool × Option User) × Auth F
  check_permission now none permission a = ((false, none), a)
  check_permission now (some tg) permission a = decide permission (get_user now tg.id (some tg) a)
