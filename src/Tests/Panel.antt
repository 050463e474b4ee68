-- ===== src/Tests/Panel.antt =====
-- The panel's limiter and its users on concrete requests.
use scalp_tn_aaa.Base.{
  arith, ℕ, ◌*◌, ◌&&◌, ◌≡◌, ◌≤◌, refl, true, false, none, some, List, [], ◌∷◌, ◌++◌, if◌then◌else◌,
  ◌==◌,
}
use scalp_tn_aaa.Base.Int.{ℤ, pos}
use scalp_tn_aaa.Base.Maps.{lookup}
use scalp_tn_aaa.Base.Text.{Text, codes}
use scalp_tn_aaa.Float.Fixed.{fixed, fixed-IsOrdered, fixed-IsMonotone}
use scalp_tn_aaa.Panel.RateLimiter.{RateLimiter, check}
use scalp_tn_aaa.Panel.RateLimiter.Window.{count_since}
use scalp_tn_aaa.Panel.RateLimiter.Limit.{Runs, window_limit}
use scalp_tn_aaa.Panel.Users.{owner, viewer, manage_trades, view_dashboard}
use scalp_tn_aaa.Panel.Auth.{
  Auth, Row, TgUser, get_user, check_permission, deactivate, invalidate_cache,
}
use scalp_tn_aaa.Panel.Auth.Roles.{IsCoherent, IsCoherentOption, get_user-IsCoherent}
use scalp_tn_aaa.Panel.Auth.Access.{role_grants, check_permission_allowed, deactivated_is_denied}
use scalp_tn_aaa.Panel.Session.{UserSession}
use scalp_tn_aaa.Panel.Session.Walk.{IsWalk, navigate_all, go_back_times, walk_round_trip}

abbrev seconds : ℕ → ℤ
seconds n = pos (n * 1_000_000_000)

-- Two requests in ten seconds; user 9 is exempt.
abbrev limiter : RateLimiter ℤ
limiter = record { max = 2; window = seconds 10; exempt = 9 ∷ []; buckets = []; warnings = [] }

-- Requests of two users.
abbrev after_one : RateLimiter ℤ
after_one = (check (seconds 1) 7 limiter).1

abbrev after_two : RateLimiter ℤ
after_two = (check (seconds 2) 8 after_one).1

abbrev passed : List ℤ
passed = if (7 == 7) && (check (seconds 1) 7 limiter).0 then [] ++ (seconds 1 ∷ []) else []

window_limit_example :
    count_since
      (fixed.sub (seconds 2) (seconds 10))
      (if (8 == 7) && (check (seconds 2) 8 after_one).0 then passed ++ (seconds 2 ∷ []) else passed)
    ≤ 2
unfolding lookup
window_limit_example = window_limit fixed-IsOrdered fixed-IsMonotone 7 limiter refl refl refl (
    Runs.request (seconds 2) 8 (Runs.request (seconds 1) 7 (Runs.start (seconds 0) refl) refl refl)
      refl refl)

abbrev viewer_row : Row
viewer_row = record {
  username = some (codes "jo");
  first_name = codes "Jo";
  last_name = none;
  role = viewer;
  is_active = true;
}

abbrev jo : TgUser
jo = record {
  id = 5;
  shown_id = codes "5";
  username = some (codes "jo");
  first_name = codes "Jo";
  last_name = none;
}

abbrev boss : TgUser
boss = record jo { id = 1; shown_id = codes "1" }

-- User 1 is the owner, and 5 is known and not cached.
abbrev auth : Auth ℤ
auth = record {
  rows = (5, viewer_row) ∷ (1, record viewer_row { role = owner }) ∷ [];
  owner_id = 1;
  admin_ids = 3 ∷ [];
  cache = [];
  audit = [];
}

auth-IsCoherent : IsCoherent auth
unfolding lookup
auth-IsCoherent id = tt

get_user-IsCoherent_example :
    let (u, b) = get_user (seconds 1) 5 (some jo) auth in
    IsCoherentOption 1 5 u × (b.owner_id ≡ 1) × IsCoherent b
get_user-IsCoherent_example = get_user-IsCoherent (seconds 1) 5 (some jo) auth auth-IsCoherent

check_permission_allowed_example :
    (check_permission (seconds 1) (some jo) manage_trades auth).0.0
    ≡ role_grants manage_trades (get_user (seconds 1) 5 (some jo) auth).0
check_permission_allowed_example =
    check_permission_allowed (seconds 1) jo manage_trades auth auth-IsCoherent

-- The owner, once deactivated, is denied too.
deactivated_is_denied_example :
    (check_permission
      (seconds 1)
      (some boss)
      view_dashboard
      (invalidate_cache 1 (deactivate 1 auth))).0.0
    ≡ false
unfolding lookup
deactivated_is_denied_example =
    deactivated_is_denied (seconds 1) boss view_dashboard (record viewer_row { role = owner }) auth
      refl

abbrev session : UserSession
session = record { current_page = codes "home"; breadcrumb = [] }

abbrev pages : List Text
pages = codes "robot" ∷ codes "risk" ∷ []

pages-IsWalk : IsWalk (codes "home") pages
pages-IsWalk =
    IsWalk.step (λ e. ground arith) (λ e. ground arith)
      (IsWalk.step (λ e. ground arith) (λ e. ground arith) IsWalk.stop)

walk_round_trip_example : go_back_times 2 (navigate_all pages session) ≡ session
walk_round_trip_example = walk_round_trip pages session pages-IsWalk
