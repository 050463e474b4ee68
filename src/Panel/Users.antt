-- ===== src/Panel/Users.antt =====
-- telegram_panel/models/user.py and the roles of telegram_panel/config/constants.py. The time stamps,
-- the notes and the failed attempts of a user, which nothing modelled here reads, are left out.
pub mod Ranks
use scalp_tn_aaa.Base.{ℕ, Bool, true, false, not, ◌||◌, Option}
use scalp_tn_aaa.Base.Text.{Text}

pub data BotRole : Type 0 where
  owner admin viewer blocked : BotRole

pub record UserPermission : Type 0 where
  pub can_view_dashboard : Bool
  pub can_view_accounts : Bool
  pub can_manage_accounts : Bool
  pub can_control_robot : Bool
  pub can_manage_trades : Bool
  pub can_change_risk : Bool
  pub can_change_strategy : Bool
  pub can_view_reports : Bool
  pub can_export_reports : Bool
  pub can_manage_notifications : Bool
  pub can_access_system : Bool
  pub can_manage_users : Bool
  pub can_view_logs : Bool

unfoldable pub for_role : BotRole → UserPermission
for_role owner = record {
  can_view_dashboard = true;
  can_view_accounts = true;
  can_manage_accounts = true;
  can_control_robot = true;
  can_manage_trades = true;
  can_change_risk = true;
  can_change_strategy = true;
  can_view_reports = true;
  can_export_reports = true;
  can_manage_notifications = true;
  can_access_system = true;
  can_manage_users = true;
  can_view_logs = true;
}
for_role admin = record {
  can_view_dashboard = true;
  can_view_accounts = true;
  can_manage_accounts = true;
  can_control_robot = true;
  can_manage_trades = true;
  can_change_risk = true;
  can_change_strategy = true;
  can_view_reports = true;
  can_export_reports = true;
  can_manage_notifications = true;
  can_access_system = true;
  can_manage_users = false;
  can_view_logs = true;
}
for_role viewer = record {
  can_view_dashboard = true;
  can_view_accounts = true;
  can_manage_accounts = false;
  can_control_robot = false;
  can_manage_trades = false;
  can_change_risk = false;
  can_change_strategy = false;
  can_view_reports = true;
  can_export_reports = false;
  can_manage_notifications = false;
  can_access_system = false;
  can_manage_users = false;
  can_view_logs = false;
}
for_role blocked = record {
  can_view_dashboard = false;
  can_view_accounts = false;
  can_manage_accounts = false;
  can_control_robot = false;
  can_manage_trades = false;
  can_change_risk = false;
  can_change_strategy = false;
  can_view_reports = false;
  can_export_reports = false;
  can_manage_notifications = false;
  can_access_system = false;
  can_manage_users = false;
  can_view_logs = false;
}

-- The attribute that a handler asks for; `other` is a name that `UserPermission` does not have.
pub data Permission : Type 0 where
  view_dashboard view_accounts manage_accounts control_robot manage_trades change_risk : Permission
  change_strategy view_reports export_reports manage_notifications access_system : Permission
  manage_users view_logs other : Permission

-- `getattr(user.permissions, permission_attr, False)`
unfoldable pub grants : UserPermission → Permission → Bool
grants p view_dashboard = p.can_view_dashboard
grants p view_accounts = p.can_view_accounts
grants p manage_accounts = p.can_manage_accounts
grants p control_robot = p.can_control_robot
grants p manage_trades = p.can_manage_trades
grants p change_risk = p.can_change_risk
grants p change_strategy = p.can_change_strategy
grants p view_reports = p.can_view_reports
grants p export_reports = p.can_export_reports
grants p manage_notifications = p.can_manage_notifications
grants p access_system = p.can_access_system
grants p manage_users = p.can_manage_users
grants p view_logs = p.can_view_logs
grants p other = false

pub record User : Type 0 where
  pub telegram_id : ℕ
  pub username : Option Text
  pub first_name : Text
  pub last_name : Option Text
  pub role : BotRole
  pub is_active : Bool
  pub permissions : UserPermission

-- The constructor with `__post_init__`, which sets the permissions from the role.
abbrev pub make_user : ℕ → Option Text → Text → Option Text → BotRole → Bool → User
make_user id username first_name last_name role active = record {
  telegram_id = id;
  username = username;
  first_name = first_name;
  last_name = last_name;
  role = role;
  is_active = active;
  permissions = for_role role;
}

abbrev pub is_blocked_role : BotRole → Bool
is_blocked_role blocked = true
is_blocked_role _ = false

unfoldable pub is_blocked : User → Bool
is_blocked u = is_blocked_role u.role || not u.is_active
