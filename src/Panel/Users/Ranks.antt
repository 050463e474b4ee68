-- ===== src/Panel/Users/Ranks.antt =====
-- The roles are ranks, and each permission needs one of them.
use scalp_tn_aaa.Base.{ℕ, ◌≡◌, ◌≤◌, ◌↔◌, true, arith}
use scalp_tn_aaa.Panel.Users.{
  BotRole, owner, admin, viewer, blocked, Permission, for_role, grants, other, manage_users,
  view_dashboard, view_accounts, view_reports,
}

abbrev pub rank : BotRole → ℕ
rank blocked = 0
rank viewer = 1
rank admin = 2
rank owner = 3

-- The least rank that has the permission; none has one of an unknown name.
abbrev pub needed_rank : Permission → ℕ
needed_rank view_dashboard = 1
needed_rank view_accounts = 1
needed_rank view_reports = 1
needed_rank manage_users = 3
needed_rank other = 4
needed_rank _ = 2

-- A role has a permission exactly if its rank is at least the one that the permission needs:
-- viewers have the three viewing permissions, administrators all but the management of users, the
-- owner every one, and nobody one of an unknown name.
pub for_role_iff :
    (role : BotRole) (p : Permission)
    → (grants (for_role role) p ≡ true) ↔ (needed_rank p ≤ rank role)
unfolding for_role grants
for_role_iff role p = ground arith
