-- ===== src/Panel/Session.antt =====
-- The navigation of `UserSession` in telegram_panel/models/session.py. The breadcrumb is held with its
-- last page first.
pub mod Walk
use scalp_tn_aaa.Base.{ℕ, zero, suc, Bool, true, false, List, [], ◌∷◌, if◌then◌else◌}
use scalp_tn_aaa.Base.Text.{Text, codes, text_eq}

pub record UserSession : Type 0 where
  pub current_page : Text
  pub breadcrumb : List Text

abbrev pub home : Text
home = codes "home"

unfoldable pub navigate_to : Text → UserSession → UserSession
navigate_to page s =
    if text_eq page home
    then record { current_page = page; breadcrumb = [] }
    else if text_eq s.current_page page
    then record { current_page = page; breadcrumb = s.breadcrumb }
    else record { current_page = page; breadcrumb = s.current_page ∷ s.breadcrumb }

abbrev pub back_to : List Text → Text × UserSession
back_to [] = (home, record { current_page = home; breadcrumb = [] })
back_to (prev ∷ rest) = (prev, record { current_page = prev; breadcrumb = rest })

-- The page that is shown, and the session.
unfoldable pub go_back : UserSession → Text × UserSession
go_back s = back_to s.breadcrumb
