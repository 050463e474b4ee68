-- ===== src/Panel/Session/Walk.antt =====
-- A walk through the pages, and back.
use scalp_tn_aaa.Base.{ℕ, zero, suc, ◌≡◌, ◌≢◌, refl, List, [], ◌∷◌, length, arith, ap, ◌∙◌}
use scalp_tn_aaa.Base.Text.{Text, text_eq_iff}
use scalp_tn_aaa.Panel.Session.{UserSession, home, navigate_to, go_back}

unfoldable pub navigate_all : List Text → UserSession → UserSession
navigate_all [] s = s
navigate_all (page ∷ pages) s = navigate_all pages (navigate_to page s)

unfoldable pub go_back_times : ℕ → UserSession → UserSession
go_back_times zero s = s
go_back_times (suc n) s = (go_back (go_back_times n s)).1

-- No page is the home page or the one before it.
pub data IsWalk : Text → List Text → Type 0 where
  stop : {here : Text} → IsWalk here []
  step :
      {here page : Text} {pages : List Text}
      → page ≢ home
      → here ≢ page
      → IsWalk page pages
      → IsWalk here (page ∷ pages)

go_back-navigate_to :
    (page : Text) (s : UserSession)
    → page ≢ home
    → s.current_page ≢ page
    → go_back (navigate_to page s) ≡ (s.current_page, s)
unfolding go_back navigate_to
go_back-navigate_to page s away new =
    ground (arith, text_eq_iff page home, text_eq_iff s.current_page page)

navigate_to-page : (page : Text) (s : UserSession) → (navigate_to page s).current_page ≡ page
unfolding navigate_to
navigate_to-page page s = ground arith

-- After any walk through the pages on which no page is the home page or the one before it, going back
-- once for each page restores the session, with its page and its whole breadcrumb.
pub walk_round_trip :
    (pages : List Text) (s : UserSession)
    → IsWalk s.current_page pages
    → go_back_times (length pages) (navigate_all pages s) ≡ s
unfolding go_back_times navigate_all
walk_round_trip [] s walk = refl
walk_round_trip (page ∷ pages) s (step away new rest) =
    let next = navigate_to page s in
    ap (λ k. (go_back k).1) (walk_round_trip pages next (rw (navigate_to-page page s) rest))
    ∙ ap (λ r. r.1) (go_back-navigate_to page s away new)
