-- ===== src/Dashboard/Views/Echo.antt =====
-- What the controls of frontend/src/App.jsx show after they are used.
use multi_tenant_siem.Base.{◌≡◌, refl, [], ◌∷◌, length, All, keep, map}
use multi_tenant_siem.Dashboard.State.{Dashboard, Browser}
use multi_tenant_siem.Dashboard.Session.{on_click}
use multi_tenant_siem.Dashboard.Views.Panels.{Item, side_bar}
use multi_tenant_siem.Dashboard.Views.Frame.{header}
use multi_tenant_siem.Dashboard.Views.Cards.{screens}
use multi_tenant_siem.Dashboard.Views.Controls.{search_field}

-- After the click the header has the name of the item, one screen is shown, the item is the only
-- active one, and the search is what it was.
abbrev pub Opens : Browser → Dashboard → Item → Type 0
Opens b d item =
    let d' = on_click b item.action d in
    ((header d').tab ≡ item.label)
    × (length (screens d'.active_tab) ≡ 1)
    × (map (λ i. i.label) (keep (λ i. i.is_active) (side_bar d')) ≡ item.label ∷ [])
    × ((search_field d').value ≡ (search_field d).value)

-- A click on any item of the side bar puts the item's name into the header, shows exactly one screen,
-- makes this item the only active one, and leaves the search as it was.
pub side_bar-Opens : (b : Browser) (d : Dashboard) → All (Opens b d) (side_bar d)
unfolding header on_click screens side_bar search_field
side_bar-Opens b d = (
  (refl, refl, refl, refl),
  (
    (refl, refl, refl, refl),
    (
      (refl, refl, refl, refl),
      ((refl, refl, refl, refl), ((refl, refl, refl, refl), ((refl, refl, refl, refl), tt))),
    ),
  ),
)
