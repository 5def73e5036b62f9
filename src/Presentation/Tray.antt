-- ===== src/Presentation/Tray.antt =====
-- A tray menu that passes validateTray of shellagent/desktop/presentation_model.go is bounded.
use dynapp_agent.Prelude.{
  ℕ, ◌+◌, String, Bool, true, false, ◌&&◌, List, [], ◌∷◌, ◌==◌, if◌then◌else◌, some, ltb, ◌≡◌,
}
use dynapp_agent.Presentation.{ItemHead, Menu, empty, item, has_text, is_bad_item, visit}

-- The number of items of a menu and of its submenus.
unfoldable pub size : Menu → ℕ
size empty = 0
size (item head submenu after) = 1 + size submenu + size after

-- The levels of submenus.
unfoldable pub height : Menu → ℕ
height empty = 0
height (item head submenu after) =
    let inner = 1 + height submenu in
    let rest = height after in if ltb rest inner then inner else rest

-- The ids that the items have, after those seen before.
unfoldable pub ids_of : Menu → List String → List String
ids_of empty seen = seen
ids_of (item head submenu after) seen =
    ids_of after (ids_of submenu (if head.id == "" then seen else head.id ∷ seen))

-- No id stands twice.
abbrev pub AreUnique : List String → Type 0
AreUnique [] = Unit
AreUnique (id ∷ ids) = (has_text ids id ≡ false) × AreUnique ids

-- What `visit` found on the way through an item.
abbrev Through : Bool → ItemHead → Menu → Menu → ℕ → ℕ × List String → ℕ × List String → Type 0
Through starts head submenu after depth seen found =
    (mid : ℕ × List String) × (visit true submenu (depth + 1)
        (seen.0 + 1, if head.id == "" then seen.1 else head.id ∷ seen.1)
      ≡ some mid)
    × (visit false after depth mid ≡ some found)
    × (is_bad_item head (seen.0 + 1) seen.1 ≡ false)
    × ((starts && ltb 5 depth) ≡ false)
