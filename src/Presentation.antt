-- ===== src/Presentation.antt =====
-- Tray menus and global shortcuts: shellagent/desktop/presentation_model.go.
pub mod Tray
pub mod Shortcuts
pub mod Linked
use Prim.Native.String.{len}
use dynapp_agent.Prelude.{
  ℕ, zero, suc, ◌+◌, ◌-◌, ◌*◌, ◌/◌, ◌%◌, ◌^◌, String, code, Bool, true, false, ◌||◌, ◌&&◌, List, [],
  ◌∷◌, ◌==◌, not, if◌then◌else◌, Option, none, some, nat_eq, leb, ltb, length, starts_with, ◌≡◌,
  refl, keep_if,
}
use dynapp_agent.Text.{trim_space, split_at, contains_char, trim_prefix_char, is_digit, digits}

-- presentationKey
pub record Key : Type 0 where
  pub code : ℕ
  pub modifiers : ℕ

abbrev pub same_key : Key → Key → Bool
same_key a b = nat_eq a.code b.code && nat_eq a.modifiers b.modifiers

-- modifiers |= flag, for a power of two.
unfoldable pub with_flag : ℕ → ℕ → ℕ
with_flag flag modifiers = if nat_eq (modifiers / flag % 2) 1 then modifiers else modifiers + flag

-- The flag of a modifier's name, in lower case, on a platform.
unfoldable pub modifier_flag : String → String → Option ℕ
modifier_flag platform name =
    if name == "alt" || name == "option"
    then some 1
    else if name == "ctrl" || name == "control"
    then some 2
    else if name == "shift"
    then some 4
    else if name == "cmd" || name == "command" || name == "super" || name == "meta"
    then some 8
    else if name == "commandorcontrol" || name == "cmdorctrl"
    then some (if platform == "darwin" then 8 else 2)
    else none

-- The table of named keys.
named_keys : List (String × ℕ)
named_keys =
    ("SPACE", 32)
    ∷ ("TAB", 9)
    ∷ ("ENTER", 13)
    ∷ ("RETURN", 13)
    ∷ ("ESC", 27)
    ∷ ("ESCAPE", 27)
    ∷ ("BACKSPACE", 8)
    ∷ ("DELETE", 46)
    ∷ ("INSERT", 45)
    ∷ ("HOME", 36)
    ∷ ("END", 35)
    ∷ ("PAGEUP", 33)
    ∷ ("PAGEDOWN", 34)
    ∷ ("LEFT", 37)
    ∷ ("UP", 38)
    ∷ ("RIGHT", 39)
    ∷ ("DOWN", 40)
    ∷ ("PLUS", 187)
    ∷ ("MINUS", 189)
    ∷ ("COMMA", 188)
    ∷ ("PERIOD", 190)
    ∷ []

find_named : List (String × ℕ) → String → ℕ
find_named [] key = 0
find_named ((name, value) ∷ rows) key =
    let rest = find_named rows key in if name == key then value else rest

-- strconv.Atoi, with 0 for what is no number or is negative.
atoi : String → ℕ
unfolding digits
atoi s = if s == "" || contains_char (λ c. not (is_digit c)) s then 0 else digits 0 s

-- The code of a key that is one letter or digit.
single_code : String → ℕ
single_code String.[] = 0
single_code (String.◌∷◌ c s) =
    if s == ""
      && ((leb b'A' (code c) && leb (code c) b'Z') || (leb b'0' (code c) && leb (code c) b'9'))
    then code c
    else 0

-- The code of the key, in upper case; 0 where it has none.
unfoldable pub key_code : String → ℕ
unfolding named_keys find_named atoi single_code
key_code key =
    let number = atoi (trim_prefix_char b'F' key) in
    if ltb 0 (single_code key)
    then single_code key
    else if starts_with key "F" && leb 1 number && leb number 20
    then 111 + number
    else find_named named_keys key

module _ (to_lower to_upper : String → String) where
  -- The loop over the modifiers: all parts but the last, and the last.
  unfoldable pub parse_parts : String → ℕ → String → List String → Option Key
  unfolding modifier_flag with_flag key_code
  parse_parts platform modifiers part [] =
      let value = key_code (to_upper (trim_space part)) in
      if nat_eq value 0 then none else some (record { code = value; modifiers = modifiers })
  parse_parts platform modifiers part (next ∷ parts) =
      elim (modifier_flag platform (to_lower (trim_space part))) [
        | none ↦ none
        | some flag ↦ parse_parts platform (with_flag flag modifiers) next parts
      ]

  -- parsePresentationKey; `none` is its error.
  unfoldable pub parse_presentation_key : String → String → Option Key
  unfolding parse_parts
  parse_presentation_key accelerator platform =
      if ltb 128 (len accelerator) then none else elim (split_at b'+' accelerator) [
        | first ∷ second ∷ parts ↦ parse_parts platform 0 first (second ∷ parts)
        | _ ↦ none
      ]

-- trayItem, without its submenu.
pub record ItemHead : Type 0 where
  pub id : String
  pub label : String
  pub kind : String
  pub enabled : Option Bool
  pub checked : Bool

-- A tray menu: each item with its submenu, and the items after it.
pub data Menu : Type 0 where
  empty : Menu
  item : ItemHead → Menu → Menu → Menu

-- trayOptions
pub record TrayOptions : Type 0 where
  pub tooltip : String
  pub title : String
  pub menu : Menu

abbrev pub has_text : List String → String → Bool
has_text [] id = false
has_text (known ∷ ids) id = known == id || has_text ids id

-- The tests of one item that `visit` makes.
unfoldable pub is_bad_item : ItemHead → ℕ → List String → Bool
is_bad_item head count ids =
    ltb 128 count
    || ltb 512 (len head.label)
    || ltb 128 (len head.id)
    || not (
        head.kind == ""
        || head.kind == "normal"
        || head.kind == "separator"
        || head.kind == "checkbox"
        || head.kind == "radio")
    || (not (head.id == "") && has_text ids head.id)

-- `visit` of validateTray: the count and the ids so far; `none` is an error. The depth of the call is
-- tested at its start, which the first argument leaves out for the items after the first.
unfoldable pub visit : Bool → Menu → ℕ → ℕ × List String → Option (ℕ × List String)
unfolding is_bad_item
visit starts empty depth (count, ids) = if starts && ltb 5 depth then none else some (count, ids)
visit starts (item head submenu after) depth (count, ids) =
    let known = if head.id == "" then ids else head.id ∷ ids in
    let inner = visit true submenu (depth + 1) (count + 1, known) in
    let both : Option (ℕ × List String) = elim inner [
      | none ↦ none
      | some found ↦ visit false after depth found
    ] in
    if starts && ltb 5 depth then none else if is_bad_item head (count + 1) ids then none else both

-- validateTray
unfoldable pub validate_tray : TrayOptions → Bool
unfolding visit
validate_tray options =
    if ltb 1024 (len options.tooltip) || ltb 256 (len options.title)
    then false
    else elim (visit true options.menu 0 (0, [])) [ none ↦ false | some found ↦ true ]

-- presentationController, for the shortcuts.
pub record Controller : Type 0 where
  pub shortcuts : List (String × ℕ)
  pub keys : List (Key × String)
  pub next_id : ℕ

-- What the controller tells the platform.
pub data Order : Type 0 where
  registers : ℕ → Key → Order
  unregisters : ℕ → Order

pub data Reply : Type 0 where
  yes no : Reply
  bad_shortcut too_many no_ids unsupported : Reply

unfoldable pub find_key : Key → List (Key × String) → Option String
find_key key [] = none
find_key key ((known, accelerator) ∷ keys) =
    let rest = find_key key keys in if same_key known key then some accelerator else rest

-- p.shortcuts[accelerator], which is 0 where it is missing.
unfoldable pub find_shortcut : String → List (String × ℕ) → ℕ
find_shortcut accelerator [] = 0
find_shortcut accelerator ((known, id) ∷ shortcuts) =
    let rest = find_shortcut accelerator shortcuts in if known == accelerator then id else rest

unfoldable pub drop_shortcut : String → List (String × ℕ) → List (String × ℕ)
drop_shortcut accelerator shortcuts =
    keep_if (λ (e : String × ℕ). not (e.0 == accelerator)) shortcuts

unfoldable pub drop_key : Key → List (Key × String) → List (Key × String)
drop_key key keys = keep_if (λ (e : Key × String). not (same_key e.0 key)) keys

-- The method `register`, on whether the platform takes the shortcut.
unfoldable pub register : String → Key → Bool → Controller → Reply × List Order × Controller
unfolding find_key drop_shortcut drop_key
register accelerator key taken p =
    let id = (p.next_id + 1) % 2 ^ 32 in
    let counted = record p { next_id = id } in
    elim (find_key key p.keys) [
      | some known ↦ (no, [], p)
      | none ↦
          if leb 64 (length p.shortcuts)
          then (too_many, [], p)
          else if ltb 49151 id
          then (no_ids, [], counted)
          else if not taken
          then (no, registers id key ∷ [], counted)
          else (
            yes,
            registers id key ∷ [],
            record {
              shortcuts = (accelerator, id) ∷ drop_shortcut accelerator p.shortcuts;
              keys = (key, accelerator) ∷ drop_key key p.keys;
              next_id = id;
            },
          )
    ]

-- The method `unregister`.
unfoldable pub unregister : Key → Controller → Reply × List Order × Controller
unfolding find_key find_shortcut drop_shortcut drop_key
unregister key p = elim (find_key key p.keys) [
  | none ↦ (yes, [], p)
  | some original ↦ (
    yes,
    unregisters (find_shortcut original p.shortcuts) ∷ [],
    record p { shortcuts = drop_shortcut original p.shortcuts; keys = drop_key key p.keys },
  )
]

unregister_each : List (String × ℕ) → List Order
unregister_each [] = []
unregister_each ((accelerator, id) ∷ shortcuts) = unregisters id ∷ unregister_each shortcuts

-- The service `globalShortcut` of `handle`, on the accelerator that the argument gives.
unfoldable pub handle_shortcut :
    (String → Option Key)
    → String
    → Option String
    → Bool
    → Controller
    → Reply × List Order × Controller
unfolding register unregister unregister_each
handle_shortcut parse method argument taken p =
    if method == "unregisterAll"
    then (yes, unregister_each p.shortcuts, record p { shortcuts = []; keys = [] })
    else elim argument [
      | none ↦ (bad_shortcut, [], p)
      | some accelerator ↦ elim (parse accelerator) [
        | none ↦ (bad_shortcut, [], p)
        | some key ↦
            if method == "register"
            then register accelerator key taken p
            else if method == "unregister"
            then unregister key p
            else (unsupported, [], p)
      ]
    ]

-- hotkey: the accelerator that was registered under an id.
unfoldable pub hotkey : ℕ → List (String × ℕ) → Option String
hotkey id [] = none
hotkey id ((accelerator, registered) ∷ shortcuts) =
    let rest = hotkey id shortcuts in if nat_eq registered id then some accelerator else rest
