-- ===== src/Presentation/Shortcuts.antt =====
-- The shortcuts of an app: presentationController of shellagent/desktop/presentation_model.go.
use dynapp_agent.Prelude.{
  ℕ, ◌+◌, ◌%◌, ◌^◌, ◌≤◌, ◌<◌, String, Bool, true, List, [], ◌∷◌, ◌==◌, eq_iff, eq_refl, Option,
  none, some, leb, ltb, length, All, All-keep_if, length-keep_if-le, ◌≡◌, refl, arith, Bool-cases,
  Option-cases, inl, inr, ◌⊎◌, ap, sym, subst, ◌∙◌,
}
use dynapp_agent.Presentation.{
  Key, same_key, Controller, yes, find_key, drop_shortcut, drop_key, register, unregister,
  handle_shortcut,
}

-- The id is one that the platform gives to shortcuts of apps.
abbrev pub IsSmall : String × ℕ → Type 0
IsSmall entry = entry.1 ≤ 49151

-- At most 64 shortcuts, each with such an id.
abbrev pub IsBounded : Controller → Type 0
IsBounded p = (length p.shortcuts ≤ 64) × All IsSmall p.shortcuts

drop_shortcut-IsSmall :
    (accelerator : String) (shortcuts : List (String × ℕ))
    → All IsSmall shortcuts
    → All IsSmall (drop_shortcut accelerator shortcuts)
unfolding drop_shortcut
drop_shortcut-IsSmall accelerator shortcuts h = All-keep_if IsSmall _ shortcuts h

length-drop_shortcut :
    (accelerator : String) (shortcuts : List (String × ℕ))
    → length (drop_shortcut accelerator shortcuts) ≤ length shortcuts
unfolding drop_shortcut
length-drop_shortcut accelerator shortcuts = length-keep_if-le _ shortcuts

module _ (accelerator : String) (key : Key) (taken : Bool) (p : Controller) where
  -- `register` does nothing to the shortcuts, or it adds the accelerator under a new id.
  register-cases :
      ((register accelerator key taken p).2.shortcuts ≡ p.shortcuts)
      ⊎ ((length p.shortcuts < 64)
          × ((p.next_id + 1) % 2 ^ 32 ≤ 49151)
          × ((register accelerator key taken p).2.shortcuts
              ≡ (accelerator, (p.next_id + 1) % 2 ^ 32) ∷ drop_shortcut accelerator p.shortcuts))
  unfolding register
  register-cases = elim (Option-cases (find_key key p.keys)) [
    | inr (known, e) ↦ inl (rw (register, e) refl)
    | inl e ↦ elim (Bool-cases (leb 64 (length p.shortcuts))) [
      | inl full ↦ inl (rw (register, e, full) refl)
      | inr room ↦ elim (Bool-cases (ltb 49151 ((p.next_id + 1) % 2 ^ 32))) [
        | inl over ↦ inl (rw (register, e, room, over) refl)
        | inr small ↦ elim (Bool-cases taken) [
          | inr refused ↦ inl (rw (register, e, room, small, refused) refl)
          | inl good ↦ inr (
            ground (arith, room),
            ground (arith, small),
            rw (register, e, room, small, good) refl,
          )
        ]
      ]
    ]
  ]

  register-IsBounded : IsBounded p → IsBounded (register accelerator key taken p).2
  register-IsBounded h = elim register-cases [
    | inl same ↦ subst (λ l. (length l ≤ 64) × All IsSmall l) (sym same) (h.0, h.1)
    | inr (room, small, same) ↦
        subst (λ l. (length l ≤ 64) × All IsSmall l) (sym same)
          (
            omega (arith, room, length-drop_shortcut accelerator p.shortcuts),
            (small, drop_shortcut-IsSmall accelerator p.shortcuts h.1),
          )
  ]

  unregister-cases :
      ((unregister key p).2.shortcuts ≡ p.shortcuts)
      ⊎ ((original : String) × ((unregister key p).2.shortcuts
            ≡ drop_shortcut original p.shortcuts))
  unfolding unregister
  unregister-cases = elim (Option-cases (find_key key p.keys)) [
    | inl e ↦ inl (rw (unregister, e) refl)
    | inr (original, e) ↦ inr (original, rw (unregister, e) refl)
  ]

  unregister-IsBounded : IsBounded p → IsBounded (unregister key p).2
  unregister-IsBounded h = elim unregister-cases [
    | inl same ↦ subst (λ l. (length l ≤ 64) × All IsSmall l) (sym same) (h.0, h.1)
    | inr (original, same) ↦
        subst (λ l. (length l ≤ 64) × All IsSmall l) (sym same)
          (
            omega (arith, h.0, length-drop_shortcut original p.shortcuts),
            drop_shortcut-IsSmall original p.shortcuts h.1,
          )
  ]

-- Whatever is called, an app has at most 64 shortcuts, each under an id up to 0xbfff.
pub handle_shortcut-IsBounded :
    (parse : String → Option Key) (method : String) (argument : Option String) (taken : Bool)
    (p : Controller)
    → IsBounded p
    → IsBounded (handle_shortcut parse method argument taken p).2
unfolding handle_shortcut
handle_shortcut-IsBounded parse method argument taken p h =
    elim (Bool-cases (method == "unregisterAll")) [
      | inl all ↦ rw (handle_shortcut, all) (omega arith, _)
      | inr one ↦ elim (Option-cases argument) [
        | inl e ↦ rw (handle_shortcut, one, e) h
        | inr (accelerator, e) ↦ elim (Option-cases (parse accelerator)) [
          | inl f ↦ rw (handle_shortcut, one, e, f) h
          | inr (key, f) ↦ elim (Bool-cases (method == "register")) [
            | inl r ↦
                rw (handle_shortcut, one, e, f, r) (register-IsBounded accelerator key taken p h)
            | inr s ↦ elim (Bool-cases (method == "unregister")) [
              | inl u ↦
                  rw (handle_shortcut, one, e, f, s, u)
                    (unregister-IsBounded accelerator key taken p h)
              | inr v ↦ rw (handle_shortcut, one, e, f, s, v) h
            ]
          ]
        ]
      ]
    ]

-- Every shortcut is the one that its key leads to.
abbrev pub IsLinked : (String → Option Key) → Controller → Type 0
IsLinked parse p =
    All
      (λ (e : String × ℕ). (key : Key) × (parse e.0 ≡ some key) × (find_key key p.keys ≡ some e.0))
      p.shortcuts

pub drop_key-absent :
    (key : Key) (keys : List (Key × String)) → find_key key keys ≡ none → drop_key key keys ≡ keys
unfolding find_key drop_key
drop_key-absent key [] h = refl
drop_key-absent key ((known, accelerator) ∷ keys) h = ground (arith, h, drop_key-absent key keys)

some_injective : {x y : Key} → some x ≡ some y → x ≡ y
some_injective e = cc e

pub absent-linked :
    (parse : String → Option Key) (accelerator : String) (key : Key) (keys : List (Key × String))
    (shortcuts : List (String × ℕ))
    → parse accelerator ≡ some key
    → find_key key keys ≡ none
    → All
        (λ (e : String × ℕ). (k : Key) × (parse e.0 ≡ some k) × (find_key k keys ≡ some e.0))
        shortcuts
    → drop_shortcut accelerator shortcuts ≡ shortcuts
unfolding drop_shortcut
absent-linked parse accelerator key keys [] parsed free linked = refl
absent-linked parse accelerator key keys ((other, id) ∷ shortcuts) parsed free linked =
    let (k, leads, found) = linked.0 in
    let rest = absent-linked parse accelerator key keys shortcuts parsed free linked.1 in
    elim (Bool-cases (other == accelerator)) [
      | inr e ↦ ground (arith, e, rest)
      | inl e ↦
          let same : other ≡ accelerator = ground (arith, e, eq_iff other accelerator) in
          let keyed : k ≡ key = some_injective (sym leads ∙ ap parse same ∙ parsed) in
          absurd (ground (arith, found, subst (λ x. find_key x keys ≡ none) (sym keyed) free))
    ]

-- The controller that a successful registration leaves.
unfoldable pub registered : String → Key → Controller → Controller
registered accelerator key p = record {
  shortcuts = (accelerator, (p.next_id + 1) % 2 ^ 32) ∷ drop_shortcut accelerator p.shortcuts;
  keys = (key, accelerator) ∷ drop_key key p.keys;
  next_id = (p.next_id + 1) % 2 ^ 32;
}

register-yes :
    (accelerator : String) (key : Key) (taken : Bool) (p : Controller)
    → (register accelerator key taken p).0 ≡ yes
    → (find_key key p.keys ≡ none)
      × ((register accelerator key taken p).2 ≡ registered accelerator key p)
unfolding register registered
register-yes accelerator key taken p h = elim (Option-cases (find_key key p.keys)) [
  | inr (known, e) ↦ absurd (ground (arith, h, e))
  | inl e ↦ (e, ground (arith, h, e))
]

-- `register` leaves the shortcuts and the keys, or it registers a key that was free.
pub register-outcome :
    (accelerator : String) (key : Key) (taken : Bool) (p : Controller)
    → let after = (register accelerator key taken p).2 in
      ((after.shortcuts ≡ p.shortcuts) × (after.keys ≡ p.keys))
      ⊎ ((find_key key p.keys ≡ none) × (after ≡ registered accelerator key p))
unfolding register registered
register-outcome accelerator key taken p = elim (Option-cases (find_key key p.keys)) [
  | inr (known, e) ↦ inl (ground (arith, e), ground (arith, e))
  | inl e ↦ ground (arith, e)
]

same_key_refl : (key : Key) → same_key key key ≡ true
same_key_refl key = ground arith

unregister-registered :
    (accelerator : String) (key : Key) (p : Controller)
    → ((unregister key (registered accelerator key p)).2.shortcuts
        ≡ drop_shortcut accelerator (drop_shortcut accelerator p.shortcuts))
      × ((unregister key (registered accelerator key p)).2.keys
          ≡ drop_key key (drop_key key p.keys))
unfolding unregister registered find_key drop_shortcut drop_key
unregister-registered accelerator key p = (
  ground (arith, same_key_refl key, eq_refl accelerator),
  ground (arith, same_key_refl key, eq_refl accelerator),
)

-- Where every shortcut is the one that its key leads to, taking back a shortcut that was just registered
-- leaves the shortcuts and the keys that there were.
pub unregister-register :
    (parse : String → Option Key) (accelerator : String) (key : Key) (taken : Bool) (p : Controller)
    → IsLinked parse p
    → parse accelerator ≡ some key
    → (register accelerator key taken p).0 ≡ yes
    → let after = (unregister key (register accelerator key taken p).2).2 in
      (after.shortcuts ≡ p.shortcuts) × (after.keys ≡ p.keys)
unregister-register parse accelerator key taken p linked parsed accepted =
    let (free, made) = register-yes accelerator key taken p accepted in
    let (first, second) = unregister-registered accelerator key p in
    let gone = absent-linked parse accelerator key p.keys p.shortcuts parsed free linked in
    let fresh = drop_key-absent key p.keys free in
    (
      ap (λ q. (unregister key q).2.shortcuts) made
          ∙ first
          ∙ ap (drop_shortcut accelerator) gone
          ∙ gone,
      ap (λ q. (unregister key q).2.keys) made ∙ second ∙ ap (drop_key key) fresh ∙ fresh,
    )
