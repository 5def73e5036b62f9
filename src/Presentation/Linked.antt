-- ===== src/Presentation/Linked.antt =====
-- Each shortcut of an app is the one that its key leads to, in
-- shellagent/desktop/presentation_model.go.
use dynapp_agent.Prelude.{
  ℕ, ◌+◌, ◌%◌, ◌^◌, String, Bool, true, false, List, [], ◌∷◌, ◌==◌, eq_iff, Option, none, some, All,
  ◌≡◌, refl, arith, Bool-cases, Option-cases, inl, inr, sym, subst, ◌∙◌,
}
use dynapp_agent.Presentation.{
  Key, same_key, Controller, find_key, drop_shortcut, drop_key, register, unregister,
  handle_shortcut,
}
use dynapp_agent.Presentation.Shortcuts.{
  IsLinked, registered, register-outcome, drop_key-absent, absent-linked,
}

same_key-eq : (a b : Key) → same_key a b ≡ true → a ≡ b
same_key-eq a b h =
    let codes : a.code ≡ b.code = ground (arith, h) in
    let mods : a.modifiers ≡ b.modifiers = ground (arith, h) in
    λ i. record { code = codes i; modifiers = mods i }

find-drop_key :
    (key other : Key) (keys : List (Key × String))
    → same_key key other ≡ false
    → find_key other (drop_key key keys) ≡ find_key other keys
unfolding find_key drop_key
find-drop_key key other [] h = refl
find-drop_key key other ((known, accelerator) ∷ keys) h = elim (Bool-cases (same_key known key)) [
  | inr e ↦ ground (arith, e, find-drop_key key other keys h)
  | inl e ↦
      let differs : same_key known other ≡ false =
        subst (λ k. same_key k other ≡ false) (sym (same_key-eq known key e)) h in
      ground (arith, e, differs, find-drop_key key other keys h)
]

-- An entry is the one that its key leads to.
abbrev Links : (String → Option Key) → List (Key × String) → String × ℕ → Type 0
Links parse keys e = (key : Key) × (parse e.0 ≡ some key) × (find_key key keys ≡ some e.0)

Links-map :
    (parse : String → Option Key) (keys more : List (Key × String)) (shortcuts : List (String × ℕ))
    → ((k : Key) (s : String) → find_key k keys ≡ some s → find_key k more ≡ some s)
    → All (Links parse keys) shortcuts
    → All (Links parse more) shortcuts
Links-map parse keys more [] f h = _
Links-map parse keys more (e ∷ shortcuts) f h =
    ((h.0.0, h.0.1, f h.0.0 e.0 h.0.2), Links-map parse keys more shortcuts f h.1)

find-new :
    (key k : Key) (accelerator s : String) (keys : List (Key × String))
    → find_key key keys ≡ none
    → find_key k keys ≡ some s
    → find_key k ((key, accelerator) ∷ keys) ≡ some s
unfolding find_key
find-new key k accelerator s keys free found = elim (Bool-cases (same_key key k)) [
  | inr e ↦ ground (arith, e, found)
  | inl e ↦
      absurd (ground (arith, found, subst (λ x. find_key x keys ≡ none) (same_key-eq key k e) free))
]

find_self :
    (key : Key) (accelerator : String) (keys : List (Key × String))
    → find_key key ((key, accelerator) ∷ keys) ≡ some accelerator
unfolding find_key
find_self key accelerator keys = ground arith

drop-Links :
    (parse : String → Option Key) (key : Key) (original : String) (keys : List (Key × String))
    (shortcuts : List (String × ℕ))
    → find_key key keys ≡ some original
    → All (Links parse keys) shortcuts
    → All (Links parse (drop_key key keys)) (drop_shortcut original shortcuts)
unfolding drop_shortcut
drop-Links parse key original keys [] found h = _
drop-Links parse key original keys ((s, id) ∷ shortcuts) found h =
    let rest = drop-Links parse key original keys shortcuts found h.1 in
    elim (Bool-cases (s == original)) [
      | inl e ↦ rw (drop_shortcut, e) rest
      | inr e ↦ elim (Bool-cases (same_key key h.0.0)) [
        | inr other ↦
            rw (drop_shortcut, e) ((h.0.0, h.0.1, find-drop_key key h.0.0 keys other ∙ h.0.2), rest)
        | inl same ↦
            let here : find_key key keys ≡ some s =
              subst (λ x. find_key x keys ≡ some s) (sym (same_key-eq key h.0.0 same)) h.0.2 in
            absurd (ground (arith, e, eq_iff s original, found, here))
      ]
    ]

register-IsLinked :
    (parse : String → Option Key) (accelerator : String) (key : Key) (taken : Bool) (p : Controller)
    → parse accelerator ≡ some key
    → IsLinked parse p
    → IsLinked parse (register accelerator key taken p).2
unfolding registered
register-IsLinked parse accelerator key taken p parsed linked =
    elim (register-outcome accelerator key taken p) [
      | inl (shortcuts, keys) ↦
          subst (λ (l : List (Key × String) × List (String × ℕ)). All (Links parse l.0) l.1)
            (λ i. (sym keys i, sym shortcuts i)) linked
      | inr (free, made) ↦
          let fresh = drop_key-absent key p.keys free in
          let gone = absent-linked parse accelerator key p.keys p.shortcuts parsed free linked in
          let id = (p.next_id + 1) % 2 ^ 32 in
          let plain : (register accelerator key taken p).2 ≡ record {
            shortcuts = (accelerator, id) ∷ p.shortcuts;
            keys = (key, accelerator) ∷ p.keys;
            next_id = id;
          } =
            made ∙ (λ i. record {
              shortcuts = (accelerator, id) ∷ gone i;
              keys = (key, accelerator) ∷ fresh i;
              next_id = id;
            }) in
          subst (IsLinked parse) (sym plain) (
            (key, parsed, find_self key accelerator p.keys),
            Links-map parse p.keys ((key, accelerator) ∷ p.keys) p.shortcuts
                (λ k s found. find-new key k accelerator s p.keys free found) linked,
          )
    ]

unregister-IsLinked :
    (parse : String → Option Key) (key : Key) (p : Controller)
    → IsLinked parse p
    → IsLinked parse (unregister key p).2
unfolding unregister
unregister-IsLinked parse key p linked = elim (Option-cases (find_key key p.keys)) [
  | inl e ↦ rw (unregister, e) linked
  | inr (original, e) ↦
      rw (unregister, e) (drop-Links parse key original p.keys p.shortcuts e linked)
]

-- Whatever is called, every shortcut of the app stays the one that its key leads to.
pub handle_shortcut-IsLinked :
    (parse : String → Option Key) (method : String) (argument : Option String) (taken : Bool)
    (p : Controller)
    → IsLinked parse p
    → IsLinked parse (handle_shortcut parse method argument taken p).2
unfolding handle_shortcut
handle_shortcut-IsLinked parse method argument taken p h =
    elim (Bool-cases (method == "unregisterAll")) [
      | inl all ↦ rw (handle_shortcut, all) _
      | inr one ↦ elim (Option-cases argument) [
        | inl e ↦ rw (handle_shortcut, one, e) h
        | inr (accelerator, e) ↦ elim (Option-cases (parse accelerator)) [
          | inl f ↦ rw (handle_shortcut, one, e, f) h
          | inr (key, f) ↦ elim (Bool-cases (method == "register")) [
            | inl r ↦
                rw (handle_shortcut, one, e, f, r)
                  (register-IsLinked parse accelerator key taken p f h)
            | inr s ↦ elim (Bool-cases (method == "unregister")) [
              | inl u ↦ rw (handle_shortcut, one, e, f, s, u) (unregister-IsLinked parse key p h)
              | inr v ↦ rw (handle_shortcut, one, e, f, s, v) h
            ]
          ]
        ]
      ]
    ]
