-- ===== src/Sets/Canonical.antt =====
-- The sorted lists are canonical: strictly ascending lists with the same members are equal.
use dynapp_agent.Prelude.{
  String, true, false, ◌||◌, List, [], ◌∷◌, ◌++◌, map, ◌==◌, eq_iff, eq_refl, ◌≡◌, ◌↔◌, refl, sym,
  ap, ◌∙◌, inl, inr, arith, Bool-cases,
}
use mathlib.Core.Path.{ap₂}
use dynapp_agent.Text.{
  trim_space, sort_strings, insert_sorted, str_le, str_le_total, str_le_trans, str_le_antisymm,
}
use dynapp_agent.Sets.{
  string_slice_has, distinct, normalize_permission_set, union_strings, without_repeats,
  slices_equal, same_capability_set,
}
use dynapp_agent.Sets.Membership.{
  has-sort_strings, has-without_repeats, has-distinct, has-normalize_permission_set,
  has-normalize_permission_set_of_IsTrimmed, normalize_permission_set-IsTrimmed,
}

-- Every element lies strictly above `x`.
abbrev Above : String → List String → Type 0
Above x [] = Unit
Above x (y ∷ ys) = ((str_le x y ≡ true) × ((x == y) ≡ false)) × Above x ys

abbrev pub Ascending : List String → Type 0
Ascending [] = Unit
Ascending (x ∷ xs) = Above x xs × Ascending xs

abbrev NoRepeats : List String → Type 0
NoRepeats [] = Unit
NoRepeats (x ∷ xs) = (string_slice_has xs x ≡ false) × NoRepeats xs

Above-trans : (x y : String) (l : List String) → str_le x y ≡ true → Above y l → Above x l
Above-trans x y [] h a = tt
Above-trans x y (z ∷ l) h a = ground (
  arith,
  str_le_trans x y z,
  str_le_antisymm y z,
  eq_iff x z,
  eq_iff y z,
  Above-trans x y l h a.1,
)

Above-insert_sorted :
    (x y : String) (l : List String)
    → str_le x y ≡ true
    → (x == y) ≡ false
    → Above x l
    → Above x (insert_sorted y l)
unfolding insert_sorted
Above-insert_sorted x y [] h n a = ((h, n), tt)
Above-insert_sorted x y (z ∷ l) h n a = ground (arith, Above-insert_sorted x y l h n a.1)

insert_sorted-Ascending :
    (x : String) (l : List String)
    → string_slice_has l x ≡ false
    → Ascending l
    → Ascending (insert_sorted x l)
unfolding insert_sorted string_slice_has
insert_sorted-Ascending x [] n a = (tt, tt)
insert_sorted-Ascending x (y ∷ l) n a = elim (Bool-cases (str_le x y)) [
  | inl le ↦ rw le (
      let d : (x == y) ≡ false = ground (arith, eq_iff x y, eq_iff y x) in
      (((le, d), Above-trans x y l le a.0), a))
  | inr gt ↦ rw gt (
    Above-insert_sorted y x l (ground (arith, str_le_total x y)) (ground arith) a.0,
    insert_sorted-Ascending x l (ground arith) a.1,
  )
]

sort_strings-Ascending : (l : List String) → NoRepeats l → Ascending (sort_strings l)
unfolding sort_strings
sort_strings-Ascending [] n = tt
sort_strings-Ascending (x ∷ l) n =
    insert_sorted-Ascending x (sort_strings l) (rw has-sort_strings n.0)
      (sort_strings-Ascending l n.1)

without_repeats-NoRepeats : (seen l : List String) → NoRepeats (without_repeats seen l)
unfolding without_repeats
without_repeats-NoRepeats seen [] = tt
without_repeats-NoRepeats seen (x ∷ l) = elim (Bool-cases (string_slice_has seen x)) [
  | inl e ↦ rw e (without_repeats-NoRepeats seen l)
  | inr e ↦ rw e (
    rw has-without_repeats (unfold string_slice_has in rw eq_refl refl),
    without_repeats-NoRepeats (x ∷ seen) l,
  )
]

has-Above :
    (x y : String) (l : List String) → Above x l → string_slice_has l y ≡ true → str_le x y ≡ true
unfolding string_slice_has
has-Above x y [] a h = ground arith
has-Above x y (z ∷ l) a h = ground (arith, has-Above x y l a.1, eq_iff z y)

not-has-Above : (x : String) (l : List String) → Above x l → string_slice_has l x ≡ false
unfolding string_slice_has
not-has-Above x [] a = refl
not-has-Above x (z ∷ l) a = ground (arith, not-has-Above x l a.1, eq_iff z x, eq_iff x z)

abbrev pub SameMembers : List String → List String → Type 0
SameMembers l r = (y : String) → string_slice_has l y ≡ string_slice_has r y

Ascending-heads :
    (x y : String) (l r : List String)
    → Ascending (x ∷ l)
    → Ascending (y ∷ r)
    → SameMembers (x ∷ l) (y ∷ r)
    → x ≡ y
unfolding string_slice_has
Ascending-heads x y l r a b m = ground (
  arith,
  m x,
  m y,
  eq_iff x x,
  eq_iff y y,
  eq_iff x y,
  eq_iff y x,
  has-Above x y l a.0,
  has-Above y x r b.0,
  str_le_antisymm x y,
)

Ascending-tails :
    (x : String) (l r : List String)
    → Above x l
    → Above x r
    → SameMembers (x ∷ l) (x ∷ r)
    → SameMembers l r
unfolding string_slice_has
Ascending-tails x l r a b m y =
    ground (arith, m y, eq_iff x y, not-has-Above x l a, not-has-Above x r b)

-- Strictly ascending lists with the same members are equal.
pub Ascending-ext : (l r : List String) → Ascending l → Ascending r → SameMembers l r → l ≡ r
unfolding string_slice_has
Ascending-ext [] [] a b m = refl
Ascending-ext [] (y ∷ r) a b m = ground (arith, m y, eq_iff y y)
Ascending-ext (x ∷ l) [] a b m = ground (arith, m x, eq_iff x x)
Ascending-ext (x ∷ l) (y ∷ r) a b m =
    let e : x ≡ y = Ascending-heads x y l r a b m in
    let b' : Above x r = rw e b.0 in
    let m' : SameMembers (x ∷ l) (x ∷ r) = λ z. ground (arith, m z) in
    ap₂ ◌∷◌ e (Ascending-ext l r a.1 b.1 (Ascending-tails x l r a.0 b' m'))

slices_equal→eq : (l r : List String) → slices_equal l r ≡ true → l ≡ r
unfolding slices_equal
slices_equal→eq [] [] h = refl
slices_equal→eq [] (y ∷ r) h = cc
slices_equal→eq (x ∷ l) [] h = cc
slices_equal→eq (x ∷ l) (y ∷ r) h = ground (arith, eq_iff x y, slices_equal→eq l r)

slices_equal_refl : (l : List String) → slices_equal l l ≡ true
unfolding slices_equal
slices_equal_refl [] = refl
slices_equal_refl (x ∷ l) = rw eq_refl (slices_equal_refl l)

-- The sorted list without repetitions, which sameCapabilitySet compares.
abbrev canonical : List String → List String
canonical l = sort_strings (without_repeats [] l)

canonical-Ascending : (l : List String) → Ascending (canonical l)
canonical-Ascending l =
    sort_strings-Ascending (without_repeats [] l) (without_repeats-NoRepeats [] l)

has-canonical :
    (l : List String) (y : String) → string_slice_has (canonical l) y ≡ string_slice_has l y
unfolding string_slice_has
has-canonical l y = rw (has-sort_strings, has-without_repeats)

canonical-eq : (l r : List String) → SameMembers l r → canonical l ≡ canonical r
canonical-eq l r m =
    Ascending-ext (canonical l) (canonical r) (canonical-Ascending l) (canonical-Ascending r)
      (λ y. has-canonical l y ∙ m y ∙ sym (has-canonical r y))

-- Two capability lists count as the same exactly when they hold the same capabilities, whatever
-- their order and repetitions.
pub same_capability_set_iff :
    (l r : List String) → (same_capability_set l r ≡ true) ↔ SameMembers l r
unfolding same_capability_set
same_capability_set_iff l r = (
  λ h y.
      sym (has-canonical l y)
      ∙ ap (λ v. string_slice_has v y) (slices_equal→eq (canonical l) (canonical r) h)
      ∙ has-canonical r y,
  λ m. rw (canonical-eq l r m) (slices_equal_refl (canonical r)),
)

distinct-NoRepeats : (seen l : List String) → NoRepeats (distinct seen l)
unfolding distinct
distinct-NoRepeats seen [] = tt
distinct-NoRepeats seen (x ∷ l) = elim (Bool-cases (x == "" || string_slice_has seen x)) [
  | inl e ↦ rw e (distinct-NoRepeats seen l)
  | inr e ↦ rw e (
    unfold string_slice_has in ground (arith, has-distinct (x ∷ seen) l x, eq_iff x x),
    distinct-NoRepeats (x ∷ seen) l,
  )
]

pub normalize_permission_set-Ascending : (l : List String) → Ascending (normalize_permission_set l)
unfolding normalize_permission_set
normalize_permission_set-Ascending l =
    sort_strings-Ascending _ (distinct-NoRepeats [] (map trim_space l))

pub union_strings-Ascending : (l r : List String) → Ascending (union_strings l r)
unfolding union_strings
union_strings-Ascending l r = sort_strings-Ascending _ (distinct-NoRepeats [] (l ++ r))

not-has-nil-normalize_permission_set :
    (l : List String) → string_slice_has (normalize_permission_set l) "" ≡ false
not-has-nil-normalize_permission_set l = ground (arith, has-normalize_permission_set l "")

-- A normalised set is left alone by normalising it again.
pub normalize_permission_set_idem :
    (l : List String)
    → normalize_permission_set (normalize_permission_set l) ≡ normalize_permission_set l
normalize_permission_set_idem l =
    let once = normalize_permission_set l in
    Ascending-ext (normalize_permission_set once) once (normalize_permission_set-Ascending once)
      (normalize_permission_set-Ascending l)
      λ y. ground (
        arith,
        eq_iff y "",
        not-has-nil-normalize_permission_set l,
        has-normalize_permission_set_of_IsTrimmed once y (normalize_permission_set-IsTrimmed l),
      )
