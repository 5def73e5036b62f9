-- ===== src/Sets/Membership.antt =====
-- Which texts the results of the set operations hold.
use mathlib.Core.List.{Memᴰ}
use mathlib.Core.List.Memᴰ
use dynapp_agent.Prelude.{
  String, Bool, true, ◌||◌, ◌&&◌, List, [], ◌∷◌, ◌++◌, map, ◌==◌, eq_iff, ◌≡◌, refl, keep_if, not,
  arith, Bool-cases, inl, inr, ◌↔◌, sym,
}
use dynapp_agent.Text.{trim_space, sort_strings, insert_sorted, trim_space_idem}
use dynapp_agent.Sets.{
  string_slice_has, distinct, normalize_permission_set, union_strings, subtract_strings,
  intersect_strings, without_repeats,
}

pub has-insert_sorted :
    (x : String) (l : List String) (y : String)
    → string_slice_has (insert_sorted x l) y ≡ (x == y || string_slice_has l y)
unfolding string_slice_has insert_sorted
has-insert_sorted x [] y = refl
has-insert_sorted x (v ∷ l) y = ground (arith, has-insert_sorted x l y)

pub has-sort_strings :
    (l : List String) (y : String) → string_slice_has (sort_strings l) y ≡ string_slice_has l y
unfolding string_slice_has sort_strings
has-sort_strings [] y = refl
has-sort_strings (v ∷ l) y =
    ground (arith, has-insert_sorted v (sort_strings l) y, has-sort_strings l y)

pub has-keep_if :
    (p : String → Bool) (l : List String) (y : String)
    → string_slice_has (keep_if p l) y ≡ (p y && string_slice_has l y)
unfolding string_slice_has
has-keep_if p [] y = ground arith
has-keep_if p (v ∷ l) y = ground (arith, has-keep_if p l y, eq_iff v y)

pub has-append :
    (l r : List String) (y : String)
    → string_slice_has (l ++ r) y ≡ (string_slice_has l y || string_slice_has r y)
unfolding string_slice_has
has-append [] r y = refl
has-append (v ∷ l) r y = ground (arith, has-append l r y)

pub has-distinct :
    (seen l : List String) (y : String)
    → string_slice_has (distinct seen l) y
      ≡ (not (y == "") && (not (string_slice_has seen y) && string_slice_has l y))
unfolding string_slice_has distinct
has-distinct seen [] y = ground arith
has-distinct seen (v ∷ l) y = ground (
  arith,
  has-distinct seen l y,
  has-distinct (v ∷ seen) l y,
  eq_iff v y,
  eq_iff v "",
  eq_iff y "",
)

pub has-without_repeats :
    (seen l : List String) (y : String)
    → string_slice_has (without_repeats seen l) y
      ≡ (not (string_slice_has seen y) && string_slice_has l y)
unfolding string_slice_has without_repeats
has-without_repeats seen [] y = ground arith
has-without_repeats seen (v ∷ l) y =
    ground (arith, has-without_repeats seen l y, has-without_repeats (v ∷ seen) l y, eq_iff v y)

-- The intersection holds exactly what both sides hold.
pub has-intersect_strings :
    (left right : List String) (y : String)
    → string_slice_has (intersect_strings left right) y
      ≡ (string_slice_has right y && string_slice_has left y)
unfolding intersect_strings
has-intersect_strings left right y = has-keep_if _ left y

-- The difference holds exactly what the first side holds and the second does not.
pub has-subtract_strings :
    (values remove : List String) (y : String)
    → string_slice_has (subtract_strings values remove) y
      ≡ (not (string_slice_has remove y) && string_slice_has values y)
unfolding subtract_strings
has-subtract_strings values remove y = rw has-sort_strings (has-keep_if _ values y)

has-distinct_nil :
    (l : List String) (y : String)
    → string_slice_has (distinct [] l) y ≡ (not (y == "") && string_slice_has l y)
unfolding string_slice_has
has-distinct_nil l y = has-distinct [] l y

-- The union holds exactly what one of the sides holds, the empty text apart.
pub has-union_strings :
    (left right : List String) (y : String)
    → string_slice_has (union_strings left right) y
      ≡ (not (y == "") && (string_slice_has left y || string_slice_has right y))
unfolding union_strings
has-union_strings left right y = rw (has-sort_strings, has-distinct_nil, has-append) refl

pub has-normalize_permission_set :
    (l : List String) (y : String)
    → string_slice_has (normalize_permission_set l) y
      ≡ (not (y == "") && string_slice_has (map trim_space l) y)
unfolding normalize_permission_set
has-normalize_permission_set l y = rw (has-sort_strings, has-distinct_nil) refl

-- No element of the list has white space at an end.
abbrev pub IsTrimmed : List String → Type 0
IsTrimmed l = (x : String) → string_slice_has l x ≡ true → trim_space x ≡ x

map-trim_space-IsTrimmed : (l : List String) → IsTrimmed (map trim_space l)
unfolding string_slice_has
map-trim_space-IsTrimmed [] x h = ground arith
map-trim_space-IsTrimmed (v ∷ l) x h =
    ground (arith, map-trim_space-IsTrimmed l x, eq_iff (trim_space v) x, trim_space_idem v)

pub normalize_permission_set-IsTrimmed : (l : List String) → IsTrimmed (normalize_permission_set l)
normalize_permission_set-IsTrimmed l x h =
    ground (arith, has-normalize_permission_set l x, map-trim_space-IsTrimmed l x)

-- An element of the list is, trimmed, an element of the normalised list.
pub has-map-trim_space :
    (l : List String) (x : String)
    → string_slice_has l x ≡ true
    → string_slice_has (map trim_space l) (trim_space x) ≡ true
unfolding string_slice_has
has-map-trim_space [] x h = h
has-map-trim_space (v ∷ l) x h =
    ground (arith, has-map-trim_space l x, eq_iff v x, eq_iff (trim_space v) (trim_space x))

map-trim_space_of_IsTrimmed : (l : List String) → IsTrimmed l → map trim_space l ≡ l
unfolding string_slice_has
map-trim_space_of_IsTrimmed [] t = refl
map-trim_space_of_IsTrimmed (v ∷ l) t =
    ground (arith, t v, eq_iff v v, map-trim_space_of_IsTrimmed l (λ x h. t x (ground arith)))

-- Normalising a list of trimmed texts drops no text but the empty one.
pub has-normalize_permission_set_of_IsTrimmed :
    (l : List String) (y : String)
    → IsTrimmed l
    → string_slice_has (normalize_permission_set l) y ≡ (not (y == "") && string_slice_has l y)
has-normalize_permission_set_of_IsTrimmed l y t =
    rw (has-normalize_permission_set, map-trim_space_of_IsTrimmed l t) refl

-- stringSliceHas finds exactly the members.
pub string_slice_has_iff : (l : List String) (x : String) → (string_slice_has l x ≡ true) ↔ Memᴰ x l
unfolding string_slice_has
string_slice_has_iff [] x = (λ h. absurd (ground (arith, h)), λ m. absurd (Memᴰ.not-nil m))
string_slice_has_iff (v ∷ l) x = (
  λ h. elim (Bool-cases (v == x)) [
    | inl e ↦ Memᴰ.head (sym ((eq_iff v x).0 e))
    | inr e ↦ Memᴰ.tail ((string_slice_has_iff l x).0 (ground (arith, h, e)))
  ],
  λ m. elim (Memᴰ.cases_cons m) [
    | inl e ↦ ground (arith, (eq_iff v x).1 (sym e))
    | inr r ↦ ground (arith, (string_slice_has_iff l x).1 r)
  ],
)
