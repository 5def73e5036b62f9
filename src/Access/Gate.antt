-- ===== src/Access/Gate.antt =====
-- What the gate of shellagent/agent.go lets through.
use dynapp_agent.Prelude.{
  String, Bool, true, false, ◌||◌, ◌&&◌, List, [], ◌∷◌, ◌==◌, ◌≡◌, refl, not, starts_with, arith,
  ap, sym, ◌∙◌, Bool-cases, inl, inr, ◌≢◌, ◌↔◌, ◌⊎◌, eq_iff,
}
use mathlib.Core.List.{Memᴰ}
use dynapp_agent.Sets.{string_slice_has}
use dynapp_agent.Sets.Membership.{string_slice_has_iff}
use dynapp_agent.Access.{fs_remote_excluded, allows_loop, socket_allows}

-- `fs.remote` stands for a file operation, but for none that runs a program or opens a file.
unfoldable pub is_covered : String → Bool
is_covered required =
    starts_with required "fs." && not (string_slice_has fs_remote_excluded required)

-- One element more on either side of the formula.
gather : (a b c h r : Bool) → (a || (b && c) || (h || (r && c))) ≡ ((a || h) || ((b || r) && c))
gather true b c h r = ground arith
gather false b c h r = ground arith

allows_loop-has :
    (allowed : List String) (required : String)
    → allows_loop allowed required ≡ (
        string_slice_has allowed required
        || (string_slice_has allowed "fs.remote" && is_covered required))
unfolding allows_loop string_slice_has is_covered
allows_loop-has [] required = refl
allows_loop-has (x ∷ l) required =
    ap (λ rest. x == required || (x == "fs.remote" && is_covered required) || rest)
      (allows_loop-has l required)
    ∙ gather (x == required) (x == "fs.remote") (is_covered required) (string_slice_has l required)
        (string_slice_has l "fs.remote")

pub socket_allows-has :
    (allowed : List String) (required : String)
    → socket_allows allowed required ≡ (
        required == ""
        || (string_slice_has allowed required
            || (string_slice_has allowed "fs.remote" && is_covered required)))
unfolding socket_allows
socket_allows-has allowed required = elim (Bool-cases (required == "")) [
  | inl e ↦ rw e refl
  | inr e ↦ rw e (allows_loop-has allowed required)
]

-- Operations on the file system, but none of the five that run a program or open a file.
abbrev pub IsRemoteOperation : String → Type 0
IsRemoteOperation required =
    (starts_with required "fs." ≡ true)
    × ((required ≢ "fs.exec")
        × ((required ≢ "fs.execFile")
            × ((required ≢ "fs.execTerminal")
                × ((required ≢ "fs.openPath") × (required ≢ "fs.openWith")))))

excluded_five :
    (required : String)
    → string_slice_has fs_remote_excluded required ≡ (
        "fs.exec" == required
        || ("fs.execFile" == required
            || ("fs.execTerminal" == required
                || ("fs.openPath" == required || ("fs.openWith" == required || false)))))
unfolding string_slice_has
excluded_five required = refl

is_covered_iff : (required : String) → (is_covered required ≡ true) ↔ IsRemoteOperation required
unfolding is_covered
is_covered_iff required = ground (
  arith,
  excluded_five required,
  eq_iff "fs.exec" required,
  eq_iff "fs.execFile" required,
  eq_iff "fs.execTerminal" required,
  eq_iff "fs.openPath" required,
  eq_iff "fs.openWith" required,
)

or-cases : (a b : Bool) → ((a || b) ≡ true) ↔ ((a ≡ true) ⊎ (b ≡ true))
or-cases a b = ground arith

and-cases : (a b : Bool) → ((a && b) ≡ true) ↔ ((a ≡ true) × (b ≡ true))
and-cases a b = ground arith

-- A socket is let through exactly where nothing is required, where what is required is a member of
-- what it holds, or where `fs.remote` is a member of that and the requirement begins with `fs.` and
-- is none of `fs.exec`, `fs.execFile`, `fs.execTerminal`, `fs.openPath` and `fs.openWith`.
pub socket_allows_iff :
    (allowed : List String) (required : String)
    → (socket_allows allowed required ≡ true) ↔ (
        (required ≡ "")
        ⊎ (Memᴰ required allowed ⊎ (Memᴰ "fs.remote" allowed × IsRemoteOperation required)))
socket_allows_iff allowed required =
    let held = string_slice_has_iff allowed required in
    let remote = string_slice_has_iff allowed "fs.remote" in
    let covered = is_covered_iff required in
    let test = socket_allows-has allowed required in
    (
      λ h. elim ((or-cases _ _).0 (sym test ∙ h)) [
        | inl e ↦ inl ((eq_iff required "").0 e)
        | inr r ↦ elim ((or-cases _ _).0 r) [
          | inl e ↦ inr (inl (held.0 e))
          | inr both ↦
              let (one, two) = (and-cases _ _).0 both in inr (inr (remote.0 one, covered.0 two))
        ]
      ],
      λ h.
          test
          ∙ (or-cases _ _).1 (elim h [
            | inl e ↦ inl ((eq_iff required "").1 e)
            | inr r ↦ inr (
                (or-cases _ _).1 (elim r [
                  | inl m ↦ inl (held.1 m)
                  | inr (m, op) ↦ inr ((and-cases _ _).1 (remote.1 m, covered.1 op))
                ]))
          ]),
    )
