-- ===== src/Grants/Lookup.antt =====
-- The store of grants is a map from keys (key id, origin, store id) to identities.
use dynapp_agent.Prelude.{
  String, Bool, true, false, ◌&&◌, List, [], ◌∷◌, ◌++◌, ◌==◌, eq_iff, eq_refl, if◌then◌else◌, ◌≡◌,
  ◌∙◌, sym, refl, Option, none, some, any_of, subst, All, All-keep_if, arith, Bool-cases, inl, inr,
}
use Prim.Native.String.{◌++◌ as ◌++ₛ◌}
use dynapp_agent.Sets.{string_slice_has}
use dynapp_agent.Types.{Host, BrowserIdentity, DirectLocalInit, DirectLocalProof}
use dynapp_agent.Grants.{
  has_key, find_identity, replace_identities, upsert_identity, remove_identity, normalize_loop,
  is_valid_identity, is_local, normalize_browser_identities, merge_synced_identities,
  match_direct_local_identity, is_candidate, verify_browser_proof,
}

-- An entry under one key stands under another exactly when the keys are equal.
has_key_same :
    (k o s key_id origin store_id : String) (x : BrowserIdentity)
    → has_key k o s x ≡ true
    → has_key key_id origin store_id x ≡ (k == key_id && (o == origin && s == store_id))
unfolding has_key
has_key_same k o s key_id origin store_id x h =
    let ek : x.key_id ≡ k = (eq_iff x.key_id k).0 (ground arith) in
    let eo : x.origin ≡ o = (eq_iff x.origin o).0 (ground arith) in
    let es : x.store_id ≡ s = (eq_iff x.store_id s).0 (ground arith) in rw (ek, eo, es)

has_key_self : (x : BrowserIdentity) → has_key x.key_id x.origin x.store_id x ≡ true
unfolding has_key
has_key_self x = rw (eq_refl x.key_id, eq_refl x.origin, eq_refl x.store_id)

-- Equality of keys.
pub same_key : String → String → String → String → String → String → Bool
same_key k o s key_id origin store_id = k == key_id && (o == origin && s == store_id)

module _ (key_id origin store_id : String) where
  abbrev at_key : BrowserIdentity → Bool
  at_key = has_key key_id origin store_id

  abbrev own_key : BrowserIdentity → BrowserIdentity → Bool
  own_key identity = has_key identity.key_id identity.origin identity.store_id

  -- Entries under one key stand under the same keys.
  at_key_same :
      (identity x : BrowserIdentity) → own_key identity x ≡ true → at_key x ≡ at_key identity
  at_key_same identity x h =
      has_key_same _ _ _ key_id origin store_id x h
      ∙ sym (has_key_same _ _ _ key_id origin store_id identity (has_key_self identity))

  at_key_both :
      (identity x : BrowserIdentity)
      → at_key identity ≡ true
      → at_key x ≡ true
      → own_key identity x ≡ true
  at_key_both identity x h hx =
      has_key_same key_id origin store_id _ _ _ x hx
      ∙ sym (has_key_same key_id origin store_id _ _ _ identity h)
      ∙ has_key_self identity

  find-replace_identities :
      (identity : BrowserIdentity) (l : List BrowserIdentity)
      → find_identity key_id origin store_id (replace_identities identity l) ≡ (
          if at_key identity && any_of (own_key identity) l
          then some identity
          else find_identity key_id origin store_id l)
  unfolding find_identity replace_identities
  find-replace_identities identity [] = ground arith
  find-replace_identities identity (x ∷ l) =
      ground
        (arith, find-replace_identities identity l, at_key_same identity x, at_key_both identity x)

  find-append :
      (identity : BrowserIdentity) (l : List BrowserIdentity)
      → find_identity key_id origin store_id (l ++ identity ∷ [])
        ≡ elim (find_identity key_id origin store_id l) [
          | none ↦ if at_key identity then some identity else none
          | some found ↦ some found
        ]
  unfolding find_identity
  find-append identity [] = refl
  find-append identity (x ∷ l) = ground (arith, find-append identity l)

  -- No entry stands under a key that none of the entries has.
  find_none :
      (identity : BrowserIdentity) (l : List BrowserIdentity)
      → at_key identity ≡ true
      → any_of (own_key identity) l ≡ false
      → find_identity key_id origin store_id l ≡ none
  unfolding find_identity
  find_none identity [] k h = refl
  find_none identity (x ∷ l) k h = ground (arith, find_none identity l, at_key_both identity x)

  -- After an upsert the identity is found under its own key, and every other key finds what it
  -- found before.
  pub find-upsert_identity :
      (identity : BrowserIdentity) (l : List BrowserIdentity)
      → find_identity key_id origin store_id (upsert_identity identity l) ≡ (
          if has_key key_id origin store_id identity
          then some identity
          else find_identity key_id origin store_id l)
  unfolding upsert_identity
  find-upsert_identity identity l = ground (
    arith,
    find-replace_identities identity l,
    find-append identity (replace_identities identity l),
    find_none identity l,
  )

  remove_same :
      (k o s : String) (x : BrowserIdentity)
      → has_key k o s x ≡ true
      → at_key x ≡ same_key k o s key_id origin store_id
  unfolding same_key
  remove_same k o s x h = has_key_same k o s key_id origin store_id x h

  same_key-has_key :
      (k o s : String) (x : BrowserIdentity)
      → same_key k o s key_id origin store_id ≡ true
      → at_key x ≡ has_key k o s x
  unfolding same_key
  same_key-has_key k o s x h =
      let ek : k ≡ key_id = (eq_iff k key_id).0 (ground arith) in
      let eo : o ≡ origin = (eq_iff o origin).0 (ground arith) in
      let es : s ≡ store_id = (eq_iff s store_id).0 (ground arith) in rw (ek, eo, es)

  -- After a revocation nothing is found under its key, and every other key finds what it found
  -- before.
  pub find-remove_identity :
      (k o s : String) (l : List BrowserIdentity)
      → find_identity key_id origin store_id (remove_identity k o s l) ≡ (
          if same_key k o s key_id origin store_id
          then none
          else find_identity key_id origin store_id l)
  unfolding find_identity remove_identity
  find-remove_identity k o s [] = ground arith
  find-remove_identity k o s (x ∷ l) =
      ground (arith, find-remove_identity k o s l, remove_same k o s x, same_key-has_key k o s x)

module _ {ℓ} (P : BrowserIdentity → Type ℓ) where
  All-replace_identities :
      (identity : BrowserIdentity) (l : List BrowserIdentity)
      → P identity
      → All P l
      → All P (replace_identities identity l)
  unfolding replace_identities
  All-replace_identities identity [] h a = tt
  All-replace_identities identity (x ∷ l) h a =
      elim (Bool-cases (has_key identity.key_id identity.origin identity.store_id x)) [
        | inl e ↦ rw e (h, All-replace_identities identity l h a.1)
        | inr e ↦ rw e (a.0, All-replace_identities identity l h a.1)
      ]

  All-append_one :
      (identity : BrowserIdentity) (l : List BrowserIdentity)
      → P identity
      → All P l
      → All P (l ++ identity ∷ [])
  All-append_one identity [] h a = (h, tt)
  All-append_one identity (x ∷ l) h a = (a.0, All-append_one identity l h a.1)

  -- What holds of every identity, the new one included, holds of every identity after an upsert.
  pub All-upsert_identity :
      (identity : BrowserIdentity) (l : List BrowserIdentity)
      → P identity
      → All P l
      → All P (upsert_identity identity l)
  unfolding upsert_identity
  All-upsert_identity identity l h a =
      let written = All-replace_identities identity l h a in
      elim (Bool-cases (any_of (has_key identity.key_id identity.origin identity.store_id) l)) [
        | inl e ↦ rw e written
        | inr e ↦ rw e (All-append_one identity (replace_identities identity l) h written)
      ]

  pub All-find_identity :
      (k o s : String) (l : List BrowserIdentity) (found : BrowserIdentity)
      → All P l
      → find_identity k o s l ≡ some found
      → P found
  unfolding find_identity
  All-find_identity k o s [] found a h = absurd (ground arith)
  All-find_identity k o s (x ∷ l) found a h = elim (Bool-cases (has_key k o s x)) [
    | inl e ↦
        let got : some x ≡ some found = rw e at h in
        let same : x ≡ found = cc got in subst P same a.0
    | inr e ↦ All-find_identity k o s l found a.1 (rw e at h)
  ]

  All-append : (l r : List BrowserIdentity) → All P l → All P r → All P (l ++ r)
  All-append [] r a b = b
  All-append (x ∷ l) r a b = (a.0, All-append l r a.1 b)

  -- `P` holds of all that a normalisation returns, if it returns a list.
  abbrev AllSome : Option (List BrowserIdentity) → Type ℓ
  AllSome none = Unit
  AllSome (some l) = All P l

  AllSome-cons :
      (x : BrowserIdentity) (rest : Option (List BrowserIdentity))
      → P x
      → AllSome rest
      → AllSome (elim rest [ none ↦ none | some l ↦ some (x ∷ l) ])
  AllSome-cons x none h a = tt
  AllSome-cons x (some l) h a = (h, a)

  module _ (host : Host) where
    AllSome-normalize_loop :
        (seen : List String) (l : List BrowserIdentity)
        → All P l
        → AllSome (normalize_loop host seen l)
    unfolding normalize_loop
    AllSome-normalize_loop seen [] a = tt
    AllSome-normalize_loop seen (x ∷ l) a =
        let key = x.key_id ++ₛ ("\n" ++ₛ (x.origin ++ₛ ("\n" ++ₛ x.store_id))) in
        let keep = AllSome-normalize_loop (key ∷ seen) l a.1 in
        elim (Bool-cases (is_valid_identity host x)) [
          | inr bad ↦ rw bad tt
          | inl good ↦ elim (Bool-cases (string_slice_has seen key)) [
            | inl old ↦ rw (good, old) (AllSome-normalize_loop seen l a.1)
            | inr new ↦
                rw (good, new) (AllSome-cons x (normalize_loop host (key ∷ seen) l) a.0 keep)
          ]
        ]

    merged_or_normal :
        (merged : List BrowserIdentity) (normal : Option (List BrowserIdentity))
        → All P merged
        → AllSome normal
        → All P (elim normal [ none ↦ merged | some l ↦ l ])
    merged_or_normal merged none a b = a
    merged_or_normal merged (some l) a b = b

    -- What holds of the local identities and of the synced ones holds after a sync.
    pub All-merge_synced_identities :
        (existing fresh : List BrowserIdentity)
        → All P existing
        → All P fresh
        → All P (merge_synced_identities host existing fresh)
    unfolding merge_synced_identities normalize_browser_identities
    All-merge_synced_identities existing fresh a b =
        let merged = All-append _ fresh (All-keep_if P (is_local host) existing a) b in
        merged_or_normal _ _ merged (AllSome-normalize_loop [] _ merged)

    -- What holds of every identity holds of the one that a proof matches.
    pub All-match_direct_local_identity :
        (l : List BrowserIdentity) (init : DirectLocalInit) (proof : DirectLocalProof)
        (nonce origin : String) (found : BrowserIdentity)
        → All P l
        → match_direct_local_identity host l init proof nonce origin ≡ some found
        → P found
    unfolding match_direct_local_identity
    All-match_direct_local_identity [] init proof nonce origin found a h =
        absurd (ground (arith, h))
    All-match_direct_local_identity (x ∷ l) init proof nonce origin found a h =
        elim (Bool-cases (
          is_candidate host init proof origin x
          && verify_browser_proof host x nonce proof.origin proof.signature)) [
            | inl e ↦
                let got : some x ≡ some found = rw e at h in
                let same : x ≡ found = cc got in subst P same a.0
            | inr e ↦
                All-match_direct_local_identity l init proof nonce origin found a.1 (rw e at h)
          ]
