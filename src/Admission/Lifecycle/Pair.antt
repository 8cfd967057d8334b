-- ===== src/Admission/Lifecycle/Pair.antt =====
-- workers/admission-service/authority.ts: the releases of an authority over its commands.
use limitmark.Common.{
  ℕ, ◌+◌, ◌≤◌, ◌<◌, ◌≡◌, refl, sym, ◌∙◌, ltb, true, false, Bool-cases, inl, inr, none, some, List,
  [], ◌∷◌, String, str_eq, eq_iff, arith, if◌then◌else◌,
}
use mathlib.Core.Path.{subst}
use limitmark.Admission.Authority.{Release}
use limitmark.Admission.Lifecycle.{
  Rotation, is_release, fresh_release, without_retired, replace_release, rotated_releases,
}

str_eq_refl : (s : String) → str_eq s s ≡ true
str_eq_refl s = (eq_iff s s).1 refl

-- A current release and the previous one, which retires after the current one is active, at most
-- five minutes later.
pub record IsPair (next previous : Release) : Type 0 where
  pub current : next.retired_ms ≡ none
  pub until : ℕ
  pub retires : previous.retired_ms ≡ some until
  pub overlap : (next.activated_ms < until) × (until ≤ next.activated_ms + 300000)
  pub names : str_eq previous.release_id next.release_id ≡ false
  pub keys : str_eq previous.key_id next.key_id ≡ false

unfoldable pub IsReleases : List Release → Type 0
IsReleases [] = Unit
IsReleases (r ∷ []) = r.retired_ms ≡ none
IsReleases (r ∷ q ∷ []) = IsPair r q
IsReleases (r ∷ q ∷ p ∷ rs) = ⊥

abbrev next_release : Rotation → Release
next_release input = fresh_release input.next_release_id input.next_key_id input.activates_at_ms

apart-release :
    (release_id key_id : String) (r : Release)
    → (is_release release_id key_id r ≡ false → str_eq r.release_id release_id ≡ false)
      × (is_release release_id key_id r ≡ false → str_eq r.key_id key_id ≡ false)
apart-release release_id key_id r = (λ h. ground arith, λ h. ground arith)

replace_release-Pair :
    (r : Release) (input : Rotation) (out : List Release)
    → replace_release (r ∷ []) input ≡ some out
    → str_eq r.release_id input.current_release_id ≡ true
    → (input.activates_at_ms < input.previous_retires_at_ms)
      × (input.previous_retires_at_ms ≤ input.activates_at_ms + 300000)
    → (out ≡ next_release input ∷ record r { retired_ms = some input.previous_retires_at_ms } ∷ [])
      × IsReleases out
unfolding replace_release IsReleases
replace_release-Pair r input out e current overlap =
    let after : Release = record r { retired_ms = some input.previous_retires_at_ms } in
    let e1 = rw (current, replace_release) at e in
    let (names, keys) = apart-release input.next_release_id input.next_key_id r in
    elim (Bool-cases (is_release input.next_release_id input.next_key_id r)) [
      | inl taken ↦ absurd (cc (rw taken at e1))
      | inr free ↦
          let made : next_release input ∷ after ∷ [] ≡ out = cc (rw free at e1) in
          (
            sym made,
            subst IsReleases made (record {
              current = refl;
              until = input.previous_retires_at_ms;
              retires = refl;
              overlap = overlap;
              names = names free;
              keys = keys free;
            }),
          )
    ]

-- What a rotation leaves of releases that are in order: the next one, and the one that was current.
pub record IsRotated (before : List Release) (input : Rotation) (out : List Release) : Type 0 where
  pub previous : Release
  pub named : str_eq previous.release_id input.current_release_id ≡ true
  pub was_current : previous.retired_ms ≡ none
  pub after :
      out
      ≡ next_release input ∷ record previous { retired_ms = some input.previous_retires_at_ms } ∷ []
  pub ordered : IsReleases out

rotated-one :
    (r : Release) (input : Rotation)
    → r.retired_ms ≡ none
    → str_eq r.release_id input.current_release_id ≡ true
    → rotated_releases (r ∷ []) input ≡ replace_release (r ∷ []) input
unfolding rotated_releases
rotated-one r input v same = rw (same, rotated_releases) (rw v refl)

module _ (r q : Release) (input : Rotation) (v : IsPair r q) where
  left-two :
      without_retired (r ∷ q ∷ []) input.activates_at_ms
      ≡ (if ltb input.activates_at_ms (v.until + 720000) then none else some (r ∷ []))
  left-two = ground (arith, v.current, v.retires, str_eq_refl q.release_id)

  rotated-recent :
      ltb input.activates_at_ms (v.until + 720000) ≡ true
      → rotated_releases (r ∷ q ∷ []) input ≡ none
  unfolding rotated_releases
  rotated-recent recent = rw (left-two, rotated_releases) (rw recent refl)

  rotated-other :
      ltb input.activates_at_ms (v.until + 720000) ≡ false
      → str_eq r.release_id input.current_release_id ≡ false
      → rotated_releases (r ∷ q ∷ []) input ≡ none
  unfolding rotated_releases
  rotated-other old other =
      rw (left-two, rotated_releases) (rw old (rw other (rw v.retires (ground arith))))

  rotated-two :
      ltb input.activates_at_ms (v.until + 720000) ≡ false
      → str_eq r.release_id input.current_release_id ≡ true
      → rotated_releases (r ∷ q ∷ []) input ≡ replace_release (r ∷ []) input
  unfolding rotated_releases
  rotated-two old same = rw (left-two, rotated_releases) (rw old (rw same (rw v.current refl)))

pub rotated_releases-IsRotated :
    (before : List Release) (input : Rotation) (out : List Release)
    → IsReleases before
    → (input.activates_at_ms < input.previous_retires_at_ms)
      × (input.previous_retires_at_ms ≤ input.activates_at_ms + 300000)
    → rotated_releases before input ≡ some out
    → IsRotated before input out
unfolding rotated_releases IsReleases
rotated_releases-IsRotated [] input out v overlap e = absurd cc
rotated_releases-IsRotated (r ∷ []) input out v overlap e =
    elim (Bool-cases (str_eq r.release_id input.current_release_id)) [
      | inr other ↦ absurd (cc (rw (other, rotated_releases) at e))
      | inl same ↦
          let replaced = sym (rotated-one r input v same) ∙ e in
          let (after, ordered) = replace_release-Pair r input out replaced same overlap in
          record { previous = r; named = same; was_current = v; after = after; ordered = ordered }
    ]
rotated_releases-IsRotated (r ∷ q ∷ []) input out v overlap e =
    elim (Bool-cases (ltb input.activates_at_ms (v.until + 720000))) [
      | inl recent ↦ absurd (cc (sym (rotated-recent r q input v recent) ∙ e))
      | inr old ↦ elim (Bool-cases (str_eq r.release_id input.current_release_id)) [
        | inr other ↦ absurd (cc (sym (rotated-other r q input v old other) ∙ e))
        | inl same ↦
            let replaced = sym (rotated-two r q input v old same) ∙ e in
            let (after, ordered) = replace_release-Pair r input out replaced same overlap in
            record {
              previous = r;
              named = same;
              was_current = v.current;
              after = after;
              ordered = ordered;
            }
      ]
    ]
rotated_releases-IsRotated (r ∷ q ∷ p ∷ rs) input out v overlap e = elim v [ ]
