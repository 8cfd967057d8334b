-- ===== src/Defense/Enrollment/Search.antt =====
-- defense/core/enrollment.ts: what the searches of a buffer find.
use limitmark.Common.{
  ℕ, suc, zero, ◌+◌, ◌-◌, ◌≤◌, ◌<◌, ◌≡◌, refl, sym, ap, ◌∙◌, leb, true, ◌&&◌, Bool-cases, inl, inr,
  none, some, List, [], ◌∷◌, ◌++◌, arith, length, take, drop,
}
use limitmark.Defense.Enrollment.{
  has_prefix, index_of, index_from, last_index_of, last_index_from, compare_at,
}

pub has_prefix-append :
    (needle text : List ℕ)
    → has_prefix needle text ≡ true
    → text ≡ needle ++ drop (length needle) text
has_prefix-append [] text h = refl
has_prefix-append (p ∷ ps) [] h = absurd cc
has_prefix-append (p ∷ ps) (c ∷ text) h =
    let same : c ≡ p = ground arith in
    let rest : text ≡ ps ++ drop (length ps) text = has_prefix-append ps text (ground arith) in cc

drop-empty : (n : ℕ) → drop {A = ℕ} n [] ≡ []
drop-empty zero = refl
drop-empty (suc n) = refl

pub drop_add : (a b : ℕ) (xs : List ℕ) → drop (a + b) xs ≡ drop b (drop a xs)
drop_add zero b xs = ap (λ n. drop n xs) (omega arith)
drop_add (suc a) b [] = drop-empty (suc a + b) ∙ sym (drop-empty b)
drop_add (suc a) b (x ∷ xs) =
    let next : suc a + b ≡ suc (a + b) = omega arith in
    ap (λ n. drop n (x ∷ xs)) next ∙ drop_add a b xs

pub take-drop : (n : ℕ) (xs : List ℕ) → take n xs ++ drop n xs ≡ xs
take-drop zero xs = refl
take-drop (suc n) [] = refl
take-drop (suc n) (x ∷ xs) = ap (λ t. x ∷ t) (take-drop n xs)

pub length-take : (n : ℕ) (xs : List ℕ) → n ≤ length xs → length (take n xs) ≡ n
length-take zero xs h = refl
length-take (suc n) [] h = absurd (omega arith)
length-take (suc n) (x ∷ xs) h = omega (arith, length-take n xs (omega arith))

pub length-drop : (n : ℕ) (xs : List ℕ) → length (drop n xs) ≡ length xs - n
length-drop zero xs = omega arith
length-drop (suc n) [] = omega arith
length-drop (suc n) (x ∷ xs) = omega (arith, length-drop n xs)

has_prefix-length :
    (needle text : List ℕ) → has_prefix needle text ≡ true → length needle ≤ length text
has_prefix-length [] text h = omega arith
has_prefix-length (p ∷ ps) [] h = absurd cc
has_prefix-length (p ∷ ps) (c ∷ text) h = ground (arith, has_prefix-length ps text)

-- A position found is not before the start, and the needle stands there.
index_from-Found :
    (needle text : List ℕ) (at from p : ℕ)
    → index_from needle text at from ≡ some p
    → (at ≤ p)
      × (from ≤ p)
      × (has_prefix needle (drop (p - at) text) ≡ true)
      × (p + length needle ≤ at + length text)
index_from-Found needle [] at from p e = absurd cc
index_from-Found needle (c ∷ text) at from p e =
    elim (Bool-cases (leb from at && has_prefix needle (c ∷ text))) [
      | inl here ↦
          let same : at ≡ p = ground arith in
          let none_between : p - at ≡ 0 = omega arith in
          rw none_between (
            omega arith,
            ground arith,
            ground arith,
            ground (arith, has_prefix-length needle (c ∷ text)),
          )
      | inr later ↦
          let found : index_from needle text (suc at) from ≡ some p = ground arith in
          let (a, b, c, d) = index_from-Found needle text (suc at) from p found in
          let step : p - at ≡ suc (p - suc at) = omega arith in
          rw step (omega arith, b, c, omega arith)
    ]

pub index_of-Found :
    (body needle : List ℕ) (from p : ℕ)
    → index_of body needle from ≡ some p
    → (from ≤ p) × (has_prefix needle (drop p body) ≡ true) × (p + length needle ≤ length body)
unfolding index_of
index_of-Found body needle from p e =
    let (a, b, c, d) = index_from-Found needle body 0 from p e in
    let whole : p - 0 ≡ p = omega arith in (b, rw whole at c, omega arith)

last_index_from-le :
    (needle text : List ℕ) (at upto p : ℕ) → last_index_from needle text at upto ≡ some p → p ≤ upto
last_index_from-le needle [] at upto p e = absurd cc
last_index_from-le needle (c ∷ text) at upto p e =
    ground (arith, last_index_from-le needle text (suc at) upto p)

pub last_index_of-le :
    (body needle : List ℕ) (upto p : ℕ) → last_index_of body needle upto ≡ some p → p ≤ upto
unfolding last_index_of
last_index_of-le body needle upto p e = last_index_from-le needle body 0 upto p e

-- `compare` raises an exception exactly for a range that ends behind the buffer.
pub compare_at-inside :
    (body target : List ℕ) (start : ℕ)
    → start + length target ≤ length body
    → compare_at body target start ≡ some (has_prefix target (drop start body))
unfolding compare_at
compare_at-inside body target start h = ground arith

pub compare_at-outside :
    (body target : List ℕ) (start : ℕ)
    → length body < start + length target
    → compare_at body target start ≡ none
unfolding compare_at
compare_at-outside body target start h = ground arith
