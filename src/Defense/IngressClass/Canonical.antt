-- ===== src/Defense/IngressClass/Canonical.antt =====
-- defense/core/ingress-class.ts: the parser of addresses against the way an address is printed.
use limitmark.Common.{
  ℕ, ◌+◌, ◌/◌, ◌%◌, ◌≤◌, ◌<◌, ◌≡◌, refl, sym, ap, ◌∙◌, ◌↔◌, leb, ltb, ◌==◌, ==_iff, not,
  if◌then◌else◌, Bool, true, false, ◌&&◌, Bool-cases, inl, inr, Option, none, some, List, [], ◌∷◌,
  ◌++◌, all, arith,
}
use limitmark.Defense.IngressClass.{
  Quad, dot, parse_octet, split_dots, quad_of, quad_parts, parse_ipv4,
}

-- The decimal digits of a number below 1000.
abbrev pub print_octet : ℕ → List ℕ
print_octet n =
    if ltb n 10
    then (48 + n) ∷ []
    else if ltb n 100
    then (48 + n / 10) ∷ (48 + n % 10) ∷ []
    else (48 + n / 100) ∷ (48 + n / 10 % 10) ∷ (48 + n % 10) ∷ []

-- `a.b.c.d`.
abbrev pub print_ipv4 : Quad → List ℕ
print_ipv4 q =
    print_octet q.a
    ++ (dot ∷ (print_octet q.b ++ (dot ∷ (print_octet q.c ++ (dot ∷ print_octet q.d)))))

pub record IsQuad (q : Quad) : Type 0 where
  pub a : q.a ≤ 255
  pub b : q.b ≤ 255
  pub c : q.c ≤ 255
  pub d : q.d ≤ 255

parse_octet-print_octet : (n : ℕ) → n < 1000 → parse_octet (print_octet n) ≡ some n
unfolding parse_octet
parse_octet-print_octet n h = elim (Bool-cases (ltb n 10)) [
  | inl one ↦ rw one (ground arith)
  | inr more ↦ elim (Bool-cases (ltb n 100)) [
    | inl two ↦ rw (more, two) (ground arith)
    | inr three ↦ rw (more, three) (ground arith)
  ]
]

print_octet-parse_octet : (text : List ℕ) (n : ℕ) → parse_octet text ≡ some n → text ≡ print_octet n
unfolding parse_octet
print_octet-parse_octet [] n e = absurd cc
print_octet-parse_octet (x ∷ []) n e = ground arith
print_octet-parse_octet (x ∷ y ∷ []) n e = ground arith
print_octet-parse_octet (x ∷ y ∷ z ∷ []) n e = ground arith
print_octet-parse_octet (x ∷ y ∷ z ∷ w ∷ text) n e = absurd cc

no_dot : List ℕ → Bool
no_dot text = all (λ c. not (c == dot)) text

print_octet-no_dot : (n : ℕ) → n < 1000 → no_dot (print_octet n) ≡ true
unfolding no_dot
print_octet-no_dot n h = elim (Bool-cases (ltb n 10)) [
  | inl one ↦ rw one (ground arith)
  | inr more ↦ elim (Bool-cases (ltb n 100)) [
    | inl two ↦ rw (more, two) (ground arith)
    | inr three ↦ rw (more, three) (ground arith)
  ]
]

split_dots-last : (part : List ℕ) → no_dot part ≡ true → split_dots part ≡ (part, [])
unfolding no_dot
split_dots-last [] h = refl
split_dots-last (c ∷ part) h =
    let other : (c == dot) ≡ false = ground arith in
    rw other (rw (split_dots-last part (ground arith)) refl)

split_dots-append :
    (part text : List ℕ)
    → no_dot part ≡ true
    → split_dots (part ++ (dot ∷ text)) ≡ (part, (split_dots text).0 ∷ (split_dots text).1)
unfolding no_dot
split_dots-append [] text h = refl
split_dots-append (c ∷ part) text h =
    let other : (c == dot) ≡ false = ground arith in
    rw other (rw (split_dots-append part text (ground arith)) refl)

join : List ℕ → List (List ℕ) → List ℕ
join part [] = part
join part (next ∷ parts) = part ++ (dot ∷ join next parts)

join-split_dots : (text : List ℕ) → join (split_dots text).0 (split_dots text).1 ≡ text
unfolding join
join-split_dots [] = refl
join-split_dots (c ∷ text) = elim (Bool-cases (c == dot)) [
  | inl here ↦
      let same : dot ≡ c = sym ((==_iff c dot).0 here) in
      rw here (ap (λ t. dot ∷ t) (join-split_dots text) ∙ ap (λ d. d ∷ text) same)
  | inr other ↦
      rw other
        (join-cons (split_dots text).0 (split_dots text).1 ∙ ap (λ t. c ∷ t) (join-split_dots text))
]
  where
    join-cons :
        (part : List ℕ) (parts : List (List ℕ)) → join (c ∷ part) parts ≡ c ∷ join part parts
    join-cons part [] = refl
    join-cons part (next ∷ parts) = refl

quad_of-IsQuad :
    (q : Quad) → IsQuad q → quad_of (some q.a) (some q.b) (some q.c) (some q.d) ≡ some q
quad_of-IsQuad q v = ground (arith, v.a, v.b, v.c, v.d)

prints : (text : List ℕ) (q : Quad) → IsQuad q → text ≡ print_ipv4 q → parse_ipv4 text ≡ some q
unfolding parse_ipv4
prints text q v e =
    let na = print_octet-no_dot q.a (omega (arith, v.a)) in
    let nb = print_octet-no_dot q.b (omega (arith, v.b)) in
    let nc = print_octet-no_dot q.c (omega (arith, v.c)) in
    let nd = print_octet-no_dot q.d (omega (arith, v.d)) in
    let last = split_dots-last (print_octet q.d) nd in
    let third = split_dots-append (print_octet q.c) (print_octet q.d) nc in
    let second =
      split_dots-append (print_octet q.b) (print_octet q.c ++ (dot ∷ print_octet q.d)) nb in
    let first =
      split_dots-append (print_octet q.a)
        (print_octet q.b ++ (dot ∷ (print_octet q.c ++ (dot ∷ print_octet q.d)))) na in
    rw (e, parse_ipv4)
      (rw first (
        rw second (
          rw third (
            rw last (
              rw (parse_octet-print_octet q.a (omega (arith, v.a))) (
                rw (parse_octet-print_octet q.b (omega (arith, v.b))) (
                  rw (parse_octet-print_octet q.c (omega (arith, v.c))) (
                    rw (parse_octet-print_octet q.d (omega (arith, v.d)))
                      (quad_of-IsQuad q v)))))))))

octets-le :
    (a b c d : ℕ)
    → (leb a 255 && leb b 255 && leb c 255 && leb d 255) ≡ true
    → (a ≤ 255) × (b ≤ 255) × (c ≤ 255) × (d ≤ 255)
octets-le a b c d h = (ground arith, ground arith, ground arith, ground arith)

quad_of-read :
    (a b c d : Option ℕ) (q : Quad)
    → quad_of a b c d ≡ some q
    → IsQuad q × (a ≡ some q.a) × (b ≡ some q.b) × (c ≡ some q.c) × (d ≡ some q.d)
quad_of-read none b c d q e = absurd cc
quad_of-read (some a) none c d q e = absurd cc
quad_of-read (some a) (some b) none d q e = absurd cc
quad_of-read (some a) (some b) (some c) none q e = absurd cc
quad_of-read (some a) (some b) (some c) (some d) q e =
    elim (Bool-cases (leb a 255 && leb b 255 && leb c 255 && leb d 255)) [
      | inr big ↦ absurd (cc (rw big at e))
      | inl small ↦
          let read : Quad = record { a = a; b = b; c = c; d = d } in
          let same : read ≡ q = cc (rw small at e) in
          let ea : a ≡ q.a = ap (λ t. t.a) same in
          let eb : b ≡ q.b = ap (λ t. t.b) same in
          let ec : c ≡ q.c = ap (λ t. t.c) same in
          let ed : d ≡ q.d = ap (λ t. t.d) same in
          let (la, lb, lc, ld) = octets-le a b c d small in
          (
            record {
              a = omega (arith, ea, la);
              b = omega (arith, eb, lb);
              c = omega (arith, ec, lc);
              d = omega (arith, ed, ld);
            },
            ap some ea,
            ap some eb,
            ap some ec,
            ap some ed,
          )
    ]

quad_parts-read :
    (part : List ℕ) (parts : List (List ℕ)) (q : Quad)
    → quad_parts (part, parts) ≡ some q
    → IsQuad q × (join part parts ≡ print_ipv4 q)
unfolding join
quad_parts-read part (p ∷ r ∷ s ∷ []) q e =
    let (v, ea, eb, ec, ed) =
      quad_of-read (parse_octet part) (parse_octet p) (parse_octet r) (parse_octet s) q e in
    (
      v,
      rw
          (
            print_octet-parse_octet part q.a ea,
            print_octet-parse_octet p q.b eb,
            print_octet-parse_octet r q.c ec,
            print_octet-parse_octet s q.d ed,
          )
          refl,
    )
quad_parts-read part [] q e = absurd cc
quad_parts-read part (p ∷ []) q e = absurd cc
quad_parts-read part (p ∷ r ∷ []) q e = absurd cc
quad_parts-read part (p ∷ r ∷ s ∷ t ∷ parts) q e = absurd cc

-- A text parses to an address exactly when the four numbers are at most 255 and the text is how
-- the address is printed: in decimal, with no leading zero and nothing around it.
pub parse_ipv4-print_ipv4 :
    (text : List ℕ) (q : Quad) → (parse_ipv4 text ≡ some q) ↔ (IsQuad q × (text ≡ print_ipv4 q))
unfolding parse_ipv4
parse_ipv4-print_ipv4 text q = (
  λ e.
      let (v, printed) = quad_parts-read (split_dots text).0 (split_dots text).1 q e in
      (v, sym (join-split_dots text) ∙ printed),
  λ (v, e). prints text q v e,
)
