-- ===== src/Defense/IngressClass/Peers.antt =====
-- defense/core/ingress-class.ts: which binds are accepted, and which peers are local.
use limitmark.Common.{
  ℕ, ◌≤◌, ◌<◌, ◌≡◌, ◌≢◌, refl, sym, ap, ◌∙◌, ◌↔◌, leb, ltb, ◌==◌, ==_iff, not, Bool, true, false,
  ◌&&◌, ◌||◌, Bool-cases, inl, inr, Option, none, some, Option-cases, List, [], ◌∷◌, ◌++◌, any, all,
  arith,
}
use mathlib.Core.Path.{subst}
use limitmark.Defense.Request.{codes, strip_prefix}
use limitmark.Defense.Enrollment.{lower, same_text}
use limitmark.Defense.IngressClass.{
  Quad, parse_octet, parse_ipv4, normalize, is_loopback_address, local, class_by, peer_class_of,
  IngressBind, Candidate, other_value, bind, wildcards, refused_quad, validate_ingress_bind, dot,
  unmapped,
}
use limitmark.Defense.IngressClass.Canonical.{
  print_octet, print_ipv4, IsQuad, parse_ipv4-print_ipv4,
}

-- A bind that names one reviewed address and one port.
pub record IsReviewedBind (candidate : Candidate) (b : IngressBind) : Type 0 where
  pub quad : Quad
  pub small : IsQuad quad
  pub given : candidate ≡ bind (some b.ip) (some b.port)
  pub printed : b.ip ≡ print_ipv4 quad
  pub unicast : (1 ≤ quad.a) × (quad.a ≤ 223)
  pub routed : quad.a ≡ 169 → quad.b ≢ 254
  pub fixed : (1 ≤ b.port) × (b.port ≤ 65535)

same_text-eq : (s t : List ℕ) → same_text s t ≡ true → s ≡ t
same_text-eq [] [] h = refl
same_text-eq (c ∷ cs) [] h = absurd cc
same_text-eq [] (d ∷ ds) h = absurd cc
same_text-eq (c ∷ cs) (d ∷ ds) h =
    let head : c ≡ d = ground arith in let rest : cs ≡ ds = same_text-eq cs ds (ground arith) in cc

same-quad :
    (ip text : List ℕ) (q w : Quad)
    → parse_ipv4 ip ≡ some q
    → same_text ip text ≡ true
    → parse_ipv4 text ≡ some w
    → w ≡ q
same-quad ip text q w e h f =
    let same : some w ≡ some q = sym f ∙ ap parse_ipv4 (sym (same_text-eq ip text h)) ∙ e in cc

-- The two wildcards are refused by their numbers as well.
wildcard-refused :
    (q : Quad) (ip : List ℕ)
    → parse_ipv4 ip ≡ some q
    → any (same_text ip) wildcards ≡ true
    → refused_quad q ≡ true
unfolding parse_ipv4 parse_octet
wildcard-refused q ip e h = elim (Bool-cases (same_text ip (codes "0.0.0.0"))) [
  | inl zeros ↦
      let w : Quad = record { a = 0; b = 0; c = 0; d = 0 } in
      sym (ap refused_quad (same-quad ip (codes "0.0.0.0") q w e zeros refl))
  | inr other ↦
      let w : Quad = record { a = 255; b = 255; c = 255; d = 255 } in
      let ones : same_text ip (codes "255.255.255.255") ≡ true = ground arith in
      sym (ap refused_quad (same-quad ip (codes "255.255.255.255") q w e ones refl))
]

in_range : (port : ℕ) → ((ltb port 1 || ltb 65535 port) ≡ false) ↔ ((1 ≤ port) × (port ≤ 65535))
in_range port = (λ h. (ground arith, ground arith), λ h. ground arith)

allowed-quad : (q : Quad) → 1 ≤ q.a → q.a ≤ 223 → (q.a ≡ 169 → q.b ≢ 254) → refused_quad q ≡ false
allowed-quad q low high routed = ground arith

unicast-quad :
    (q : Quad) → refused_quad q ≡ false → ((1 ≤ q.a) × (q.a ≤ 223)) × (q.a ≡ 169 → q.b ≢ 254)
unicast-quad q h = ((ground arith, ground arith), λ at b. ground arith)

accepts-IsReviewed :
    (ip : List ℕ) (port : ℕ) (b : IngressBind)
    → validate_ingress_bind (bind (some ip) (some port)) ≡ some b
    → IsReviewedBind (bind (some ip) (some port)) b
unfolding validate_ingress_bind
accepts-IsReviewed ip port b e = elim (Bool-cases (any (same_text ip) wildcards)) [
  | inl wild ↦ absurd (cc (rw (wild, validate_ingress_bind) at e))
  | inr plain ↦
      let e1 = rw (plain, validate_ingress_bind) at e in
      elim (Option-cases (parse_ipv4 ip)) [
        | inl malformed ↦ absurd (cc (rw malformed at e1))
        | inr (q, parsed) ↦
            let e2 = rw parsed at e1 in
            elim (Bool-cases (refused_quad q)) [
              | inl refused ↦ absurd (cc (rw refused at e2))
              | inr allowed ↦
                  let e3 = rw allowed at e2 in
                  elim (Bool-cases (ltb port 1 || ltb 65535 port)) [
                    | inl range ↦ absurd (cc (rw range at e3))
                    | inr fixed ↦
                        let made : IngressBind = record { ip = ip; port = port } in
                        let same : made ≡ b = cc (rw fixed at e3) in
                        let (small, printed) = (parse_ipv4-print_ipv4 ip q).0 parsed in
                        subst (IsReviewedBind (bind (some ip) (some port))) same (record {
                          quad = q;
                          small = small;
                          given = refl;
                          printed = printed;
                          unicast = (unicast-quad q allowed).0;
                          routed = (unicast-quad q allowed).1;
                          fixed = (in_range port).0 fixed;
                        })
                  ]
            ]
      ]
]

IsReviewed-accepts :
    (candidate : Candidate) (b : IngressBind)
    → IsReviewedBind candidate b
    → validate_ingress_bind candidate ≡ some b
unfolding validate_ingress_bind
IsReviewed-accepts candidate b v =
    let q = v.quad in
    let parsed = (parse_ipv4-print_ipv4 b.ip q).1 (v.small, v.printed) in
    let allowed = allowed-quad q v.unicast.0 v.unicast.1 v.routed in
    let plain : any (same_text b.ip) wildcards ≡ false =
      elim (Bool-cases (any (same_text b.ip) wildcards)) [
        | inl wild ↦ absurd (cc (sym allowed ∙ wildcard-refused q b.ip parsed wild))
        | inr plain ↦ plain
      ] in
    let fixed : (ltb b.port 1 || ltb 65535 b.port) ≡ false = (in_range b.port).1 v.fixed in
    rw (v.given, validate_ingress_bind) (rw plain (rw parsed (rw allowed (rw fixed refl))))

-- A bind is accepted exactly when it is the decimal spelling of a unicast IPv4 address that is not
-- link-local, with a port from 1 to 65535; so no wildcard, name, IPv6 literal or port 0 is.
pub validate_ingress_bind-IsReviewedBind :
    (candidate : Candidate) (b : IngressBind)
    → (validate_ingress_bind candidate ≡ some b) ↔ IsReviewedBind candidate b
unfolding validate_ingress_bind
validate_ingress_bind-IsReviewedBind other_value b =
    (λ e. absurd cc, IsReviewed-accepts other_value b)
validate_ingress_bind-IsReviewedBind (bind none port) b =
    (λ e. absurd cc, IsReviewed-accepts (bind none port) b)
validate_ingress_bind-IsReviewedBind (bind (some ip) none) b =
    (λ e. absurd cc, IsReviewed-accepts (bind (some ip) none) b)
validate_ingress_bind-IsReviewedBind (bind (some ip) (some port)) b =
    (accepts-IsReviewed ip port b, IsReviewed-accepts (bind (some ip) (some port)) b)

-- The IPv4-mapped spelling of an address.
abbrev pub mapped : List ℕ → List ℕ
mapped text = codes "::ffff:" ++ text

plain_text : List ℕ → Bool
plain_text text = all (λ c. leb 46 c && ltb c 58) text

lower-plain : (text : List ℕ) → plain_text text ≡ true → lower text ≡ text
unfolding lower plain_text
lower-plain [] h = refl
lower-plain (c ∷ text) h =
    let rest = lower-plain text (ground arith) in
    let small : (leb 0x41 c && leb c 0x5a || leb 0xc0 c && leb c 0xde && not (c == 0xd7)) ≡ false =
      ground arith in
    rw small (ap (λ t. c ∷ t) rest)

plain_text-append :
    (s t : List ℕ) → plain_text s ≡ true → plain_text t ≡ true → plain_text (s ++ t) ≡ true
unfolding plain_text
plain_text-append [] t h k = k
plain_text-append (c ∷ s) t h k = ground (arith, plain_text-append s t)

plain_text-print_octet : (n : ℕ) → n < 1000 → plain_text (print_octet n) ≡ true
unfolding plain_text
plain_text-print_octet n h = elim (Bool-cases (ltb n 10)) [
  | inl one ↦ rw one (ground arith)
  | inr more ↦ elim (Bool-cases (ltb n 100)) [
    | inl two ↦ rw (more, two) (ground arith)
    | inr three ↦ rw (more, three) (ground arith)
  ]
]

dot_plain : plain_text (dot ∷ []) ≡ true
unfolding plain_text
dot_plain = refl

plain_text-print_ipv4 : (q : Quad) → IsQuad q → plain_text (print_ipv4 q) ≡ true
plain_text-print_ipv4 q v =
    let d = print_octet q.d in
    let c = print_octet q.c ++ (dot ∷ d) in
    let b = print_octet q.b ++ (dot ∷ c) in
    let pd = plain_text-print_octet q.d (omega (arith, v.d)) in
    let pc =
      plain_text-append (print_octet q.c) (dot ∷ d)
        (plain_text-print_octet q.c (omega (arith, v.c)))
        (plain_text-append (dot ∷ []) d dot_plain pd) in
    let pb =
      plain_text-append (print_octet q.b) (dot ∷ c)
        (plain_text-print_octet q.b (omega (arith, v.b)))
        (plain_text-append (dot ∷ []) c dot_plain pc) in
    plain_text-append (print_octet q.a) (dot ∷ b) (plain_text-print_octet q.a (omega (arith, v.a)))
      (plain_text-append (dot ∷ []) b dot_plain pb)

normalize-mapped :
    (q : Quad) → IsQuad q → normalize (some (mapped (print_ipv4 q))) ≡ some (print_ipv4 q)
unfolding normalize lower strip_prefix
normalize-mapped q v =
    let parsed = (parse_ipv4-print_ipv4 (print_ipv4 q) q).1 (v, refl) in
    rw (lower-plain (print_ipv4 q) (plain_text-print_ipv4 q v)) (rw (parsed, unmapped) refl)

normalize-plain :
    (text : List ℕ) → text ≢ [] → plain_text text ≡ true → normalize (some text) ≡ some text
unfolding normalize strip_prefix plain_text
normalize-plain [] apart h = absurd (apart refl)
normalize-plain (c ∷ text) apart h =
    let small : (c == 58) ≡ false = ground arith in rw (lower-plain (c ∷ text) h) (rw small refl)

print_ipv4-NotEmpty : (q : Quad) → print_ipv4 q ≢ []
print_ipv4-NotEmpty q e = nonempty (print_octet q.a) _ e
  where
    nonempty : (s t : List ℕ) → s ++ (dot ∷ t) ≢ []
    nonempty [] t e = absurd cc
    nonempty (c ∷ s) t e = absurd cc

home-IsLoopback : (q : Quad) → IsQuad q → q.a ≡ 127 → is_loopback_address (print_ipv4 q) ≡ true
unfolding is_loopback_address
home-IsLoopback q v home = elim (Bool-cases (same_text (print_ipv4 q) (codes "::1"))) [
  | inl six ↦ rw (six, is_loopback_address) refl
  | inr four ↦
      let parsed = (parse_ipv4-print_ipv4 (print_ipv4 q) q).1 (v, refl) in
      rw (four, is_loopback_address) (rw parsed ((==_iff q.a 127).1 home))
]

-- The IPv4-mapped spelling of a peer's address has the class of the plain spelling, and an address
-- of 127.0.0.0/8 is local in both.
pub peer_class_of-mapped :
    (q : Quad) (own : Option (List ℕ))
    → IsQuad q
    → (peer_class_of (some (mapped (print_ipv4 q))) own ≡ peer_class_of (some (print_ipv4 q)) own)
      × (q.a ≡ 127 → peer_class_of (some (mapped (print_ipv4 q))) own ≡ local)
unfolding peer_class_of
peer_class_of-mapped q own v =
    let text = print_ipv4 q in
    let plain = normalize-plain text (print_ipv4-NotEmpty q) (plain_text-print_ipv4 q v) in
    (
      ap (λ p. class_by p (normalize own)) (normalize-mapped q v ∙ sym plain),
      λ home.
          ap (λ p. class_by p (normalize own)) (normalize-mapped q v)
          ∙ rw (home-IsLoopback q v home) refl,
    )
