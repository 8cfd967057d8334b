-- ===== src/Defense/IngressClass/Tests.antt =====
-- defense/core/ingress-class.ts: an address, a bind and a mapped peer.
use limitmark.Common.{◌≡◌, refl, ◌↔◌, none, some, arith}
use limitmark.Defense.Request.{codes}
use limitmark.Defense.IngressClass.{
  Quad, parse_octet, parse_ipv4, local, peer_class_of, IngressBind, Candidate, bind,
  validate_ingress_bind,
}
use limitmark.Defense.IngressClass.Canonical.{print_ipv4, IsQuad, parse_ipv4-print_ipv4}
use limitmark.Defense.IngressClass.Peers.{
  IsReviewedBind, validate_ingress_bind-IsReviewedBind, mapped, peer_class_of-mapped,
}

abbrev home : Quad
home = record { a = 127; b = 0; c = 20; d = 255 }

home-IsQuad : IsQuad home
home-IsQuad = record { a = omega arith; b = omega arith; c = omega arith; d = omega arith }

home-printed : print_ipv4 home ≡ codes "127.0.20.255"
home-printed = refl

padded-refused : parse_ipv4 (codes "127.0.020.255") ≡ none
unfolding parse_ipv4 parse_octet
padded-refused = refl

parse_ipv4-print_ipv4_example :
    (parse_ipv4 (codes "127.0.20.255") ≡ some home)
    ↔ (IsQuad home × (codes "127.0.20.255" ≡ print_ipv4 home))
parse_ipv4-print_ipv4_example = parse_ipv4-print_ipv4 (codes "127.0.20.255") home

abbrev reviewed : IngressBind
reviewed = record { ip = codes "10.1.2.3"; port = 8080 }

abbrev candidate : Candidate
candidate = bind (some (codes "10.1.2.3")) (some 8080)

reviewed-accepted : validate_ingress_bind candidate ≡ some reviewed
unfolding validate_ingress_bind parse_ipv4 parse_octet
reviewed-accepted = refl

wildcard-refused : validate_ingress_bind (bind (some (codes "0.0.0.0")) (some 8080)) ≡ none
unfolding validate_ingress_bind
wildcard-refused = refl

validate_ingress_bind-IsReviewedBind_example :
    (validate_ingress_bind candidate ≡ some reviewed) ↔ IsReviewedBind candidate reviewed
validate_ingress_bind-IsReviewedBind_example =
    validate_ingress_bind-IsReviewedBind candidate reviewed

peer_class_of-mapped_example :
    (peer_class_of (some (mapped (print_ipv4 home))) none
      ≡ peer_class_of (some (print_ipv4 home)) none)
    × (home.a ≡ 127 → peer_class_of (some (mapped (print_ipv4 home))) none ≡ local)
peer_class_of-mapped_example = peer_class_of-mapped home none home-IsQuad
