-- ===== src/Defense/IngressClass.antt =====
-- defense/core/ingress-class.ts: the class of a peer and the reviewed bind. An address is the list
-- of its latin-1 codes; `none` is an address that is absent, or a refused bind.
pub mod Canonical
pub mod Peers
mod Tests
use limitmark.Common.{
  ℕ, ◌+◌, ◌-◌, ◌*◌, leb, ltb, ◌==◌, not, if◌then◌else◌, Bool, true, false, ◌&&◌, ◌||◌, Option, none,
  some, List, [], ◌∷◌, any,
}
use limitmark.Defense.Request.{codes, strip_prefix}
use limitmark.Defense.Enrollment.{lower, same_text}

pub record Quad : Type 0 where
  pub a : ℕ
  pub b : ℕ
  pub c : ℕ
  pub d : ℕ

abbrev is_digit : ℕ → Bool
is_digit c = leb 48 c && leb c 57

abbrev digit : ℕ → ℕ
digit c = c - 48

-- `(0|[1-9][0-9]{0,2})`, as a number.
pub parse_octet : List ℕ → Option ℕ
parse_octet (x ∷ []) = if is_digit x then some (digit x) else none
parse_octet (x ∷ y ∷ []) =
    if is_digit x && not (x == 48) && is_digit y then some (digit x * 10 + digit y) else none
parse_octet (x ∷ y ∷ z ∷ []) =
    if is_digit x && not (x == 48) && is_digit y && is_digit z
    then some (digit x * 100 + digit y * 10 + digit z)
    else none
parse_octet text = none

abbrev dot : ℕ
dot = 46

-- The text before the first dot, and the texts behind the dots.
abbrev pub split_dots : List ℕ → List ℕ × List (List ℕ)
split_dots [] = ([], [])
split_dots (c ∷ text) =
    let (part, parts) = split_dots text in
    if c == dot then ([], part ∷ parts) else (c ∷ part, parts)

abbrev quad_of : Option ℕ → Option ℕ → Option ℕ → Option ℕ → Option Quad
quad_of (some a) (some b) (some c) (some d) =
    if leb a 255 && leb b 255 && leb c 255 && leb d 255
    then some (record { a = a; b = b; c = c; d = d })
    else none
quad_of _ _ _ _ = none

abbrev quad_parts : List ℕ × List (List ℕ) → Option Quad
quad_parts (p, q ∷ r ∷ s ∷ []) =
    quad_of (parse_octet p) (parse_octet q) (parse_octet r) (parse_octet s)
quad_parts parts = none

-- The groups of the pattern hold no dot, so they are the texts between the dots.
pub parse_ipv4 : List ℕ → Option Quad
unfolding parse_octet
parse_ipv4 text = quad_parts (split_dots text)

abbrev unmapped : List ℕ → Option (List ℕ) → List ℕ
unmapped text none = text
unmapped text (some rest) = elim (parse_ipv4 rest) [ none ↦ text | some q ↦ rest ]

-- The address as the kernel spells it.
pub normalize : Option (List ℕ) → Option (List ℕ)
normalize none = none
normalize (some []) = none
normalize (some (c ∷ text)) =
    let known = lower (c ∷ text) in some (unmapped known (strip_prefix (codes "::ffff:") known))

pub is_loopback_address : List ℕ → Bool
unfolding parse_ipv4
is_loopback_address address =
    if same_text address (codes "::1")
    then true
    else elim (parse_ipv4 address) [ none ↦ false | some q ↦ q.a == 127 ]

pub data PeerClass : Type 0 where
  local remote : PeerClass

-- The class of a peer, by the two addresses as the kernel spells them.
abbrev pub class_by : Option (List ℕ) → Option (List ℕ) → PeerClass
class_by none own = remote
class_by (some peer) own =
    if is_loopback_address peer
    then local
    else elim own [ none ↦ remote | some text ↦ if same_text peer text then local else remote ]

pub peer_class_of : Option (List ℕ) → Option (List ℕ) → PeerClass
unfolding normalize is_loopback_address
peer_class_of remote_address local_address =
    class_by (normalize remote_address) (normalize local_address)

pub record IngressBind : Type 0 where
  pub ip : List ℕ
  pub port : ℕ

-- What is handed in as a bind: an object with exactly the keys `ip` and `port`, where `none` is a
-- value that is no string or no natural number, or any other value.
pub data Candidate : Type 0 where
  other_value : Candidate
  bind : Option (List ℕ) → Option ℕ → Candidate

abbrev wildcards : List (List ℕ)
wildcards = codes "0.0.0.0" ∷ codes "255.255.255.255" ∷ []

abbrev refused_quad : Quad → Bool
refused_quad q = q.a == 0 || leb 224 q.a || q.a == 169 && q.b == 254

pub validate_ingress_bind : Candidate → Option IngressBind
unfolding parse_ipv4
validate_ingress_bind (bind (some ip) (some port)) =
    if any (same_text ip) wildcards then none else elim (parse_ipv4 ip) [
      | none ↦ none
      | some q ↦
          if refused_quad q
          then none
          else if ltb port 1 || ltb 65535 port
          then none
          else some (record { ip = ip; port = port })
    ]
validate_ingress_bind _ = none
