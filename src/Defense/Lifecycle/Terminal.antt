-- ===== src/Defense/Lifecycle/Terminal.antt =====
-- defense/core/ledger.ts: the outcome of a lifecycle that is validated.
use limitmark.Common.{
  ℕ, suc, ◌≡◌, refl, ◌⊎◌, inl, inr, Bool, true, false, ◌||◌, Option, none, some, is_some, List, [],
  ◌∷◌, arith,
}
use limitmark.Defense.Events.{
  PlaneEventKind, PlaneEvent, LifecycleView, ingress_accepted, l1_entered, l1_passed, l1_rejected,
  l1_shed, l1_error, egress_attempted, proof_issued, egress_responded, egress_failed,
  ingress_responded, ingress_aborted, l2_entered, l2_decided, l2_enrolled, l2_enroll_skipped,
}
use limitmark.Defense.Automata.{next_plane}
use limitmark.Defense.Lifecycle.{includes, same_kind, is_final, some_kind, terminal_outcome}
use limitmark.Defense.Lifecycle.Check.{protected_like, validate_lifecycle}
use limitmark.Defense.Lifecycle.Plane.{Steps, stops, steps, Ends, validate_lifecycle-CleanPlane}

-- The kinds that name an outcome by themselves.
abbrev is_outcome : PlaneEventKind → Bool
is_outcome k =
    same_kind k l1_rejected
    || same_kind k l1_shed
    || same_kind k l1_error
    || same_kind k egress_failed
    || same_kind k egress_responded
    || same_kind k ingress_aborted

-- The kinds after which an outcome has been named: those above and the response.
abbrev is_settled : Option PlaneEventKind → Bool
is_settled none = false
is_settled (some k) = is_outcome k || same_kind k ingress_responded

abbrev some_outcome : List PlaneEvent → Bool
some_outcome [] = false
some_outcome (e ∷ es) = is_outcome e.kind || some_outcome es

-- An event that settles the lifecycle names an outcome, unless it is settled already.
next_plane-is_settled :
    (p : Option PlaneEventKind) (k : PlaneEventKind)
    → includes k (next_plane p) ≡ true
    → is_settled (some k) ≡ true
    → (is_outcome k ≡ true) ⊎ (is_settled p ≡ true)
next_plane-is_settled none k legal s = ground arith
next_plane-is_settled (some ingress_accepted) k legal s = ground arith
next_plane-is_settled (some l1_entered) k legal s = ground arith
next_plane-is_settled (some l1_passed) k legal s = ground arith
next_plane-is_settled (some l1_rejected) k legal s = inr refl
next_plane-is_settled (some l1_shed) k legal s = inr refl
next_plane-is_settled (some l1_error) k legal s = inr refl
next_plane-is_settled (some egress_attempted) k legal s = ground arith
next_plane-is_settled (some proof_issued) k legal s = ground arith
next_plane-is_settled (some egress_responded) k legal s = inr refl
next_plane-is_settled (some egress_failed) k legal s = inr refl
next_plane-is_settled (some ingress_responded) k legal s = inr refl
next_plane-is_settled (some ingress_aborted) k legal s = inr refl
next_plane-is_settled (some l2_entered) k legal s = cc
next_plane-is_settled (some l2_decided) k legal s = cc
next_plane-is_settled (some l2_enrolled) k legal s = cc
next_plane-is_settled (some l2_enroll_skipped) k legal s = cc

Steps-some_outcome :
    (p last : Option PlaneEventKind) (above : ℕ) (es : List PlaneEvent)
    → Steps false p above es last
    → is_settled last ≡ true
    → (some_outcome es ≡ true) ⊎ (is_settled p ≡ true)
Steps-some_outcome p last above [] stops s = inr s
Steps-some_outcome p last above (e ∷ es) (steps legal up more) s =
    elim (Steps-some_outcome (some e.kind) last (suc e.seq) es more s) [
      | inl later ↦ inl (ground arith)
      | inr now ↦ elim (next_plane-is_settled p e.kind legal now) [
        | inl named ↦ inl (rw named refl)
        | inr before ↦ inr before
      ]
    ]

Ends-is_settled : (last : Option PlaneEventKind) → Ends last → is_settled last ≡ true
Ends-is_settled none e = absurd e
Ends-is_settled (some k) e = ground arith

some_kind-here :
    (k : PlaneEventKind) (e : PlaneEvent) (es : List PlaneEvent)
    → e.kind ≡ k
    → some_kind k (e ∷ es) ≡ true
some_kind-here k e es same = rw same (ground arith)

-- The last event of a stream is among its events.
Steps-some_kind :
    (p : Option PlaneEventKind) (k : PlaneEventKind) (above : ℕ) (es : List PlaneEvent)
    → Steps false p above es (some k)
    → (some_kind k es ≡ true) ⊎ (p ≡ some k)
Steps-some_kind p k above [] stops = inr refl
Steps-some_kind p k above (e ∷ es) (steps legal up more) =
    elim (Steps-some_kind (some e.kind) k (suc e.seq) es more) [
      | inl later ↦ inl (ground arith)
      | inr here ↦ inl (some_kind-here k e es (ground arith))
    ]

-- A stream without any event of these kinds names no outcome.
some_outcome-none :
    (es : List PlaneEvent)
    → some_kind l1_rejected es ≡ false
    → some_kind l1_shed es ≡ false
    → some_kind l1_error es ≡ false
    → some_kind egress_failed es ≡ false
    → some_kind egress_responded es ≡ false
    → some_kind ingress_aborted es ≡ false
    → some_outcome es ≡ false
some_outcome-none [] a b c d f g = refl
some_outcome-none (e ∷ es) a b c d f g = ground (arith, some_outcome-none es)

terminal_outcome-is_some :
    (es : List PlaneEvent)
    → some_outcome es ≡ true
    → (some_kind ingress_responded es ≡ true) ⊎ (some_kind ingress_aborted es ≡ true)
    → is_some (terminal_outcome es) ≡ true
unfolding terminal_outcome
terminal_outcome-is_some es named ended = ground (arith, some_outcome-none es)

Ends-kinds :
    (k : PlaneEventKind) → is_final k ≡ true → (k ≡ ingress_responded) ⊎ (k ≡ ingress_aborted)
Ends-kinds ingress_responded h = inl refl
Ends-kinds ingress_aborted h = inr refl
Ends-kinds _ h = cc

Steps-terminal_outcome :
    (es : List PlaneEvent) (last : Option PlaneEventKind)
    → Steps false none 0 es last
    → Ends last
    → is_some (terminal_outcome es) ≡ true
Steps-terminal_outcome es none legal ends = absurd ends
Steps-terminal_outcome es (some k) legal ends =
    let named : some_outcome es ≡ true =
      elim (Steps-some_outcome none (some k) 0 es legal (Ends-is_settled (some k) ends)) [
        | inl found ↦ found
        | inr start ↦ cc
      ] in
    let there : some_kind k es ≡ true = elim (Steps-some_kind none k 0 es legal) [
      | inl found ↦ found
      | inr start ↦ cc
    ] in
    terminal_outcome-is_some es named
      (elim (Ends-kinds k ends) [ inl e ↦ inl (rw (← e) there) | inr e ↦ inr (rw (← e) there) ])

-- In a composition without the second layer, a protected or external request that validates at
-- finalization without an anomaly has a terminal outcome.
pub validate_lifecycle-terminal_outcome :
    (view : LifecycleView)
    → protected_like view.expected ≡ true
    → view.l2 ≡ false
    → validate_lifecycle view true ≡ []
    → is_some (terminal_outcome view.plane) ≡ true
validate_lifecycle-terminal_outcome view like no_l2 clean =
    let c = validate_lifecycle-CleanPlane view true like clean in
    Steps-terminal_outcome view.plane c.last (rw (← no_l2) c.legal) (c.ended refl)
