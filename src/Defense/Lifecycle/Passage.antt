-- ===== src/Defense/Lifecycle/Passage.antt =====
-- defense/core/ledger.ts: what the automaton of the plane's stream passes on the way to the egress.
use limitmark.Common.{
  ℕ, suc, ◌≡◌, refl, ◌⊎◌, inl, inr, Bool, true, false, Option, none, some, List, [], ◌∷◌, arith,
  Bool-cases,
}
use limitmark.Defense.Events.{
  PlaneEventKind, ingress_accepted, l1_entered, l1_passed, l1_rejected, l1_shed, l1_error,
  ingress_responded, ingress_aborted, l2_entered, l2_decided, egress_attempted, PlaneEvent,
}
use limitmark.Defense.Lifecycle.{includes, next_of, same_kind, some_kind, is_kind}
use limitmark.Defense.Lifecycle.Plane.{Steps, stops, steps}

-- The states from which the egress is reached through the gate only.
abbrev Guards : Bool → PlaneEventKind → (Option PlaneEventKind → Bool) → Type 0
Guards l2 gate closed =
    (p : Option PlaneEventKind) (k : PlaneEventKind)
    → includes k (next_of l2 p) ≡ true
    → closed p ≡ true
    → (same_kind k gate ≡ true)
      ⊎ ((closed (some k) ≡ true) × (same_kind k egress_attempted ≡ false))

Steps-gate :
    (l2 : Bool) (gate : PlaneEventKind) (closed : Option PlaneEventKind → Bool)
    → Guards l2 gate closed
    → (p last : Option PlaneEventKind) (above : ℕ) (es : List PlaneEvent) → Steps l2 p above es last
    → closed p ≡ true
    → some_kind egress_attempted es ≡ true
    → some_kind gate es ≡ true
Steps-gate l2 gate closed guard p last above [] stops shut out = cc
Steps-gate l2 gate closed guard p last above (e ∷ es) (steps legal up more) shut out =
    elim (guard p e.kind legal shut) [
      | inl here ↦ rw here refl
      | inr (still, other) ↦
          let rest =
            Steps-gate l2 gate closed guard (some e.kind) last (suc e.seq) es more still
              (rw other at out) in
          elim (Bool-cases (is_kind gate e)) [ inl now ↦ rw now refl | inr later ↦ rw later rest ]
    ]

-- Before the first layer is entered.
abbrev unentered : Option PlaneEventKind → Bool
unentered none = true
unentered (some ingress_accepted) = true
unentered p = false

-- Before the first layer has passed the request, or after it has not.
abbrev unpassed : Option PlaneEventKind → Bool
unpassed none = true
unpassed (some ingress_accepted) = true
unpassed (some l1_entered) = true
unpassed (some l1_rejected) = true
unpassed (some l1_shed) = true
unpassed (some l1_error) = true
unpassed (some ingress_responded) = true
unpassed (some ingress_aborted) = true
unpassed p = false

-- Before the second layer has decided.
abbrev undecided : Option PlaneEventKind → Bool
undecided (some l1_passed) = true
undecided (some l2_entered) = true
undecided p = unpassed p

unentered-Guards : (l2 : Bool) → Guards l2 l1_entered unentered
unentered-Guards true none k legal shut = ground arith
unentered-Guards false none k legal shut = ground arith
unentered-Guards true (some p) k legal shut = ground arith
unentered-Guards false (some p) k legal shut = ground arith

unpassed-Guards : (l2 : Bool) → Guards l2 l1_passed unpassed
unpassed-Guards true none k legal shut = ground arith
unpassed-Guards false none k legal shut = ground arith
unpassed-Guards true (some p) k legal shut = ground arith
unpassed-Guards false (some p) k legal shut = ground arith

undecided-Guards : Guards true l2_decided undecided
undecided-Guards none k legal shut = ground arith
undecided-Guards (some p) k legal shut = ground arith

module _ (l2 : Bool) (last : Option PlaneEventKind) (es : List PlaneEvent)
    (legal : Steps l2 none 0 es last) (out : some_kind egress_attempted es ≡ true) where
  pub Steps-entered : some_kind l1_entered es ≡ true
  Steps-entered =
      Steps-gate l2 l1_entered unentered (unentered-Guards l2) none last 0 es legal refl out

  pub Steps-passed : some_kind l1_passed es ≡ true
  Steps-passed = Steps-gate l2 l1_passed unpassed (unpassed-Guards l2) none last 0 es legal refl out

pub Steps-decided :
    (last : Option PlaneEventKind) (es : List PlaneEvent)
    → Steps true none 0 es last
    → some_kind egress_attempted es ≡ true
    → some_kind l2_decided es ≡ true
Steps-decided last es legal out =
    Steps-gate true l2_decided undecided undecided-Guards none last 0 es legal refl out
