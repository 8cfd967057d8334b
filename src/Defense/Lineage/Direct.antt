-- ===== src/Defense/Lineage/Direct.antt =====
-- defense/core/lineage.ts: the streams of a direct attempt on the boundary or on the application.
use limitmark.Common.{
  ℕ, suc, ◌≡◌, refl, sym, ◌∙◌, ◌⊎◌, inl, inr, Bool-cases, ltb, not, ◌||◌, Bool, true, false, Option,
  none, some, is_some, List, [], ◌∷◌, ◌++◌, length, All, arith,
}
use limitmark.Defense.Anomaly.{AnomalyCode, impossible_order}
use limitmark.Defense.Events.{
  BoundaryEventKind, boundary_arrived, boundary_rejected, boundary_admitted, boundary_responded,
  boundary_aborted, BoundaryEvent, boundary_index, AppEventKind, AppEvent, app_index, app_admitted,
  app_refused, direct_boundary_rejected, direct_app_rejected, LifecycleView,
}
use limitmark.Defense.Automata.{next_boundary, next_app, boundary_rank, app_rank}
use limitmark.Defense.Lifecycle.{when}
use limitmark.Defense.Lifecycle.Plane.{append-nil, when-nil}
use limitmark.Defense.Lineage.{
  find_boundary, find_app, events_of, automaton, member, classify, boundary_kinds, app_kinds,
  stream_check, lane_check, direct_rules, validate_origin_lineage,
}
use limitmark.Defense.Lineage.Chain.{AllHold, collect-AllHold, lane_check-direct}

not-false : (b : Bool) → not b ≡ false → b ≡ true
not-false true h = refl
not-false false h = cc

-- A clean automaton has taken its first event, and goes on clean.
module _ {K : Type 0} (index : K → ℕ) (next : Option K → List K) (rank : K → ℕ)
    (previous : Option K) (seen : List K) (above seq : ℕ) (k : K) (es : List (ℕ × K)) where
  automaton-nil :
      automaton index next rank previous seen above ((seq, k) ∷ es) ≡ []
      → (member index next rank k (next previous) ≡ true)
        × (automaton index next rank (some k) (k ∷ seen) (suc seq) es ≡ [])
  unfolding automaton
  automaton-nil h =
      let order = when (ltb seq above) impossible_order in
      let legal : Bool = member index next rank k (next previous) in
      let code = classify index next rank previous k seen in
      let goes : List AnomalyCode = automaton index next rank (some k) (k ∷ seen) (suc seq) es in
      let (first, rest) = append-nil (order ++ when (not legal) code) goes h in
      let (_, taken) = append-nil order (when (not legal) code) first in
      let allowed : not legal ≡ false = when-nil (not legal) code taken in
      (not-false legal allowed, rest)

-- The kinds of an attempt that the boundary refuses.
abbrev pub is_refusal_kind : BoundaryEventKind → Bool
is_refusal_kind boundary_arrived = true
is_refusal_kind boundary_rejected = true
is_refusal_kind boundary_responded = true
is_refusal_kind boundary_aborted = true
is_refusal_kind kind = false

abbrev refused_state : Option BoundaryEventKind → Bool
refused_state none = true
refused_state (some kind) = is_refusal_kind kind

next_boundary-refused :
    (p : Option BoundaryEventKind) (k : BoundaryEventKind)
    → member boundary_index next_boundary boundary_rank k (next_boundary p) ≡ true
    → refused_state p ≡ true
    → (is_refusal_kind k ≡ true) ⊎ (k ≡ boundary_admitted)
next_boundary-refused none k legal safe = ground arith
next_boundary-refused (some p) k legal safe = ground arith

-- A stream that the automaton takes and that holds no admission holds a refusal only.
automaton-refused :
    (p : Option BoundaryEventKind) (seen : List BoundaryEventKind) (above : ℕ)
    (bs : List BoundaryEvent)
    → automaton boundary_index next_boundary boundary_rank p seen above (boundary_kinds bs) ≡ []
    → is_some (find_boundary boundary_admitted bs) ≡ false
    → refused_state p ≡ true
    → All (λ e. is_refusal_kind e.kind ≡ true) bs
automaton-refused p seen above [] h unadmitted safe = tt
automaton-refused p seen above (e ∷ es) h unadmitted safe =
    let (legal, rest) =
      automaton-nil boundary_index next_boundary boundary_rank p seen above e.seq e.kind
        (boundary_kinds es) h in
    elim (next_boundary-refused p e.kind legal safe) [
      | inl refusal ↦ (
        refusal,
        automaton-refused (some e.kind) (e.kind ∷ seen) (suc e.seq) es rest (ground arith) refusal,
      )
      | inr admission ↦ absurd (ground arith)
    ]

next_app-start :
    (k : AppEventKind)
    → member app_index next_app app_rank k (next_app none) ≡ true
    → (k ≡ app_admitted) ⊎ (k ≡ app_refused)
next_app-start k legal = ground arith

-- The application's stream of an attempt that it refuses, or that does not reach it.
abbrev pub Refused : List AppEvent → Type 0
Refused apps = (apps ≡ []) ⊎ ((e : AppEvent) × (apps ≡ e ∷ []) × (e.kind ≡ app_refused))

-- Nothing follows a refusal.
alone :
    (e : AppEvent) (es : List AppEvent)
    → e.kind ≡ app_refused
    → automaton app_index next_app app_rank (some e.kind) (e.kind ∷ []) (suc e.seq) (app_kinds es)
      ≡ []
    → e ∷ es ≡ e ∷ []
alone e [] refusal h = refl
alone e (f ∷ es) refusal h =
    let (legal, _) =
      automaton-nil app_index next_app app_rank (some e.kind) (e.kind ∷ []) (suc e.seq) f.seq f.kind
        (app_kinds es) h in
    ground arith

automaton-Refused :
    (apps : List AppEvent)
    → automaton app_index next_app app_rank none [] 0 (app_kinds apps) ≡ []
    → is_some (find_app app_admitted apps) ≡ false
    → Refused apps
automaton-Refused [] h unadmitted = inl refl
automaton-Refused (e ∷ es) h unadmitted =
    let (legal, rest) =
      automaton-nil app_index next_app app_rank none [] 0 e.seq e.kind (app_kinds es) h in
    elim (next_app-start e.kind legal) [
      | inl admission ↦ absurd (ground arith)
      | inr refusal ↦ inr (e, alone e es refusal rest, refusal)
    ]

abbrev pub RefusedDirectly : LifecycleView → Type 0
RefusedDirectly view =
    All (λ e. is_refusal_kind e.kind ≡ true) (events_of view.boundary)
    × Refused (events_of view.app)
    × ((events_of view.boundary ≡ []) ⊎ (view.expected ≡ direct_boundary_rejected))

length-nil {ℓ} : {A : Type ℓ} (xs : List A) → ltb 0 (length xs) ≡ false → xs ≡ []
length-nil [] h = refl
length-nil (x ∷ xs) h = absurd (ground arith)

lane-nil :
    (view : LifecycleView)
    → (view.expected ≡ direct_boundary_rejected) ⊎ (view.expected ≡ direct_app_rejected)
    → AllHold (direct_rules view)
    → (events_of view.boundary ≡ []) ⊎ (view.expected ≡ direct_boundary_rejected)
lane-nil view (inl lane) rules = inr lane
lane-nil view (inr lane) rules =
    let empty : ltb 0 (length (events_of view.boundary)) ≡ false = rw lane at rules.0 in
    inl (length-nil (events_of view.boundary) empty)

direct_streams :
    (view : LifecycleView) (final : Bool)
    → (view.expected ≡ direct_boundary_rejected) ⊎ (view.expected ≡ direct_app_rejected)
    → stream_check (events_of view.boundary) (events_of view.app) ≡ []
    → lane_check view final ≡ []
    → RefusedDirectly view
direct_streams view final lane streams lanes =
    let bs = events_of view.boundary in
    let apps = events_of view.app in
    let walked_b =
      automaton boundary_index next_boundary boundary_rank none [] 0 (boundary_kinds bs) in
    let walked_a = automaton app_index next_app app_rank none [] 0 (app_kinds apps) in
    let rules : AllHold (direct_rules view) =
      collect-AllHold (direct_rules view) (sym (lane_check-direct view final lane) ∙ lanes) in
    let (both, _) = append-nil (walked_b ++ walked_a) (when _ _) streams in
    let (b, a) = append-nil walked_b walked_a both in
    (
      automaton-refused none [] 0 bs b (ground (arith, rules.1.0)) refl,
      automaton-Refused apps a (ground (arith, rules.1.1.0)),
      lane-nil view lane rules,
    )

absent-nil {ℓ} : {A : Type ℓ} (es : Option (List A)) → is_some es ≡ false → events_of es ≡ []
absent-nil none h = refl
absent-nil (some es) h = cc

-- A direct attempt that validates without an anomaly was refused where it arrived: the boundary's
-- stream holds arrivals, rejections and their ends only, and is empty for an attempt on the
-- application itself; the application's stream is empty or is one refusal.
pub validate_origin_lineage-direct :
    (view : LifecycleView) (final : Bool)
    → (view.expected ≡ direct_boundary_rejected) ⊎ (view.expected ≡ direct_app_rejected)
    → validate_origin_lineage view final ≡ []
    → RefusedDirectly view
unfolding validate_origin_lineage
validate_origin_lineage-direct view final lane h =
    elim (Bool-cases (is_some view.boundary || is_some view.app)) [
      | inl present ↦
          let found = stream_check (events_of view.boundary) (events_of view.app) in
          let whole : validate_origin_lineage view final ≡ found ++ lane_check view final =
            rw present refl in
          let (streams, lanes) = append-nil found (lane_check view final) (sym whole ∙ h) in
          direct_streams view final lane streams lanes
      | inr absent ↦
          let b = absent-nil view.boundary (ground arith) in
          let a = absent-nil view.app (ground arith) in (rw b tt, inl a, inl b)
    ]
