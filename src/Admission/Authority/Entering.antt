-- ===== src/Admission/Authority/Entering.antt =====
-- workers/admission-service/authority.ts: what one reading, one prune and one admission do to the
-- windows.
use limitmark.Common.{
  ℕ, ◌+◌, ◌≤◌, ◌<◌, ◌≡◌, refl, sym, ap, ◌∙◌, ltb, ◌==◌, ltb→lt, ltb-eq-false→le, not, Bool, true,
  false, ◌||◌, Bool-cases, inl, inr, some, Option-cases, List, String, count, filter, length, map,
  arith,
}
use limitmark.Admission.Authority.{
  Meta, Phase, pre, post, ObservationRow, NonceRow, Storage, ClaimPreInput, ConsumePostInput,
  Decision, allowed, permitted, Identity, is_ours, is_active, consume, authority_now, is_expired,
  prune, in_window, insert_observation, insert_nonce, observe_both, Draw, pre_is_limited,
  post_is_limited, admit_pre, admit_post,
}
use limitmark.Admission.Authority.Window.{
  count-filter, count-le, All-map, expired-in_window, later-in_window,
}
use limitmark.Admission.Authority.History.{
  History, Rule, pre_client_rule, pre_burst_rule, pre_global_rule, post_client_rule,
  post_global_rule, rate, phase_of, scope_of, subject_of, matches, IsBounded, window-le, both,
  count-both, adds, both-future,
}

abbrev pub history : Storage → List ObservationRow → History
history s log = record { storage = s; log = log }

abbrev pub at_time : Meta → ℕ → Meta
at_time m now = record m { last_now_ms = now }

-- A reading of the clock was recorded, and rows left only that stand in no window from now on.
pub advance-IsBounded :
    (cleaned now : ℕ) (s t : Storage) (m : Meta) (log : List ObservationRow)
    → s.meta ≡ some m
    → m.last_now_ms ≤ now
    → t.meta ≡ some (at_time m now)
    → ((rule : Rule) (subject : String) (u : ℕ)
        → now ≤ u
        → count (matches rule subject u) t.observations
          ≡ count (matches rule subject u) s.observations)
    → IsBounded cleaned (history s log)
    → IsBounded cleaned (history t log)
advance-IsBounded cleaned now s t m log e le f same v = record {
  past = λ n g.
      let time : at_time m now ≡ n = cc (sym f ∙ g) in
      let last : now ≡ n.last_now_ms = ap (λ k. k.last_now_ms) time in
      All-map _ _ log (λ o h. omega (arith, last, h)) (v.past m e);
  covered = λ n rule subject u g h k.
      let time : at_time m now ≡ n = cc (sym f ∙ g) in
      let last : now ≡ n.last_now_ms = ap (λ j. j.last_now_ms) time in
      let reached : now ≤ u = omega (arith, last, h) in
      omega (arith, v.covered m rule subject u e (omega arith) k, same rule subject u reached);
  bounded = v.bounded;
}

-- An admission for which the table has room under every rule of its phase.
pub entered-IsBounded :
    (cleaned now : ℕ) (s t : Storage) (m : Meta) (log : List ObservationRow) (attempt : String)
    (phase : Phase) (subject : String)
    → s.meta ≡ some m
    → m.last_now_ms ≡ now
    → t.meta ≡ some m
    → t.observations ≡ both attempt phase subject now s.observations
    → cleaned ≤ now
    → ((rule : Rule)
        → phase_of rule ≡ phase
        → count (matches rule subject now) s.observations < (rate rule).limit)
    → IsBounded cleaned (history s log)
    → IsBounded cleaned (history t (both attempt phase subject now log))
entered-IsBounded cleaned now s t m log attempt phase subject e last f rows le room v = record {
  past = λ n g.
      let same : m ≡ n = cc (sym f ∙ g) in
      let time : now ≡ n.last_now_ms = sym last ∙ ap (λ k. k.last_now_ms) same in
      (omega (arith, time), (omega (arith, time), v.past n (e ∙ ap some same)));
  covered = λ n rule other u g h k.
      let same : m ≡ n = cc (sym f ∙ g) in
      let q = matches rule other u in
      rw rows (
        omega (
          arith,
          count-both q attempt phase subject now log,
          count-both q attempt phase subject now s.observations,
          v.covered n rule other u (e ∙ ap some same) h k,
        ));
  bounded = λ rule other u.
      let q = matches rule other u in
      let split = count-both q attempt phase subject now log in
      elim (adds rule other u attempt phase subject now) [
        | inl none_added ↦ omega (arith, split, none_added, v.bounded rule other u)
        | inr (one, phases, subjects) ↦ elim (Bool-cases (ltb u now)) [
          | inl early ↦
              let unseen = both-future rule other u attempt phase subject now (ltb→lt _ _ early) in
              absurd (omega (arith, one, unseen))
          | inr reached ↦
              let later = ltb-eq-false→le _ _ reached in
              let window = subject_of rule other in
              let shifted : count q log ≤ count (matches rule other now) log =
                count-le q (matches rule other now) log (
                  All-map _ _ log
                    (λ o h g.
                      later-in_window (phase_of rule) (scope_of rule) window ((rate rule).window_ms)
                        now u o (omega (arith, h, last)) later g)
                    (v.past m e)) in
              let stored = v.covered m rule other now e (omega (arith, last)) le in
              let asked : count (matches rule other now) s.observations
                  ≡ count (matches rule subject now) s.observations =
                ap
                  (λ w.
                    count (in_window (phase_of rule) (scope_of rule) w ((rate rule).window_ms) now)
                      s.observations)
                  subjects in
              let below = room rule phases in
              omega (arith, split, one, shifted, stored, asked, below)
        ]
      ];
}

pub record Read (s t : Storage) (now : ℕ) : Type 0 where
  pub meta : Meta
  pub here : s.meta ≡ some meta
  pub forward : meta.last_now_ms ≤ now
  pub result : t ≡ record s { meta = some (at_time meta now) }

pub authority_now-Read :
    (identity : Identity) (s t : Storage) (release_id : String) (now : ℕ)
    → authority_now identity s release_id now ≡ some t
    → Read s t now
unfolding authority_now
authority_now-Read identity s t release_id now e = elim (Option-cases s.meta) [
  | inl missing ↦ absurd (cc (rw (missing, authority_now) at e))
  | inr (m, here) ↦
      let e1 = rw (here, authority_now) at e in
      elim (Bool-cases (not (is_ours identity m) || ltb now m.last_now_ms)) [
        | inl refused ↦ absurd (cc (rw refused at e1))
        | inr accepted ↦
            let e2 = rw accepted at e1 in
            elim (Bool-cases (not (length (filter (is_active release_id now) s.releases) == 1))) [
              | inl inactive ↦ absurd (cc (rw inactive at e2))
              | inr active ↦
                  let e3 : some (record s { meta = some (at_time m now) }) ≡ some t =
                    rw active at e2 in
                  record {
                    meta = m;
                    here = here;
                    forward = not-behind (is_ours identity m) now m.last_now_ms accepted;
                    result = cc e3;
                  }
            ]
      ]
]
  where
    not-behind : (b : Bool) (now last : ℕ) → (not b || ltb now last) ≡ false → last ≤ now
    not-behind b now last h = ground arith

observe_both-Rows :
    (s t : Storage) (attempt : String) (phase : Phase) (subject : String) (now : ℕ) (fault : Bool)
    → observe_both s attempt phase subject now fault ≡ some t
    → t ≡ record s { observations = both attempt phase subject now s.observations }
unfolding observe_both insert_observation
observe_both-Rows s t attempt phase subject now fault e = ground arith

pub prune-matches :
    (s : Storage) (now : ℕ) (rule : Rule) (subject : String) (u : ℕ)
    → now ≤ u
    → count (matches rule subject u) (prune s now).observations
      ≡ count (matches rule subject u) s.observations
unfolding prune
prune-matches s now rule subject u le =
    count-filter (matches rule subject u) (λ o. not (is_expired now o)) s.observations
      (λ o h.
        expired-in_window (phase_of rule) (scope_of rule) (subject_of rule subject)
          ((rate rule).window_ms) now u o (window-le rule) le (not-false (is_expired now o) h))
  where
    not-false : (b : Bool) → not b ≡ false → b ≡ true
    not-false true h = refl
    not-false false h = absurd cc

pub pre-room :
    (s : Storage) (subject : String) (now : ℕ)
    → pre_is_limited s subject now ≡ false
    → (rule : Rule) → phase_of rule ≡ pre
    → count (matches rule subject now) s.observations < (rate rule).limit
pre-room s subject now h pre_client_rule e = ground arith
pre-room s subject now h pre_burst_rule e = ground arith
pre-room s subject now h pre_global_rule e = ground arith
pre-room s subject now h post_client_rule e = absurd cc
pre-room s subject now h post_global_rule e = absurd cc

pub post-room :
    (s : Storage) (subject : String) (now : ℕ)
    → post_is_limited s subject now ≡ false
    → (rule : Rule) → phase_of rule ≡ post
    → count (matches rule subject now) s.observations < (rate rule).limit
post-room s subject now h pre_client_rule e = absurd cc
post-room s subject now h pre_burst_rule e = absurd cc
post-room s subject now h pre_global_rule e = absurd cc
post-room s subject now h post_client_rule e = ground arith
post-room s subject now h post_global_rule e = ground arith

pub insert_nonce-Rows :
    (s t : Storage) (n : NonceRow)
    → insert_nonce s n ≡ some t
    → (t.meta ≡ s.meta) × (t.observations ≡ s.observations)
unfolding insert_nonce
insert_nonce-Rows s t n e = (ground arith, ground arith)

pub some-eq : {x y : Storage × Decision} → some x ≡ some y → x ≡ y
some-eq e = cc

pub admit_pre-Rows :
    (s t : Storage) (input : ClaimPreInput) (draw : Draw) (now : ℕ) (d : Decision)
    → admit_pre s input draw now ≡ some (t, d)
    → (t.meta ≡ s.meta)
      × (t.observations ≡ both draw.attempt pre input.client_pseudonym now s.observations)
      × (d ≡ permitted draw.permit (now + 60000))
unfolding admit_pre insert_nonce
admit_pre-Rows s t input draw now d e =
    elim (Option-cases (observe_both s draw.attempt pre input.client_pseudonym now draw.fault)) [
      | inl refused ↦ absurd (cc (rw (refused, admit_pre) at e))
      | inr (u, entered) ↦
          let rows =
            observe_both-Rows s u draw.attempt pre input.client_pseudonym now draw.fault entered in
          let e1 = rw (entered, admit_pre) at e in
          let n : NonceRow = record {
            nonce = input.nonce;
            release_id = input.release_id;
            client_id = input.client_pseudonym;
            request_binding = input.request_binding;
            permit = draw.permit;
            claimed_ms = now;
            permit_expires_ms = now + 60000;
            retain_until_ms = now + 120000;
            post_consumed = false;
          } in
          elim (Option-cases (insert_nonce u n)) [
            | inl taken ↦ absurd (cc (rw taken at e1))
            | inr (w, inserted) ↦
                let (kept, same) = insert_nonce-Rows u w n inserted in
                let pair : (w, permitted draw.permit (now + 60000)) ≡ (t, d) =
                  some-eq (rw inserted at e1) in
                let stored : t ≡ w = sym (ap (λ x. x.0) pair) in
                (
                  ap (λ x. x.meta) stored ∙ kept ∙ ap (λ x. x.meta) rows,
                  ap (λ x. x.observations) stored ∙ same ∙ ap (λ x. x.observations) rows,
                  sym (ap (λ x. x.1) pair),
                )
          ]
    ]

pub admit_post-Rows :
    (s t : Storage) (input : ConsumePostInput) (draw : Draw) (now : ℕ) (d : Decision)
    → admit_post s input draw now ≡ some (t, d)
    → (t.meta ≡ s.meta)
      × (t.observations ≡ both draw.attempt post input.client_pseudonym now s.observations)
      × (d ≡ allowed)
unfolding admit_post
admit_post-Rows s t input draw now d e =
    elim (Option-cases (observe_both s draw.attempt post input.client_pseudonym now draw.fault)) [
      | inl refused ↦ absurd (cc (rw (refused, admit_post) at e))
      | inr (u, entered) ↦
          let rows =
            observe_both-Rows s u draw.attempt post input.client_pseudonym now draw.fault entered in
          let e1 = rw (entered, admit_post) at e in
          let pair : (record u { nonces = map (consume input.nonce) u.nonces }, allowed) ≡ (t, d) =
            some-eq e1 in
          let stored : t ≡ record u { nonces = map (consume input.nonce) u.nonces } =
            sym (ap (λ x. x.0) pair) in
          (
            ap (λ x. x.meta) stored ∙ ap (λ x. x.meta) rows,
            ap (λ x. x.observations) stored ∙ ap (λ x. x.observations) rows,
            sym (ap (λ x. x.1) pair),
          )
    ]

module _ (cleaned now : ℕ) (s t : Storage) (log : List ObservationRow) (read : Read s t now)
    (le : cleaned ≤ now) (v : IsBounded cleaned (history s log)) where
  pub read-IsBounded : IsBounded cleaned (history t log)
  read-IsBounded =
      advance-IsBounded cleaned now s t read.meta log read.here read.forward
        (ap (λ x. x.meta) read.result)
        (λ rule subject u h. ap (λ x. count (matches rule subject u) x.observations) read.result) v

  pub pruned-IsBounded : IsBounded cleaned (history (prune t now) log)
  unfolding prune
  pruned-IsBounded =
      advance-IsBounded cleaned now s (prune t now) read.meta log read.here read.forward
        (ap (λ x. x.meta) read.result)
        (λ rule subject u h.
          prune-matches t now rule subject u h
          ∙ ap (λ x. count (matches rule subject u) x.observations) read.result)
        v

  pub pruned-entered :
      (u : Storage) (attempt : String) (phase : Phase) (subject : String)
      → u.meta ≡ (prune t now).meta
      → u.observations ≡ both attempt phase subject now (prune t now).observations
      → ((rule : Rule)
          → phase_of rule ≡ phase
          → count (matches rule subject now) (prune t now).observations < (rate rule).limit)
      → IsBounded cleaned (history u (both attempt phase subject now log))
  unfolding prune
  pruned-entered u attempt phase subject f rows room =
      let recorded : t.meta ≡ some (at_time read.meta now) = ap (λ x. x.meta) read.result in
      entered-IsBounded cleaned now (prune t now) u (at_time read.meta now) log attempt phase
        subject recorded refl (f ∙ recorded) rows le room pruned-IsBounded
