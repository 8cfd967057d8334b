-- ===== src/Admission/Authority/History.antt =====
-- workers/admission-service/authority.ts: the authority with a log of its admissions.
use limitmark.Common.{
  ℕ, ◌+◌, ◌≤◌, ◌<◌, max, ◌≡◌, refl, ◌⊎◌, Bool, inl, some, List, [], ◌∷◌, String, eq_iff, All, count,
  arith,
}
use limitmark.Admission.Authority.{
  Meta, Phase, pre, post, Scope, client, global, ObservationRow, Storage, Rate, pre_client,
  pre_client_burst, pre_global, post_client, post_global, ClaimPreInput, ConsumePostInput, Decision,
  allowed, permitted, Identity, kept_ms, in_window, client_row, global_row, Draw, claim_pre,
  consume_post, cleanup,
}
use limitmark.Admission.Authority.Window.{future-in_window}

pub data AuthorityCall : Type 0 where
  claims : ClaimPreInput → Draw → ℕ → AuthorityCall
  consumes : ConsumePostInput → Draw → ℕ → AuthorityCall
  cleans : ℕ → ℕ → AuthorityCall

-- The storage with every admission that the authority has ever made, one row a scope.
pub record History : Type 0 where
  pub storage : Storage
  pub log : List ObservationRow

abbrev pub rows_of :
    Phase → String → String → ℕ → Decision → List ObservationRow → List ObservationRow
rows_of phase attempt subject now allowed log =
    global_row attempt phase now ∷ client_row attempt phase subject now ∷ log
rows_of phase attempt subject now (permitted permit until) log =
    global_row attempt phase now ∷ client_row attempt phase subject now ∷ log
rows_of phase attempt subject now decision log = log

unfoldable pub authority_step : Identity → History → AuthorityCall → History
authority_step identity h (claims input draw now) =
    let (s, decision) = claim_pre identity h.storage input draw now in
    record { storage = s; log = rows_of pre draw.attempt input.client_pseudonym now decision h.log }
authority_step identity h (consumes input draw now) =
    let (s, decision) = consume_post identity h.storage input draw now in
    record {
      storage = s;
      log = rows_of post draw.attempt input.client_pseudonym now decision h.log;
    }
authority_step identity h (cleans maximum_rows now) = record h {
  storage = cleanup identity h.storage maximum_rows now;
}

unfoldable pub authority_run : Identity → History → List AuthorityCall → History
unfolding authority_step
authority_run identity h [] = h
authority_run identity h (call ∷ calls) =
    authority_run identity (authority_step identity h call) calls

-- The clock of no call is behind that of an earlier `cleanup`, which does not record its reading.
unfoldable pub IsOrdered : ℕ → List AuthorityCall → Type 0
IsOrdered cleaned [] = Unit
IsOrdered cleaned (claims input draw now ∷ calls) = (cleaned ≤ now) × IsOrdered cleaned calls
IsOrdered cleaned (consumes input draw now ∷ calls) = (cleaned ≤ now) × IsOrdered cleaned calls
IsOrdered cleaned (cleans maximum_rows now ∷ calls) = IsOrdered (max cleaned now) calls

-- The five rates of the policy.
pub data Rule : Type 0 where
  pre_client_rule pre_burst_rule pre_global_rule post_client_rule post_global_rule : Rule

abbrev pub rate : Rule → Rate
rate pre_client_rule = pre_client
rate pre_burst_rule = pre_client_burst
rate pre_global_rule = pre_global
rate post_client_rule = post_client
rate post_global_rule = post_global

abbrev pub phase_of : Rule → Phase
phase_of post_client_rule = post
phase_of post_global_rule = post
phase_of rule = pre

abbrev pub scope_of : Rule → Scope
scope_of pre_global_rule = global
scope_of post_global_rule = global
scope_of rule = client

abbrev pub subject_of : Rule → String → String
subject_of pre_global_rule subject = "*"
subject_of post_global_rule subject = "*"
subject_of rule subject = subject

-- The rows of a rule in the window that ends at a time.
abbrev pub matches : Rule → String → ℕ → ObservationRow → Bool
matches rule subject t o =
    in_window (phase_of rule) (scope_of rule) (subject_of rule subject) ((rate rule).window_ms) t o

pub record IsBounded (cleaned : ℕ) (h : History) : Type 0 where
  pub past :
      (m : Meta) → h.storage.meta ≡ some m → All (λ o. o.observed_at_ms ≤ m.last_now_ms) h.log
  pub covered :
      (m : Meta) (rule : Rule) (subject : String) (t : ℕ)
      → h.storage.meta ≡ some m
      → m.last_now_ms ≤ t
      → cleaned ≤ t
      → count (matches rule subject t) h.log ≤ count (matches rule subject t) h.storage.observations
  pub bounded :
      (rule : Rule) (subject : String) (t : ℕ)
      → count (matches rule subject t) h.log ≤ (rate rule).limit

pub window-le : (rule : Rule) → (rate rule).window_ms ≤ kept_ms (phase_of rule) (scope_of rule)
window-le pre_client_rule = omega arith
window-le pre_burst_rule = omega arith
window-le pre_global_rule = omega arith
window-le post_client_rule = omega arith
window-le post_global_rule = omega arith

-- The two rows of an admission.
abbrev pub both : String → Phase → String → ℕ → List ObservationRow → List ObservationRow
both attempt phase subject now rows =
    global_row attempt phase now ∷ client_row attempt phase subject now ∷ rows

pub count-both :
    (q : ObservationRow → Bool) (attempt : String) (phase : Phase) (subject : String) (now : ℕ)
    (rows : List ObservationRow)
    → count q (both attempt phase subject now rows)
      ≡ count q (both attempt phase subject now []) + count q rows
count-both q attempt phase subject now rows = ground arith

-- An admission counts at most once for a rule, and only for one of its phase and subject.
pub adds :
    (rule : Rule) (other : String) (t : ℕ) (attempt : String) (phase : Phase) (subject : String)
    (now : ℕ)
    → (count (matches rule other t) (both attempt phase subject now []) ≡ 0)
      ⊎ ((count (matches rule other t) (both attempt phase subject now []) ≡ 1)
          × (phase_of rule ≡ phase)
          × (subject_of rule other ≡ subject_of rule subject))
adds pre_client_rule other t attempt pre subject now = ground (arith, eq_iff subject other)
adds pre_client_rule other t attempt post subject now = inl refl
adds pre_burst_rule other t attempt pre subject now = ground (arith, eq_iff subject other)
adds pre_burst_rule other t attempt post subject now = inl refl
adds pre_global_rule other t attempt pre subject now = ground arith
adds pre_global_rule other t attempt post subject now = inl refl
adds post_client_rule other t attempt pre subject now = inl refl
adds post_client_rule other t attempt post subject now = ground (arith, eq_iff subject other)
adds post_global_rule other t attempt pre subject now = inl refl
adds post_global_rule other t attempt post subject now = ground arith

pub both-future :
    (rule : Rule) (other : String) (t : ℕ) (attempt : String) (phase : Phase) (subject : String)
    (now : ℕ)
    → t < now
    → count (matches rule other t) (both attempt phase subject now []) ≡ 0
both-future rule other t attempt phase subject now h =
    let later = λ (o : ObservationRow) (e : now ≡ o.observed_at_ms).
      future-in_window (phase_of rule) (scope_of rule) (subject_of rule other)
        ((rate rule).window_ms) t o (omega (arith, h, e)) in
    rw
      (later (global_row attempt phase now) refl, later (client_row attempt phase subject now) refl)
      refl
