-- ===== src/Defense/CreditFilter/Window.antt =====
-- defense/core/credit-filter.ts: how long a digest is remembered, over any sequence of operations.
use limitmark.Common.{
  ℕ, zero, suc, ◌+◌, ◌-◌, ◌/◌, ◌≤◌, ◌≡◌, refl, inl, inr, true, false, List, [], ◌∷◌, All, arith,
  Bool-cases, ◌==◌, ==_iff, get_or-replicate,
}
use mathlib.Core.Path.{sym, subst}
use limitmark.Common.Bits.{bit_and-zero_left}
use limitmark.Defense.Bucket.{Clock}
use limitmark.Defense.CreditFilter.{
  CreditFilter, Digest, generation, with_generation, epoch_now, advance, index, test_bit, test_from,
  test, has_digest, has_in_active, set_bits, insert, filter_stats, blank,
}
use limitmark.Defense.CreditFilter.Bytes.{
  set_bits-HoldsBits, test_from-set_bits, test_from-set_bits_of,
}
use limitmark.Defense.CreditFilter.Rotation.{
  IsValid, SameShape, generation-HoldsBits, advance-IsValid, advance-SameShape,
  advance-current_epoch, generation-advance_kept, generation-advance_fresh,
}

-- The digest `d` stands in the generation of epoch `e`, which has not aged out.
pub record Holds (d : Digest) (e : ℕ) (f : CreditFilter) : Type 0 where
  pub valid : IsValid f
  pub begun : e ≤ f.current_epoch
  pub live : f.current_epoch ≤ e + 1
  pub stored : test_from (generation f e).array f.bits d f.hashes 0 ≡ true

pub data FilterCall : Type 0 where
  inserts has_calls active_calls : Digest → FilterCall
  stats_calls : FilterCall

pub filter_step : CreditFilter → Clock × FilterCall → CreditFilter
filter_step f (now, inserts d) = insert f now d
filter_step f (now, has_calls d) = (has_digest f now d).0
filter_step f (now, active_calls d) = (has_in_active f now d).0
filter_step f (now, stats_calls) = (filter_stats f now).0

pub filter_run : CreditFilter → List (Clock × FilterCall) → CreditFilter
filter_run f [] = f
filter_run f (c ∷ cs) = filter_run (filter_step f c) cs

epoch_now-SameShape :
    {f g : CreditFilter} (now : Clock) → SameShape f g → epoch_now g now ≡ epoch_now f now
epoch_now-SameShape now s = rw (s.t0, s.epoch_ms)

advance-Holds :
    (d : Digest) (e : ℕ) (f : CreditFilter) (now : Clock)
    → Holds d e f
    → epoch_now f now ≤ e + 1
    → Holds d e (advance f now)
advance-Holds d e f now h late =
    let same = advance-SameShape f now in
    record {
      valid = advance-IsValid f now h.valid;
      begun = omega (arith, advance-current_epoch f now, h.begun);
      live = omega (arith, advance-current_epoch f now, h.live);
      stored =
          rw (generation-advance_kept f now e h.begun h.live late, same.bits, same.hashes) h.stored;
    }

-- The insertion into an already advanced filter.
put : CreditFilter → Digest → CreditFilter
put g d =
    let h =
      with_generation g g.current_epoch
        (set_bits (generation g g.current_epoch) g.bits d g.hashes 0) in
    record h { inserts = h.inserts + 1 }

insert-put : (f : CreditFilter) (now : Clock) (d : Digest) → insert f now d ≡ put (advance f now) d
unfolding insert put
insert-put f now d = refl

put-SameShape : (g : CreditFilter) (d : Digest) → SameShape g (put g d)
unfolding put
put-SameShape g d = ground arith

put-current_epoch : (g : CreditFilter) (d : Digest) → (put g d).current_epoch ≡ g.current_epoch
unfolding put
put-current_epoch g d = ground arith

put-IsValid : (g : CreditFilter) (d : Digest) → IsValid g → IsValid (put g d)
unfolding put
put-IsValid g d v =
    let kept =
      set_bits-HoldsBits g.bits (omega (arith, v.sized)) d (generation g g.current_epoch) g.hashes 0
        (generation-HoldsBits g g.current_epoch v) in
    ground (arith, kept)

generation-put_self :
    (g : CreditFilter) (d : Digest)
    → generation (put g d) g.current_epoch
      ≡ set_bits (generation g g.current_epoch) g.bits d g.hashes 0
unfolding put
generation-put_self g d = ground arith

generation-put_other :
    (g : CreditFilter) (d : Digest) (e : ℕ)
    → e + 1 ≡ g.current_epoch
    → generation (put g d) e ≡ generation g e
unfolding put
generation-put_other g d e h = ground arith

put-Holds_self : (g : CreditFilter) (d : Digest) → IsValid g → Holds d g.current_epoch (put g d)
put-Holds_self g d v = record {
  valid = put-IsValid g d v;
  begun = omega (arith, put-current_epoch g d);
  live = omega (arith, put-current_epoch g d);
  stored =
      rw (generation-put_self g d, (put-SameShape g d).bits, (put-SameShape g d).hashes)
        (test_from-set_bits g.bits (omega (arith, v.sized)) d (generation g g.current_epoch)
          g.hashes 0 (generation-HoldsBits g g.current_epoch v));
}

put-stored :
    (g : CreditFilter) (d other : Digest) (e : ℕ)
    → Holds d e g
    → test_from (generation (put g other) e).array g.bits d g.hashes 0 ≡ true
put-stored g d other e h = elim (Bool-cases (g.current_epoch == e)) [
  | inl same ↦
      let p : g.current_epoch ≡ e = (==_iff _ _).0 same in
      rw (← p, generation-put_self g other)
        (test_from-set_bits_of g.bits (omega (arith, h.valid.sized)) other
          (generation g g.current_epoch) d g.hashes 0 g.hashes 0
          (generation-HoldsBits g g.current_epoch h.valid) (rw p h.stored))
  | inr later ↦ rw (generation-put_other g other e (ground (arith, h.begun, h.live))) h.stored
]

put-Holds : (g : CreditFilter) (d other : Digest) (e : ℕ) → Holds d e g → Holds d e (put g other)
put-Holds g d other e h = record {
  valid = put-IsValid g other h.valid;
  begun = omega (arith, put-current_epoch g other, h.begun);
  live = omega (arith, put-current_epoch g other, h.live);
  stored =
      rw ((put-SameShape g other).bits, (put-SameShape g other).hashes) (put-stored g d other e h);
}

filter_step-Holds :
    (d : Digest) (e : ℕ) (f : CreditFilter) (c : Clock × FilterCall)
    → Holds d e f
    → epoch_now f c.0 ≤ e + 1
    → Holds d e (filter_step f c)
unfolding filter_step
filter_step-Holds d e f (now, inserts other) h late =
    rw (insert-put f now other)
      (put-Holds (advance f now) d other e (advance-Holds d e f now h late))
filter_step-Holds d e f (now, has_calls other) h late =
    unfold has_digest in
    (let a = advance-Holds d e f now h late in
      record { valid = ground (arith, a.valid); begun = a.begun; live = a.live; stored = a.stored })
filter_step-Holds d e f (now, active_calls other) h late =
    unfold has_in_active in (advance-Holds d e f now h late)
filter_step-Holds d e f (now, stats_calls) h late =
    unfold filter_stats in (advance-Holds d e f now h late)

filter_step-SameShape : (f : CreditFilter) (c : Clock × FilterCall) → SameShape f (filter_step f c)
unfolding filter_step insert has_digest has_in_active filter_stats
filter_step-SameShape f (now, inserts d) = ground (arith, advance-SameShape f now)
filter_step-SameShape f (now, has_calls d) = ground (arith, advance-SameShape f now)
filter_step-SameShape f (now, active_calls d) = advance-SameShape f now
filter_step-SameShape f (now, stats_calls) = advance-SameShape f now

All-epoch :
    {f g : CreditFilter} (e : ℕ) (cs : List (Clock × FilterCall))
    → SameShape f g
    → All (λ c. epoch_now f c.0 ≤ e + 1) cs
    → All (λ c. epoch_now g c.0 ≤ e + 1) cs
All-epoch e [] s h = tt
All-epoch e (c ∷ cs) s h = (rw (epoch_now-SameShape c.0 s) h.0, All-epoch e cs s h.1)

filter_run-Holds :
    (d : Digest) (e : ℕ) (f : CreditFilter) (cs : List (Clock × FilterCall))
    → Holds d e f
    → All (λ c. epoch_now f c.0 ≤ e + 1) cs
    → Holds d e (filter_run f cs) × SameShape f (filter_run f cs)
unfolding filter_run
filter_run-Holds d e f [] h late = (h, ground arith)
filter_run-Holds d e f (c ∷ cs) h late =
    let same = filter_step-SameShape f c in
    let (holds, shape) =
      filter_run-Holds d e (filter_step f c) cs (filter_step-Holds d e f c h late.0)
        (All-epoch e cs same late.1) in
    (holds, ground (arith, same, shape))

has_of_Holds :
    (d : Digest) (e : ℕ) (f : CreditFilter) (now : Clock)
    → Holds d e f
    → epoch_now f now ≤ e + 1
    → (has_digest f now d).1 ≡ true
unfolding has_digest test
has_of_Holds d e f now h late =
    let a = advance-Holds d e f now h late in
    elim (Bool-cases (e == (advance f now).current_epoch)) [
      | inl same ↦
          let p : e ≡ (advance f now).current_epoch = (==_iff _ _).0 same in rw (rw p at a.stored)
      | inr other ↦
          let p : e ≡ (advance f now).current_epoch - 1 = ground (arith, a.begun, a.live) in
          let q : 1 ≤ (advance f now).current_epoch = ground (arith, a.begun, a.live) in
          ground (arith, rw p at a.stored)
    ]

insert-Holds :
    (f : CreditFilter) (start : Clock) (d : Digest)
    → IsValid f
    → Holds d (insert f start d).current_epoch (insert f start d)
insert-Holds f start d v = rw (insert-put f start d) (
    subst (λ e. Holds d e (put (advance f start) d)) (sym (put-current_epoch (advance f start) d))
      (put-Holds_self (advance f start) d (advance-IsValid f start v)))

-- No false negatives: a digest that was inserted in epoch `e` tests positive after any sequence of
-- insertions, lookups and observations, up to the end of epoch `e + 1`.
pub has-insert :
    (f : CreditFilter) (start : Clock) (d : Digest) (cs : List (Clock × FilterCall)) (now : Clock)
    → IsValid f
    → All (λ c. epoch_now f c.0 ≤ (insert f start d).current_epoch + 1) cs
    → epoch_now f now ≤ (insert f start d).current_epoch + 1
    → (has_digest (filter_run (insert f start d) cs) now d).1 ≡ true
has-insert f start d cs now v all_late late =
    let e = (insert f start d).current_epoch in
    let shape : SameShape f (insert f start d) =
      unfold filter_step in filter_step-SameShape f (start, inserts d) in
    let (holds, same) =
      filter_run-Holds d e (insert f start d) cs (insert-Holds f start d v)
        (All-epoch e cs shape all_late) in
    has_of_Holds d e _ now holds
      (rw (epoch_now-SameShape now same, epoch_now-SameShape now shape) late)

test_from-blank :
    (bits : ℕ) (d : Digest) (rounds i : ℕ)
    → 1 ≤ rounds
    → test_from (blank bits).array bits d rounds i ≡ false
unfolding test_from test_bit
test_from-blank bits d zero i h = absurd (omega arith)
test_from-blank bits d (suc rounds) i h =
    rw (get_or-replicate {A = ℕ} (bits / 8) (index bits d i / 8) 0, bit_and-zero_left)

-- Two epochs after its last operation the filter has forgotten every digest.
pub has-idle :
    (f : CreditFilter) (now : Clock) (d : Digest)
    → IsValid f
    → f.current_epoch + 2 ≤ epoch_now f now
    → (has_digest f now d).1 ≡ false
unfolding has_digest test
has-idle f now d v h =
    let (active, previous) = generation-advance_fresh f now (omega arith) in
    let epoch : (advance f now).current_epoch ≡ epoch_now f now =
      omega (arith, advance-current_epoch f now) in
    let same = advance-SameShape f now in
    rw
      (
        epoch,
        active,
        previous h,
        same.bits,
        same.hashes,
        test_from-blank f.bits d f.hashes 0 v.hashed,
      )
      (ground arith)

-- A lookup or an insertion moves the epoch as `advance` does.
pub calls-advance :
    (f : CreditFilter) (now : Clock) (d : Digest)
    → (SameShape f (has_digest f now d).0
        × ((has_digest f now d).0.current_epoch ≡ (advance f now).current_epoch))
      × (SameShape f (has_in_active f now d).0
          × ((has_in_active f now d).0.current_epoch ≡ (advance f now).current_epoch))
      × (SameShape f (insert f now d)
          × ((insert f now d).current_epoch ≡ (advance f now).current_epoch))
unfolding has_digest has_in_active insert
calls-advance f now d =
    let same = advance-SameShape f now in (ground arith, ground arith, ground arith)
