-- ===== src/Defense/Lanes/Capacity.antt =====
-- defense/core/lanes.ts, P2: the ledger that the constructor has sized is never full.
pub mod Payment
pub mod Ledger
pub mod Clocked
use native.Mathlib.Nat.{div-mul-le_self, div-add-mod, mod-lt, add-mul, mul_comm, mul-le-mul_right}
use limitmark.Common.{
  ℕ, suc, ◌+◌, ◌-◌, ◌*◌, ◌/◌, ◌%◌, ◌≤◌, ◌<◌, ◌≡◌, ◌≢◌, refl, sym, ◌∙◌, String, ◌⊎◌, inl, inr, max,
  Bool, true, false, Option, none, some, List, [], ◌∷◌, All, arith, length, Bool-cases,
  Option-cases,
}
use limitmark.Defense.Bucket.{Clock, floor_ms, TokenBucket, unit, take}
use limitmark.Defense.Bucket.Bound.{
  IsValid, take-IsValid, take-Charged, take-last_ms-le, le-take-last_ms,
}
use limitmark.Defense.CreditFilter.{CreditFilter, epoch_now, advance, has_digest}
use limitmark.Defense.CreditFilter.Rotation.{SameShape, advance-SameShape, advance-current_epoch}
use limitmark.Defense.UseLedger.{UseLedger, maybe_purge, can_allocate, commit, required_capacity}
use limitmark.Defense.Request.{LayerRequest, OperationClass, open_class, operation_class_of}
use limitmark.Defense.Lanes.{
  Hasher, JourneyLanes, LaneDecision, LanesConfig, L2Outcome, admitted, shed, error, Reads, Credit,
  new_lanes, decide, decide_classified, decide_unverified, decide_credited, take_credited, enroll,
  look_up, token_of,
}
use limitmark.Defense.Lanes.Decision.{
  class_ne, decide-classified, decide-open, classified_cases, epoch_of, looked, prepared,
}
use Payment.{Paid, Paid-take}
use Clocked.{Seen, advance_late, advance-Seen, Seen-trans, Seen-like, look_up-Seen}
use Ledger.{
  Fresh, maybe_purge-Fresh, maybe_purge-last, maybe_purge-capacity, maybe_purge-Paid,
  length-lt-capacity, take-commit-Paid, commit-Fresh, commit-frame, can_allocate-room,
}

-- The lanes at a time when `seen` is the last reading of the clock.
pub record Sized (capacity refill : ℕ) (seen : Clock) (s : JourneyLanes) : Type 0 where
  pub bucket : IsValid s.credited_bucket
  pub units : s.credited_bucket.capacity_units ≡ capacity * unit
  pub rate : s.credited_bucket.refill_per_ms ≡ refill
  pub room : required_capacity capacity refill s.filter.epoch_ms ≤ s.ledger.capacity
  pub lasts : 1 ≤ s.filter.epoch_ms
  pub fresh : Fresh s.ledger
  pub paid : Paid (floor_ms s.filter.t0) s.filter.epoch_ms s.credited_bucket s.ledger.entries
  pub seen_last : s.credited_bucket.last_ms ≤ floor_ms seen
  pub seen_epoch : s.filter.t0 + s.filter.current_epoch * (s.filter.epoch_ms * 1000) ≤ seen
  pub unrefused : s.ledger.full_refusals ≡ 0

-- The readings of one call follow `seen` and one another.
pub record InOrder (seen : Clock) (r : Reads) : Type 0 where
  pub first : seen ≤ r.at_advance
  pub second : r.at_advance ≤ r.at_has
  pub third : r.at_has ≤ r.at_take

pub Sized-later :
    (c ρ : ℕ) (seen later : Clock) (s : JourneyLanes)
    → seen ≤ later
    → Sized c ρ seen s
    → Sized c ρ later s
Sized-later c ρ seen later s le v = record {
  bucket = v.bucket;
  units = v.units;
  rate = v.rate;
  room = v.room;
  lasts = v.lasts;
  fresh = v.fresh;
  paid = v.paid;
  seen_last = omega (arith, v.seen_last);
  seen_epoch = omega (arith, v.seen_epoch);
  unrefused = v.unrefused;
}

-- Only the filter moves.
pub Sized-filter :
    (c ρ : ℕ) (seen now : Clock) (s : JourneyLanes) (f : CreditFilter)
    → Sized c ρ seen s
    → seen ≤ now
    → Seen s.filter f now
    → Sized c ρ now (record s { filter = f })
Sized-filter c ρ seen now s f v le moved = record {
  bucket = v.bucket;
  units = v.units;
  rate = v.rate;
  room = rw moved.shape.epoch_ms v.room;
  lasts = rw moved.shape.epoch_ms v.lasts;
  fresh = v.fresh;
  paid = rw (moved.shape.t0, moved.shape.epoch_ms) v.paid;
  seen_last = omega (arith, v.seen_last);
  seen_epoch = moved.begun;
  unrefused = v.unrefused;
}

Sized-purge :
    (c ρ : ℕ) (seen : Clock) (s : JourneyLanes) (epoch : ℕ)
    → Sized c ρ seen s
    → Sized c ρ seen (record s { ledger = maybe_purge s.ledger epoch })
Sized-purge c ρ seen s epoch v =
    let (room, refusals) = maybe_purge-capacity s.ledger epoch in
    record {
      bucket = v.bucket;
      units = v.units;
      rate = v.rate;
      room = rw room v.room;
      lasts = v.lasts;
      fresh = maybe_purge-Fresh s.ledger epoch v.fresh;
      paid = maybe_purge-Paid _ _ s.credited_bucket s.ledger epoch v.paid;
      seen_last = v.seen_last;
      seen_epoch = v.seen_epoch;
      unrefused = rw refusals v.unrefused;
    }

module _ (h : Hasher) (c ρ : ℕ) (s : JourneyLanes) (seen now : Clock) (v : Sized c ρ seen s)
    (le : seen ≤ now) where
  Sized-take : Sized c ρ now (record s { credited_bucket = (take s.credited_bucket now).0 })
  Sized-take =
      let charged = take-Charged s.credited_bucket now in
      record {
        bucket = take-IsValid s.credited_bucket now v.bucket;
        units = charged.same_capacity ∙ v.units;
        rate = charged.same_refill ∙ v.rate;
        room = v.room;
        lasts = v.lasts;
        fresh = v.fresh;
        paid = Paid-take _ _ s.credited_bucket now v.bucket _ v.paid;
        seen_last =
            take-last_ms-le s.credited_bucket now now (omega (arith, v.seen_last)) (omega arith);
        seen_epoch = omega (arith, v.seen_epoch);
        unrefused = v.unrefused;
      }

  Sized-take-commit :
      (key : String) (epoch : ℕ)
      → (take s.credited_bucket now).1.ok ≡ true
      → s.ledger.last_purge_epoch ≡ epoch
      → s.filter.t0 + epoch * (s.filter.epoch_ms * 1000) ≤ now
      → Sized c ρ now (record s {
        credited_bucket = (take s.credited_bucket now).0;
        ledger = commit s.ledger key epoch;
      })
  Sized-take-commit key epoch ok last begun =
      let t = Sized-take in
      let (room, _, refusals) = commit-frame s.ledger key epoch in
      record {
        bucket = t.bucket;
        units = t.units;
        rate = t.rate;
        room = rw room v.room;
        lasts = v.lasts;
        fresh = commit-Fresh s.ledger key epoch last v.fresh;
        paid =
            take-commit-Paid _ _ s.credited_bucket s.ledger key epoch now v.bucket v.paid ok
              (omega (arith, le-take-last_ms s.credited_bucket now));
        seen_last = t.seen_last;
        seen_epoch = t.seen_epoch;
        unrefused = rw refusals v.unrefused;
      }

module _ (h : Hasher) (c ρ : ℕ) (s : JourneyLanes) (r : Reads) (request : LayerRequest)
    (cls : OperationClass) (seen : Clock) (v : Sized c ρ seen s) (ord : InOrder seen r) where
  abbrev epoch : ℕ
  epoch = epoch_of h s r request

  filter-Seen : Seen (advance s.filter r.at_advance) (looked h s r request cls).0 r.at_has
  filter-Seen =
      let first = advance-Seen s.filter seen r.at_advance v.seen_epoch ord.first in
      look_up-Seen h (advance s.filter r.at_advance) _ _ r.at_advance r.at_has _ first.begun
        ord.second

  prepared-Sized : Sized c ρ r.at_take (prepared h s r request cls)
  prepared-Sized =
      let first = advance-Seen s.filter seen r.at_advance v.seen_epoch ord.first in
      Sized-later c ρ r.at_has r.at_take _ ord.third (
        Sized-filter c ρ seen r.at_has _ _ (Sized-purge c ρ seen s epoch v)
          (omega (arith, ord.first, ord.second))
          (Seen-trans _ _ _ r.at_advance r.at_has first filter-Seen))

  -- There is room for a record whenever the lanes look for it.
  prepared-room :
      can_allocate (prepared h s r request cls).ledger epoch
      ≡ ((prepared h s r request cls).ledger, true)
  prepared-room =
      let t = Sized-purge c ρ seen s epoch v in
      can_allocate-room (maybe_purge s.ledger epoch) epoch (
        length-lt-capacity (floor_ms s.filter.t0) s.filter.epoch_ms s.credited_bucket
          (maybe_purge s.ledger epoch) c ρ epoch t.units t.rate t.room
          (omega (arith, v.seen_last, ord.first, advance_late s.filter r.at_advance v.lasts))
          (maybe_purge-last s.ledger epoch) t.fresh t.paid)

  taken_begun :
      (looked h s r request cls).0.t0 + epoch * ((looked h s r request cls).0.epoch_ms * 1000)
      ≤ r.at_take
  taken_begun =
      let first = advance-Seen s.filter seen r.at_advance v.seen_epoch ord.first in
      rw (filter-Seen.shape.t0, filter-Seen.shape.epoch_ms)
        (omega (arith, first.begun, ord.second, ord.third))

  -- What the theorem says of one decision: no refusal for want of room, and the bound is kept.
  unfoldable pub Kept : JourneyLanes × LaneDecision → Type 0
  Kept (t, d) = Sized c ρ r.at_take t × (d.outcome ≢ error)

  credited-Kept :
      (k : Credit) → Kept (take_credited h (prepared h s r request cls) cls epoch k r.at_take)
  unfolding take_credited Kept
  credited-Kept k =
      let t = prepared h s r request cls in
      let p = prepared-Sized in
      elim (Bool-cases (take t.credited_bucket r.at_take).1.ok) [
        | inl ok ↦ rw ok (
          Sized-take-commit h c ρ t r.at_take r.at_take p (omega arith) k.key epoch ok
              (maybe_purge-last s.ledger epoch) taken_begun,
          ground arith,
        )
        | inr no_token ↦
            rw no_token (Sized-take h c ρ t r.at_take r.at_take p (omega arith), ground arith)
      ]

  pub unverified-Kept : Kept (decide_unverified h (prepared h s r request cls) cls r.at_take)
  unfolding decide_unverified Kept
  unverified-Kept =
      let p = prepared-Sized in
      (
        record {
          bucket = p.bucket;
          units = p.units;
          rate = p.rate;
          room = p.room;
          lasts = p.lasts;
          fresh = p.fresh;
          paid = p.paid;
          seen_last = p.seen_last;
          seen_epoch = p.seen_epoch;
          unrefused = p.unrefused;
        },
        ground arith,
      )

  pub decide_credited-Kept :
      (k : Credit) → Kept (decide_credited h (prepared h s r request cls) cls epoch k r.at_take)
  unfolding decide_credited
  decide_credited-Kept k = elim (Option-cases k.used) [
    | inl fresh ↦ rw (fresh, prepared-room) (credited-Kept k)
    | inr (n, used) ↦ rw used (credited-Kept k)
  ]
