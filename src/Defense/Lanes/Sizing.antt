-- ===== src/Defense/Lanes/Sizing.antt =====
-- defense/core/lanes.ts: every run of `decide`, `enroll` and `record` from the constructor on.
use limitmark.Common.Table.{Table}
use limitmark.Common.{
  ℕ, ◌≤◌, ◌≡◌, ◌≢◌, refl, inl, inr, Option, none, some, List, [], ◌∷◌, arith, Bool-cases,
  Option-cases,
}
use limitmark.Defense.Bucket.{Clock, new_bucket}
use limitmark.Defense.CreditFilter.{CreditFilter, new_filter, advance, has_in_active, insert}
use limitmark.Defense.Bucket.Bound.{new_bucket_start, new_bucket-IsValid}
use limitmark.Defense.CreditFilter.Rotation.{new_filter_start}
use limitmark.Defense.UseLedger.Laws.{new_ledger_start}
use limitmark.Defense.CreditFilter.Window.{calls-advance}
use limitmark.Defense.UseLedger.{new_ledger, required_capacity, committed}
use limitmark.Defense.Request.{LayerRequest, operation_class_of}
use limitmark.Defense.Lanes.{
  Lane, open_lane, credited, unverified, LaneDecision, error, Hasher, LanesConfig, JourneyLanes,
  new_lanes, Reads, decide, enroll, record_decision,
}
use limitmark.Defense.Lanes.Decision.{class_ne, decide-classified, decide-open, classified_cases}
use limitmark.Defense.Lanes.Capacity.{
  Sized, InOrder, Sized-later, Sized-filter, Kept, decide_credited-Kept, unverified-Kept,
}
use limitmark.Defense.Lanes.Capacity.Clocked.{Seen, advance-Seen, Seen-like, Seen-trans}

decide-Kept :
    (h : Hasher) (c ρ : ℕ) (s : JourneyLanes) (seen : Clock) (r : Reads) (request : LayerRequest)
    → Sized c ρ seen s
    → InOrder seen r
    → Sized c ρ r.at_take (decide h s r request).0 × ((decide h s r request).1.outcome ≢ error)
unfolding Kept
decide-Kept h c ρ s seen r request v ord =
    elim (class_ne (operation_class_of request.method request.target)) [
      | inl e ↦ rw (decide-open h s r request e) (
        Sized-later c ρ seen r.at_take s (omega (arith, ord.first, ord.second, ord.third)) v,
        λ e. cc,
      )
      | inr ne ↦ rw (decide-classified h s r request ne) (
          classified_cases h s r request _ (λ d. Sized c ρ r.at_take d.0 × (d.1.outcome ≢ error))
            (unverified-Kept h c ρ s r request _ seen v ord)
            (λ k found left. decide_credited-Kept h c ρ s r request _ seen v ord k))
    ]

module _ (h : Hasher) (c ρ : ℕ) (s : JourneyLanes) (seen : Clock) (r : Reads) (v : Sized c ρ seen s)
    (ord : InOrder seen r) where
  advanced : Seen s.filter (advance s.filter r.at_advance) r.at_advance
  advanced = advance-Seen s.filter seen r.at_advance v.seen_epoch ord.first

  asked :
      (token : List ℕ)
      → Seen s.filter
          (has_in_active (advance s.filter r.at_advance) r.at_has (h.digest token)).0
          r.at_has
  asked token =
      let f = advance s.filter r.at_advance in
      let (_, (shape, moved), _) = calls-advance f r.at_has (h.digest token) in
      Seen-trans _ f _ r.at_advance r.at_has advanced (
        Seen-like f (advance f r.at_has) _ r.at_has
          (advance-Seen f r.at_advance r.at_has advanced.begun ord.second) shape moved)

  inserted :
      (token : List ℕ)
      → Seen s.filter
          (insert
            (has_in_active (advance s.filter r.at_advance) r.at_has (h.digest token)).0
            r.at_take
            (h.digest token))
          r.at_take
  inserted token =
      let f = (has_in_active (advance s.filter r.at_advance) r.at_has (h.digest token)).0 in
      let (_, _, (shape, moved)) = calls-advance f r.at_take (h.digest token) in
      Seen-trans _ f _ r.at_has r.at_take (asked token) (
        Seen-like f (advance f r.at_take) _ r.at_take
          (advance-Seen f r.at_has r.at_take (asked token).begun ord.third) shape moved)

  enroll-Sized : (token : List ℕ) → Sized c ρ r.at_take (enroll h s r token).0
  unfolding enroll
  enroll-Sized token =
      let later =
        λ (now : Clock) (f : CreditFilter) (le : seen ≤ now) (last : now ≤ r.at_take)
            (moved : Seen s.filter f now).
          Sized-later c ρ now r.at_take _ last (Sized-filter c ρ seen now s f v le moved) in
      let start : seen ≤ r.at_advance = ord.first in
      elim (Option-cases (
        committed s.ledger (h.base64url (h.digest token))
          (advance s.filter r.at_advance).current_epoch)) [
            | inr (n, used) ↦
                rw (used, enroll)
                  (later r.at_advance _ start (omega (arith, ord.second, ord.third)) advanced)
            | inl unused ↦
                elim (Bool-cases
                  (has_in_active (advance s.filter r.at_advance) r.at_has (h.digest token)).1) [
                    | inl active ↦
                        rw (unused, enroll)
                          (rw active (
                            later r.at_has _ (omega (arith, ord.first, ord.second)) ord.third
                              (asked token)))
                    | inr blank ↦
                        rw (unused, enroll)
                          (rw blank (
                            later r.at_take _ (omega (arith, ord.first, ord.second, ord.third))
                              (omega arith) (inserted token)))
                  ]
          ]

-- Calls of the lanes' operations, in order, and the decisions they make.
pub data LanesCall : Type 0 where
  decides : Reads → LayerRequest → LanesCall
  enrolls : Reads → List ℕ → LanesCall
  records : LaneDecision → LanesCall

pub lanes_run : Hasher → JourneyLanes → List LanesCall → JourneyLanes × List LaneDecision
lanes_run h s [] = (s, [])
lanes_run h s (decides r request ∷ calls) =
    let (t, d) = decide h s r request in let (last, made) = lanes_run h t calls in (last, d ∷ made)
lanes_run h s (enrolls r token ∷ calls) = lanes_run h (enroll h s r token).0 calls
lanes_run h s (records d ∷ calls) = lanes_run h (record_decision s d) calls

-- Each reading of the clock is not before the one that precedes it.
abbrev pub AllInOrder : Clock → List LanesCall → Type 0
AllInOrder seen [] = Unit
AllInOrder seen (decides r request ∷ calls) = InOrder seen r × AllInOrder r.at_take calls
AllInOrder seen (enrolls r token ∷ calls) = InOrder seen r × AllInOrder r.at_take calls
AllInOrder seen (records d ∷ calls) = AllInOrder seen calls

abbrev pub NoneIsError : List LaneDecision → Type 0
NoneIsError [] = Unit
NoneIsError (d ∷ made) = (d.outcome ≢ error) × NoneIsError made

Sized-counts :
    (c ρ : ℕ) (s : JourneyLanes) (seen : Clock) (counts : Table ℕ) (n m : ℕ)
    → Sized c ρ seen s
    → Sized c ρ seen
        (record s { decision_counts = counts; spent_credited = n; spent_unverified = m })
Sized-counts c ρ s seen counts n m v = record {
  bucket = v.bucket;
  units = v.units;
  rate = v.rate;
  room = v.room;
  lasts = v.lasts;
  fresh = v.fresh;
  paid = v.paid;
  seen_last = v.seen_last;
  seen_epoch = v.seen_epoch;
  unrefused = v.unrefused;
}

record_decision-Sized :
    (c ρ : ℕ) (s : JourneyLanes) (seen : Clock) (d : LaneDecision)
    → Sized c ρ seen s
    → Sized c ρ seen (record_decision s d)
unfolding record_decision
record_decision-Sized c ρ s seen d v = go d.spent refl
  where
    go : (x : Option Lane) → d.spent ≡ x → Sized c ρ seen (record_decision s d)
    go none e = rw (e, record_decision) (Sized-counts c ρ s seen _ _ _ v)
    go (some open_lane) e = rw (e, record_decision) (Sized-counts c ρ s seen _ _ _ v)
    go (some credited) e = rw (e, record_decision) (Sized-counts c ρ s seen _ _ _ v)
    go (some unverified) e = rw (e, record_decision) (Sized-counts c ρ s seen _ _ _ v)

lanes_run-Sized :
    (h : Hasher) (c ρ : ℕ) (s : JourneyLanes) (seen : Clock) (calls : List LanesCall)
    → Sized c ρ seen s
    → AllInOrder seen calls
    → NoneIsError (lanes_run h s calls).1 × ((lanes_run h s calls).0.ledger.full_refusals ≡ 0)
unfolding lanes_run
lanes_run-Sized h c ρ s seen [] v ord = (tt, v.unrefused)
lanes_run-Sized h c ρ s seen (decides r request ∷ calls) v ord =
    let (kept, fine) = decide-Kept h c ρ s seen r request v ord.0 in
    let (rest, zero) = lanes_run-Sized h c ρ (decide h s r request).0 r.at_take calls kept ord.1 in
    ((fine, rest), zero)
lanes_run-Sized h c ρ s seen (enrolls r token ∷ calls) v ord =
    lanes_run-Sized h c ρ (enroll h s r token).0 r.at_take calls
      (enroll-Sized h c ρ s seen r v ord.0 token) ord.1
lanes_run-Sized h c ρ s seen (records d ∷ calls) v ord =
    lanes_run-Sized h c ρ (record_decision s d) seen calls (record_decision-Sized c ρ s seen d v)
      ord

new_lanes_parts :
    (config : LanesConfig) (t_filter t_credited t_unverified : Clock) (s : JourneyLanes)
    → new_lanes config t_filter t_credited t_unverified ≡ some s
    → (required_capacity config.credited_capacity config.credited_refill config.epoch_ms
        ≤ config.ledger_capacity)
      × (new_filter config.filter_bits config.filter_hashes config.epoch_ms t_filter
          ≡ some s.filter)
      × (new_bucket config.credited_capacity config.credited_refill t_credited
          ≡ some s.credited_bucket)
      × (new_ledger config.ledger_capacity config.max_uses ≡ some s.ledger)
unfolding new_lanes
new_lanes_parts config t_filter t_credited t_unverified s e = ground arith

new_lanes-Sized :
    (config : LanesConfig) (t_filter t_credited t_unverified : Clock) (s : JourneyLanes)
    → t_filter ≤ t_credited
    → new_lanes config t_filter t_credited t_unverified ≡ some s
    → Sized config.credited_capacity config.credited_refill t_credited s
new_lanes-Sized config t_filter t_credited t_unverified s le e =
    let (room, f, b, l) = new_lanes_parts config t_filter t_credited t_unverified s e in
    let (t0, epoch_ms, epoch, lasts) = new_filter_start _ _ _ t_filter s.filter f in
    let (units, rate, level, last) = new_bucket_start _ _ t_credited s.credited_bucket b in
    let (capacity, entries, purge, refusals) = new_ledger_start _ _ s.ledger l in
    record {
      bucket = new_bucket-IsValid _ _ t_credited s.credited_bucket b;
      units = units;
      rate = rate;
      room = rw (epoch_ms, capacity) room;
      lasts = rw epoch_ms lasts;
      fresh = rw entries tt;
      paid = rw entries (record { begun = tt; paid = λ f. omega (arith, level) });
      seen_last = omega (arith, last);
      seen_epoch = rw (t0, epoch) (omega (arith, le));
      unrefused = refusals;
    }

-- For lanes that the constructor has made, whatever the decisions, enrolments and records that
-- follow in the order of their readings, no decision is an error and the ledger, which the
-- constructor has sized, never refuses a record for want of room.
pub lanes_run-NoneIsError :
    (h : Hasher) (config : LanesConfig) (t_filter t_credited t_unverified : Clock)
    (s : JourneyLanes) (calls : List LanesCall)
    → t_filter ≤ t_credited
    → new_lanes config t_filter t_credited t_unverified ≡ some s
    → AllInOrder t_credited calls
    → NoneIsError (lanes_run h s calls).1 × ((lanes_run h s calls).0.ledger.full_refusals ≡ 0)
lanes_run-NoneIsError h config t_filter t_credited t_unverified s calls le e ord =
    lanes_run-Sized h config.credited_capacity config.credited_refill s t_credited calls
      (new_lanes-Sized config t_filter t_credited t_unverified s le e) ord
