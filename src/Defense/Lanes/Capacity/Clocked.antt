-- ===== src/Defense/Lanes/Capacity/Clocked.antt =====
-- defense/core/lanes.ts: how far the epoch of the credit filter can be from the clock.
use native.Mathlib.Nat.{div-mul-le_self, div-add-mod, mod-lt, add-mul, mul_comm, mul-le-mul_right}
use limitmark.Common.{
  ℕ, ◌+◌, ◌-◌, ◌*◌, ◌/◌, ◌%◌, ◌≤◌, ◌<◌, ◌≡◌, ◌⊎◌, inl, inr, max, Option, none, some, List, arith,
  Bool-cases,
}
use limitmark.Defense.Bucket.{Clock, floor_ms}
use limitmark.Defense.CreditFilter.{CreditFilter, epoch_now, advance, has_digest}
use limitmark.Defense.CreditFilter.Rotation.{SameShape, advance-SameShape, advance-current_epoch}
use limitmark.Defense.CreditFilter.Window.{calls-advance}
use limitmark.Defense.UseLedger.{UseLedger}
use limitmark.Defense.Lanes.{Hasher, look_up}

advance_seen :
    (f : CreditFilter) (seen now : Clock)
    → f.t0 + f.current_epoch * (f.epoch_ms * 1000) ≤ seen
    → seen ≤ now
    → (advance f now).t0 + (advance f now).current_epoch * ((advance f now).epoch_ms * 1000) ≤ now
advance_seen f seen now h le =
    let same = advance-SameShape f now in
    rw (same.t0, same.epoch_ms, advance-current_epoch f now)
      (elim (max-cases f.current_epoch (epoch_now f now)) [
        | inl e ↦ rw e (omega arith)
        | inr e ↦ rw e (omega (arith, div-mul-le_self (now - f.t0) (f.epoch_ms * 1000)))
      ])
  where
    max-cases : (a b : ℕ) → (max a b ≡ a) ⊎ (max a b ≡ b)
    max-cases a b = omega arith

-- The clock has not passed the end of the epoch that the filter has advanced to.
pub advance_late :
    (f : CreditFilter) (now : Clock)
    → 1 ≤ f.epoch_ms
    → floor_ms now ≤ floor_ms f.t0 + ((advance f now).current_epoch + 1) * f.epoch_ms
advance_late f now h =
    let len = f.epoch_ms * 1000 in
    let q = (now - f.t0) / len in
    let inside : (now - f.t0) % len < len = mod-lt (now - f.t0) (omega arith) in
    let whole : len * q + (now - f.t0) % len ≡ now - f.t0 = div-add-mod (now - f.t0) len in
    let steps : (q + 1) * f.epoch_ms ≤ ((advance f now).current_epoch + 1) * f.epoch_ms =
      mul-le-mul_right f.epoch_ms (omega (arith, advance-current_epoch f now)) in
    omega (arith, add-mul q 1 f.epoch_ms, mul_comm len q)

-- A filter with the same parameters that has moved no further than the clock.
pub record Seen (f g : CreditFilter) (now : Clock) : Type 0 where
  pub shape : SameShape f g
  pub begun : g.t0 + g.current_epoch * (g.epoch_ms * 1000) ≤ now

pub advance-Seen :
    (f : CreditFilter) (seen now : Clock)
    → f.t0 + f.current_epoch * (f.epoch_ms * 1000) ≤ seen
    → seen ≤ now
    → Seen f (advance f now) now
advance-Seen f seen now begun le = record {
  shape = advance-SameShape f now;
  begun = advance_seen f seen now begun le;
}

-- Another filter at the same epoch.
pub Seen-like :
    (f g k : CreditFilter) (now : Clock)
    → Seen f g now
    → SameShape f k
    → k.current_epoch ≡ g.current_epoch
    → Seen f k now
Seen-like f g k now seen same e = ground (arith, seen, same)

pub Seen-trans :
    (f g k : CreditFilter) (now later : Clock) → Seen f g now → Seen g k later → Seen f k later
Seen-trans f g k now later p q = ground (arith, p, q)

pub look_up-Seen :
    (h : Hasher) (f : CreditFilter) (l : UseLedger) (epoch : ℕ) (seen now : Clock)
    (token : Option (List ℕ))
    → f.t0 + f.current_epoch * (f.epoch_ms * 1000) ≤ seen
    → seen ≤ now
    → Seen f (look_up h f l epoch now token).0 now
unfolding look_up
look_up-Seen h f l epoch seen now none begun le = ground arith
look_up-Seen h f l epoch seen now (some token) begun le =
    let (shape, moved) = (calls-advance f now (h.digest token)).0 in
    let same =
      Seen-like f (advance f now) (has_digest f now (h.digest token)).0 now
        (advance-Seen f seen now begun le) shape moved in
    elim (Bool-cases (has_digest f now (h.digest token)).1) [
      | inl hit ↦ rw hit same
      | inr miss ↦ rw miss same
    ]
