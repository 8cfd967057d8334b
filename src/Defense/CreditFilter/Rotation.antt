-- ===== src/Defense/CreditFilter/Rotation.antt =====
-- defense/core/credit-filter.ts: what `advance` does to the two generations.
use limitmark.Common.{
  ℕ, ◌+◌, ◌-◌, ◌*◌, ◌/◌, ◌≤◌, ◌<◌, ◌≡◌, ap, sym, ◌∙◌, ◌⊎◌, inl, inr, min, max, arith, some, lt→ltb,
  length-replicate, All-replicate,
}
use limitmark.Common.Bits.{power_test-bytes}
use limitmark.Defense.Bucket.{Clock}
use limitmark.Defense.CreditFilter.Bytes.{HoldsBits}
use limitmark.Defense.CreditFilter.{
  CreditFilter, blank, new_filter, generation, epoch_now, rotate, rotate_steps, advance,
}

pub record IsValid (f : CreditFilter) : Type 0 where
  pub even_bits : HoldsBits f.bits f.even
  pub odd_bits : HoldsBits f.bits f.odd
  pub sized : 64 ≤ f.bits
  pub whole : f.bits ≡ 8 * (f.bits / 8)
  pub hashed : 1 ≤ f.hashes

pub generation-HoldsBits :
    (f : CreditFilter) (e : ℕ) → IsValid f → HoldsBits f.bits (generation f e)
generation-HoldsBits f e v = ground arith

-- A filter with the same parameters.
pub record SameShape (f g : CreditFilter) : Type 0 where
  pub bits : g.bits ≡ f.bits
  pub hashes : g.hashes ≡ f.hashes
  pub epoch_ms : g.epoch_ms ≡ f.epoch_ms
  pub t0 : g.t0 ≡ f.t0

module _ (f : CreditFilter) (now : Clock) where
  pub advance_stay : epoch_now f now ≤ f.current_epoch → advance f now ≡ f
  unfolding advance
  advance_stay h = ground arith

  advance_one :
      epoch_now f now ≡ f.current_epoch + 1
      → advance f now ≡ record (rotate f (epoch_now f now)) { current_epoch = epoch_now f now }
  unfolding advance rotate_steps
  advance_one h =
      let steps : min (epoch_now f now - f.current_epoch) 2 ≡ 1 = omega arith in
      let entering : epoch_now f now - 1 + 1 ≡ epoch_now f now = omega arith in
      rw (lt→ltb f.current_epoch (epoch_now f now) (omega arith), steps) (rw entering)

  advance_two :
      f.current_epoch + 2 ≤ epoch_now f now
      → advance f now ≡ record (rotate (rotate f (epoch_now f now - 1)) (epoch_now f now)) {
        current_epoch = epoch_now f now;
      }
  unfolding advance rotate_steps
  advance_two h =
      let steps : min (epoch_now f now - f.current_epoch) 2 ≡ 2 = omega arith in
      let entering : epoch_now f now - 2 + 1 ≡ epoch_now f now - 1 = omega arith in
      let last : epoch_now f now - 1 + 1 ≡ epoch_now f now = omega arith in
      rw (lt→ltb f.current_epoch (epoch_now f now) (omega arith), steps) (rw (entering, last))

  -- The three ways in which the epoch moves.
  pub advance_cases :
      (epoch_now f now ≤ f.current_epoch)
      ⊎ ((epoch_now f now ≡ f.current_epoch + 1) ⊎ (f.current_epoch + 2 ≤ epoch_now f now))
  advance_cases = omega arith

  pub advance-current_epoch : (advance f now).current_epoch ≡ max f.current_epoch (epoch_now f now)
  advance-current_epoch = elim advance_cases [
    | inl h ↦ rw (advance_stay h) (omega arith)
    | inr (inl h) ↦ rw (advance_one h) (omega arith)
    | inr (inr h) ↦ rw (advance_two h) (omega arith)
  ]

  pub advance-SameShape : SameShape f (advance f now)
  unfolding rotate
  advance-SameShape = elim advance_cases [
    | inl h ↦ rw (advance_stay h) (ground arith)
    | inr (inl h) ↦ rw (advance_one h) (ground arith)
    | inr (inr h) ↦ rw (advance_two h) (ground arith)
  ]

  -- The generation of an epoch survives until the second epoch after it begins.
  pub generation-advance_kept :
      (e : ℕ)
      → e ≤ f.current_epoch
      → f.current_epoch ≤ e + 1
      → epoch_now f now ≤ e + 1
      → generation (advance f now) e ≡ generation f e
  unfolding rotate
  generation-advance_kept e lo hi late = elim advance_cases [
    | inl h ↦ rw (advance_stay h)
    | inr (inl h) ↦ rw (advance_one h) (ground arith)
    | inr (inr h) ↦ absurd (omega arith)
  ]

  -- An epoch begins with an empty generation; a filter that was idle for more than an epoch has
  -- an empty previous generation too.
  pub generation-advance_fresh :
      f.current_epoch < epoch_now f now
      → (generation (advance f now) (epoch_now f now) ≡ blank f.bits)
        × (f.current_epoch + 2 ≤ epoch_now f now
            → generation (advance f now) (epoch_now f now - 1) ≡ blank f.bits)
  unfolding rotate
  generation-advance_fresh lt = elim advance_cases [
    | inl h ↦ absurd (omega arith)
    | inr (inl h) ↦ rw (advance_one h) (ground arith, λ k. absurd (omega arith))
    | inr (inr h) ↦ rw (advance_two h) (ground arith, λ k. ground arith)
  ]

blank-HoldsBits : (bits : ℕ) → bits ≡ 8 * (bits / 8) → HoldsBits bits (blank bits)
blank-HoldsBits bits h = record {
  bytes = All-replicate (λ b. b < 256) (bits / 8) 0 (omega arith);
  room = h ∙ ap (λ n. 8 * n) (sym (length-replicate (bits / 8) 0));
}

rotate-IsValid : (f : CreditFilter) (e : ℕ) → IsValid f → IsValid (rotate f e)
unfolding rotate
rotate-IsValid f e v = ground (arith, blank-HoldsBits f.bits v.whole)

pub advance-IsValid : (f : CreditFilter) (now : Clock) → IsValid f → IsValid (advance f now)
advance-IsValid f now v = elim (advance_cases f now) [
  | inl h ↦ rw (advance_stay f now h) v
  | inr (inl h) ↦ rw (advance_one f now h) (
      let w = rotate-IsValid f (epoch_now f now) v in
      record {
        even_bits = w.even_bits;
        odd_bits = w.odd_bits;
        sized = w.sized;
        whole = w.whole;
        hashed = w.hashed;
      })
  | inr (inr h) ↦ rw (advance_two f now h) (
      let w =
        rotate-IsValid (rotate f (epoch_now f now - 1)) (epoch_now f now)
          (rotate-IsValid f (epoch_now f now - 1) v) in
      record {
        even_bits = w.even_bits;
        odd_bits = w.odd_bits;
        sized = w.sized;
        whole = w.whole;
        hashed = w.hashed;
      })
]

pub new_filter-IsValid :
    (bits hashes epoch_ms : ℕ) (now : Clock) (f : CreditFilter)
    → new_filter bits hashes epoch_ms now ≡ some f
    → IsValid f
unfolding new_filter
new_filter-IsValid bits hashes epoch_ms now f e =
    ground (arith, power_test-bytes bits, blank-HoldsBits bits)

pub new_filter_start :
    (bits hashes epoch_ms : ℕ) (now : Clock) (f : CreditFilter)
    → new_filter bits hashes epoch_ms now ≡ some f
    → (f.t0 ≡ now) × (f.epoch_ms ≡ epoch_ms) × (f.current_epoch ≡ 0) × (1 ≤ epoch_ms)
unfolding new_filter
new_filter_start bits hashes epoch_ms now f e = ground arith
