-- ===== src/Defense/CreditFilter.antt =====
-- defense/core/credit-filter.ts: the keyed Bloom filter of two generations. A digest is the list
-- of its bytes; `index & mask` is the remainder by `bits`, which the constructor holds to a power
-- of two.
mod Tests
pub mod Bytes
pub mod Rotation
pub mod Window
use Prim.Native.Nat.{bit_and, bit_or}
use limitmark.Common.{
  ℕ, zero, suc, ◌+◌, ◌-◌, ◌*◌, ◌/◌, ◌%◌, ◌^◌, min, leb, ltb, ◌==◌, not, if◌then◌else◌, Bool, true,
  false, ◌&&◌, ◌||◌, Option, none, some, List, get_or, write, replicate,
}
use limitmark.Common.Bits.{is_set, raise}
use limitmark.Defense.Bucket.{Clock}

abbrev pub Digest : Type 0
Digest = List ℕ

-- A bit array with the number of its bits that are set.
pub record Generation : Type 0 where
  pub array : List ℕ
  pub popcount : ℕ

pub record CreditFilter : Type 0 where
  pub bits : ℕ
  pub hashes : ℕ
  pub epoch_ms : ℕ
  pub t0 : Clock
  pub even : Generation
  pub odd : Generation
  pub current_epoch : ℕ
  pub inserts : ℕ
  pub lookups : ℕ
  pub hits : ℕ
  pub rotations : ℕ

abbrev pub blank : ℕ → Generation
blank bits = record { array = replicate (bits / 8) 0; popcount = 0 }

-- The constructor; `none` is its `throw`.
unfoldable pub new_filter : ℕ → ℕ → ℕ → Clock → Option CreditFilter
new_filter bits hashes epoch_ms now =
    if ltb bits 64 || ltb (2 ^ 30) bits || not (bit_and bits (bits - 1) == 0)
    then none
    else if ltb hashes 1 || ltb 16 hashes
    then none
    else if ltb epoch_ms 1
    then none
    else some (record {
      bits = bits;
      hashes = hashes;
      epoch_ms = epoch_ms;
      t0 = now;
      even = blank bits;
      odd = blank bits;
      current_epoch = 0;
      inserts = 0;
      lookups = 0;
      hits = 0;
      rotations = 0;
    })

-- `arrays[slot]` and `counts[slot]` at `slot = epoch & 1`
abbrev pub generation : CreditFilter → ℕ → Generation
generation f epoch = if epoch % 2 == 0 then f.even else f.odd

abbrev pub with_generation : CreditFilter → ℕ → Generation → CreditFilter
with_generation f epoch g = if epoch % 2 == 0 then record f { even = g } else record f { odd = g }

-- `-` stops at 0, as `Math.max(0, …)` does.
abbrev pub epoch_now : CreditFilter → Clock → ℕ
epoch_now f now = (now - f.t0) / (f.epoch_ms * 1000)

-- One round of the loop of `advance`: the array of the epoch that is entered is zeroed.
pub rotate : CreditFilter → ℕ → CreditFilter
rotate f entering =
    let g = with_generation f entering (blank f.bits) in record g { rotations = g.rotations + 1 }

pub rotate_steps : CreditFilter → ℕ → ℕ → CreditFilter
rotate_steps f zero entering = f
rotate_steps f (suc steps) entering = rotate_steps (rotate f entering) steps (entering + 1)

pub advance : CreditFilter → Clock → CreditFilter
unfolding rotate rotate_steps
advance f now =
    let target = epoch_now f now in
    if ltb f.current_epoch target
    then (let steps = min (target - f.current_epoch) 2 in
        record (rotate_steps f steps (target - steps + 1)) { current_epoch = target })
    else f

read_u32_le : Digest → ℕ → ℕ
read_u32_le d i =
    get_or d i 0
    + get_or d (i + 1) 0 * 256
    + get_or d (i + 2) 0 * 65536
    + get_or d (i + 3) 0 * 16777216

-- Enhanced double hashing in 32-bit unsigned arithmetic.
pub index : ℕ → Digest → ℕ → ℕ
unfolding read_u32_le
index bits d i = (read_u32_le d 0 + i * bit_or (read_u32_le d 4) 1 + i * i) % 2 ^ 32 % bits

pub test_bit : List ℕ → ℕ → Bool
test_bit array bit = is_set (get_or array (bit / 8) 0) (bit % 8)

-- The loop of `test`, from the hash number `i` on, with `left` rounds to go.
pub test_from : List ℕ → ℕ → Digest → ℕ → ℕ → Bool
test_from array bits d zero i = true
test_from array bits d (suc left) i =
    test_bit array (index bits d i) && test_from array bits d left (i + 1)

pub test : CreditFilter → ℕ → Digest → Bool
test f epoch d = test_from (generation f epoch).array f.bits d f.hashes 0

pub has_digest : CreditFilter → Clock → Digest → CreditFilter × Bool
has_digest f now d =
    let g = advance f now in
    let epoch = g.current_epoch in
    let hit = test g epoch d || leb 1 epoch && test g (epoch - 1) d in
    (record g { lookups = g.lookups + 1; hits = if hit then g.hits + 1 else g.hits }, hit)

pub has_in_active : CreditFilter → Clock → Digest → CreditFilter × Bool
has_in_active f now d = let g = advance f now in (g, test g g.current_epoch d)

pub set_bit : Generation → ℕ → Generation
unfolding test_bit
set_bit g bit = if test_bit g.array bit then g else record {
  array = write g.array (bit / 8) (raise (get_or g.array (bit / 8) 0) (bit % 8));
  popcount = g.popcount + 1;
}

-- The loop of `insert`.
pub set_bits : Generation → ℕ → Digest → ℕ → ℕ → Generation
set_bits g bits d zero i = g
set_bits g bits d (suc left) i = set_bits (set_bit g (index bits d i)) bits d left (i + 1)

pub insert : CreditFilter → Clock → Digest → CreditFilter
insert f now d =
    let g = advance f now in
    let epoch = g.current_epoch in
    let h = with_generation g epoch (set_bits (generation g epoch) g.bits d g.hashes 0) in
    record h { inserts = h.inserts + 1 }

-- The `popcount` of `stats()`: of the active and of the previous generation.
pub filter_stats : CreditFilter → Clock → CreditFilter × (ℕ × ℕ)
filter_stats f now =
    let g = advance f now in
    let epoch = g.current_epoch in
    (
      g,
      (
        (generation g epoch).popcount,
        if leb 1 epoch then (generation g (epoch - 1)).popcount else 0,
      ),
    )
