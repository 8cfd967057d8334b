-- ===== src/Defense/CreditFilter/Bytes.antt =====
-- defense/core/credit-filter.ts: the bits of one generation under `insert`.
use limitmark.Common.{
  ℕ, zero, suc, ◌+◌, ◌*◌, ◌/◌, ◌%◌, ◌<◌, ◌≡◌, refl, ap, sym, ◌∙◌, inl, inr, true, All, arith,
  Bool-cases, length, get_or, length-write, get_or-write_self, get_or-write_ne, All-write,
  All-get_or, ==_iff, ◌==◌,
}
use native.Mathlib.Nat.{mod-lt}
use limitmark.Common.Bits.{is_set-raise, raise-lt, is_set-raise_of}
use limitmark.Defense.CreditFilter.{
  Generation, Digest, test_bit, test_from, set_bit, set_bits, index,
}

-- An array of bytes with room for `bits` bits.
pub record HoldsBits (bits : ℕ) (g : Generation) : Type 0 where
  pub bytes : All (λ b. b < 256) g.array
  pub room : bits ≡ 8 * length g.array

module _ (bits : ℕ) (g : Generation) (h : HoldsBits bits g) (bit : ℕ) (k : bit < bits) where
  inside : bit / 8 < length g.array
  inside = omega (arith, h.room)

  byte_lt : get_or g.array (bit / 8) 0 < 256
  byte_lt = All-get_or (λ b. b < 256) g.array (bit / 8) 0 h.bytes (omega arith)

  pub set_bit-HoldsBits : HoldsBits bits (set_bit g bit)
  unfolding set_bit
  set_bit-HoldsBits = elim (Bool-cases (test_bit g.array bit)) [
    | inl e ↦ rw (e, set_bit) h
    | inr e ↦
        rw (e, set_bit)
          (record {
            bytes =
                All-write (λ b. b < 256) g.array (bit / 8) _ h.bytes
                  (raise-lt (bit % 8) _ (omega arith) byte_lt);
            room = h.room ∙ ap (λ n. 8 * n) (sym (length-write g.array (bit / 8) _));
          })
  ]

  pub test_bit-set_bit : test_bit (set_bit g bit).array bit ≡ true
  unfolding set_bit
  test_bit-set_bit = elim (Bool-cases (test_bit g.array bit)) [
    | inl e ↦ rw (e, set_bit) e
    | inr e ↦
        rw (e, set_bit)
          (rw (get_or-write_self g.array (bit / 8) _ 0 inside)
            (is_set-raise (bit % 8) _ (omega arith) byte_lt))
  ]

  pub test_bit-set_bit_of :
      (other : ℕ) → test_bit g.array other ≡ true → test_bit (set_bit g bit).array other ≡ true
  unfolding set_bit
  test_bit-set_bit_of other t = elim (Bool-cases (test_bit g.array bit)) [
    | inl e ↦ rw (e, set_bit) t
    | inr e ↦
        rw (e, set_bit)
          (elim (Bool-cases (bit / 8 == other / 8)) [
            | inl same ↦
                let p : bit / 8 ≡ other / 8 = (==_iff _ _).0 same in
                rw (← p, get_or-write_self g.array (bit / 8) _ 0 inside)
                  (is_set-raise_of (bit % 8) (other % 8) _ (omega arith) (omega arith) byte_lt
                    (rw p t))
            | inr differ ↦ rw (get_or-write_ne g.array (bit / 8) (other / 8) _ 0 (ground arith)) t
          ])
  ]

index-lt : (bits : ℕ) (d : Digest) (i : ℕ) → 0 < bits → index bits d i < bits
unfolding index
index-lt bits d i h = mod-lt _ h

module _ (bits : ℕ) (pos : 0 < bits) (d : Digest) where
  pub set_bits-HoldsBits :
      (g : Generation) (left i : ℕ) → HoldsBits bits g → HoldsBits bits (set_bits g bits d left i)
  unfolding set_bits
  set_bits-HoldsBits g zero i h = h
  set_bits-HoldsBits g (suc left) i h =
      set_bits-HoldsBits (set_bit g (index bits d i)) left (i + 1)
        (set_bit-HoldsBits bits g h _ (index-lt bits d i pos))

  pub test_bit-set_bits_of :
      (g : Generation) (left i other : ℕ)
      → HoldsBits bits g
      → test_bit g.array other ≡ true
      → test_bit (set_bits g bits d left i).array other ≡ true
  unfolding set_bits
  test_bit-set_bits_of g zero i other h t = t
  test_bit-set_bits_of g (suc left) i other h t =
      test_bit-set_bits_of (set_bit g (index bits d i)) left (i + 1) other
        (set_bit-HoldsBits bits g h _ (index-lt bits d i pos))
        (test_bit-set_bit_of bits g h _ (index-lt bits d i pos) other t)

  pub test_from-set_bits :
      (g : Generation) (left i : ℕ)
      → HoldsBits bits g
      → test_from (set_bits g bits d left i).array bits d left i ≡ true
  unfolding set_bits test_from
  test_from-set_bits g zero i h = refl
  test_from-set_bits g (suc left) i h =
      let once = set_bit g (index bits d i) in
      let holds = set_bit-HoldsBits bits g h _ (index-lt bits d i pos) in
      rw
        (test_bit-set_bits_of once left (i + 1) (index bits d i) holds
          (test_bit-set_bit bits g h _ (index-lt bits d i pos)))
        (test_from-set_bits once left (i + 1) holds)

  -- Another digest's bits stay set.
  pub test_from-set_bits_of :
      (g : Generation) (other : Digest) (left i rounds j : ℕ)
      → HoldsBits bits g
      → test_from g.array bits other rounds j ≡ true
      → test_from (set_bits g bits d left i).array bits other rounds j ≡ true
  unfolding test_from
  test_from-set_bits_of g other left i zero j h t = refl
  test_from-set_bits_of g other left i (suc rounds) j h t = ground (
    arith,
    test_bit-set_bits_of g left i (index bits other j) h,
    test_from-set_bits_of g other left i rounds (j + 1) h,
  )
