-- ===== src/Defense/Lanes/Capacity/Payment.antt =====
-- defense/core/lanes.ts: the records of the `UseLedger`, by the epoch they were opened in, against
-- the tokens that the credited bucket has given out.
use limitmark.Common.{
  ℕ, suc, ◌+◌, ◌-◌, ◌*◌, ◌≤◌, ◌≡◌, refl, ap, ◌⊎◌, inl, inr, Bool, true, none, some, [], ◌∷◌, String,
  arith, leb, leb→le, if◌then◌else◌, length, filter, Bool-cases,
}
use native.Mathlib.Nat.{mul-le-mul_right, add-mul}
use limitmark.Common.Table.{Table, get, set}
use limitmark.Defense.Bucket.{Clock, TokenBucket, unit, take}
use limitmark.Defense.Bucket.Bound.{IsValid, Charged, take-Charged, take_flow}
use limitmark.Defense.UseLedger.{UseEntry}

-- How many records were opened in epoch `f` or later.
abbrev pub since : ℕ → Table UseEntry → ℕ
since f [] = 0
since f ((k, e) ∷ m) = let rest = since f m in if leb f e.first_epoch then suc rest else rest

-- Every record was opened in epoch `f` or later.
abbrev pub AllSince : ℕ → Table UseEntry → Type 0
AllSince f [] = Unit
AllSince f ((k, e) ∷ m) = (f ≤ e.first_epoch) × AllSince f m

-- The start of every record's epoch, `base` and `len` being those of epochs, is not after `last`.
abbrev pub AllBegun : ℕ → ℕ → ℕ → Table UseEntry → Type 0
AllBegun base len last [] = Unit
AllBegun base len last ((k, e) ∷ m) = (base + e.first_epoch * len ≤ last) × AllBegun base len last m

pub since-length : (f : ℕ) (m : Table UseEntry) → AllSince f m → since f m ≡ length m
since-length f [] h = refl
since-length f ((k, e) ∷ m) h = ground (arith, since-length f m h.1)

since-filter-le :
    (f : ℕ) (p : String × UseEntry → Bool) (m : Table UseEntry) → since f (filter p m) ≤ since f m
since-filter-le f p [] = omega arith
since-filter-le f p ((k, e) ∷ m) = ground (arith, since-filter-le f p m)

since-set_new :
    (f : ℕ) (k : String) (v : UseEntry) (m : Table UseEntry)
    → get k m ≡ none
    → since f (set k v m) ≡ since f m + (if leb f v.first_epoch then 1 else 0)
since-set_new f k v [] h = ground arith
since-set_new f k v ((j, e) ∷ m) h = ground (arith, since-set_new f k v m)

since-set_old :
    (f : ℕ) (k : String) (v w : UseEntry) (m : Table UseEntry)
    → get k m ≡ some w
    → v.first_epoch ≡ w.first_epoch
    → since f (set k v m) ≡ since f m
since-set_old f k v w [] h e = cc
since-set_old f k v w ((j, x) ∷ m) h e = ground (arith, since-set_old f k v w m)

pub AllSince-set :
    (f : ℕ) (k : String) (v : UseEntry) (m : Table UseEntry)
    → AllSince f m
    → f ≤ v.first_epoch
    → AllSince f (set k v m)
AllSince-set f k v [] h p = (p, tt)
AllSince-set f k v ((j, e) ∷ m) h p = ground (arith, AllSince-set f k v m h.1 p)

pub AllSince-filter :
    (f : ℕ) (p : String × UseEntry → Bool) (m : Table UseEntry)
    → AllSince f m
    → AllSince f (filter p m)
AllSince-filter f p [] h = tt
AllSince-filter f p ((k, e) ∷ m) h = ground (arith, AllSince-filter f p m h.1)

pub AllSince-get :
    (f : ℕ) (k : String) (v : UseEntry) (m : Table UseEntry)
    → AllSince f m
    → get k m ≡ some v
    → f ≤ v.first_epoch
AllSince-get f k v [] h e = cc
AllSince-get f k v ((j, w) ∷ m) h e = ground (arith, AllSince-get f k v m h.1)

module _ (base len : ℕ) where
  AllBegun-filter :
      (last : ℕ) (p : String × UseEntry → Bool) (m : Table UseEntry)
      → AllBegun base len last m
      → AllBegun base len last (filter p m)
  AllBegun-filter last p [] h = tt
  AllBegun-filter last p ((k, e) ∷ m) h = ground (arith, AllBegun-filter last p m h.1)

  AllBegun-mono :
      (last later : ℕ) (m : Table UseEntry)
      → last ≤ later
      → AllBegun base len last m
      → AllBegun base len later m
  AllBegun-mono last later [] le h = tt
  AllBegun-mono last later ((k, e) ∷ m) le h =
      (omega (arith, h.0), AllBegun-mono last later m le h.1)

  AllBegun-set :
      (last : ℕ) (k : String) (v : UseEntry) (m : Table UseEntry)
      → AllBegun base len last m
      → base + v.first_epoch * len ≤ last
      → AllBegun base len last (set k v m)
  AllBegun-set last k v [] h p = (p, tt)
  AllBegun-set last k v ((j, e) ∷ m) h p = ground (arith, AllBegun-set last k v m h.1 p)

  AllBegun-get :
      (last : ℕ) (k : String) (v : UseEntry) (m : Table UseEntry)
      → AllBegun base len last m
      → get k m ≡ some v
      → base + v.first_epoch * len ≤ last
  AllBegun-get last k v [] h e = cc
  AllBegun-get last k v ((j, w) ∷ m) h e = ground (arith, AllBegun-get last k v m h.1)

  since-begun :
      (f last : ℕ) (m : Table UseEntry)
      → AllBegun base len last m
      → (since f m ≡ 0) ⊎ (base + f * len ≤ last)
  since-begun f last [] h = inl refl
  since-begun f last ((k, e) ∷ m) h = elim (Bool-cases (leb f e.first_epoch)) [
    | inl le ↦
        let below : f * len ≤ e.first_epoch * len = mul-le-mul_right len (leb→le _ _ le) in
        inr (omega (arith, h.0))
    | inr gt ↦ elim (since-begun f last m h.1) [ inl z ↦ inl (ground arith) | inr b ↦ inr b ]
  ]

  -- Each record of epoch `f` or later was paid for with a token that the bucket gave out after the
  -- start of that epoch.
  pub record Paid (b : TokenBucket) (m : Table UseEntry) : Type 0 where
    pub begun : AllBegun base len b.last_ms m
    pub paid :
        (f : ℕ)
        → since f m * unit + b.level
          ≤ b.capacity_units + (b.last_ms - (base + f * len)) * b.refill_per_ms

  pub Paid-filter :
      (b : TokenBucket) (p : String × UseEntry → Bool) (m : Table UseEntry)
      → Paid b m
      → Paid b (filter p m)
  Paid-filter b p m h = record {
    begun = AllBegun-filter b.last_ms p m h.begun;
    paid = λ f. omega (arith, since-filter-le f p m, h.paid f);
  }

module _ (base len : ℕ) (b : TokenBucket) (now : Clock) (v : IsValid b) (m : Table UseEntry)
    (h : Paid base len b m) where
  charged : Charged b (take b now).0
  charged = take-Charged b now

  -- The records already there, and the `cost` of this take, are paid for.
  paid_take :
      (cost f : ℕ)
      → (cost ≡ 0) ⊎ ((cost ≡ unit) × ((take b now).1.ok ≡ true))
      → since f m * unit + ((take b now).0.level + cost)
        ≤ b.capacity_units + ((take b now).0.last_ms - (base + f * len)) * b.refill_per_ms
  paid_take cost f why =
      let (flow, most) = take_flow b now cost v why in
      elim (since-begun base len f b.last_ms m h.begun) [
        | inl z ↦ omega (arith, most)
        | inr begun ↦
            let split : (take b now).0.last_ms - (base + f * len)
                ≡ ((take b now).0.last_ms - b.last_ms) + (b.last_ms - (base + f * len)) =
              omega (arith, charged.later) in
            omega (
              arith,
              h.paid f,
              flow,
              ap (λ (t : ℕ). t * b.refill_per_ms) split,
              add-mul ((take b now).0.last_ms - b.last_ms) (b.last_ms - (base + f * len))
                  b.refill_per_ms,
            )
      ]

  pub Paid-take : Paid base len (take b now).0 m
  Paid-take = record {
    begun = AllBegun-mono base len b.last_ms _ m charged.later h.begun;
    paid = λ f.
        rw (charged.same_capacity, charged.same_refill) (omega (arith, paid_take 0 f (inl refl)));
  }

  -- A new record takes one token.
  pub Paid-take-set :
      (k : String) (e : UseEntry)
      → (take b now).1.ok ≡ true
      → base + e.first_epoch * len ≤ (take b now).0.last_ms
      → get k m ≡ none
      → Paid base len (take b now).0 (set k e m)
  Paid-take-set k e ok start absent = record {
    begun =
        AllBegun-set base len _ k e m (AllBegun-mono base len b.last_ms _ m charged.later h.begun)
          start;
    paid = λ f.
        rw (charged.same_capacity, charged.same_refill, since-set_new f k e m absent)
          (ground (arith, paid_take unit f (inr (refl, ok))));
  }

-- One more use of a record that is there takes no new room.
pub Paid-set_old :
    (base len : ℕ) (b : TokenBucket) (k : String) (e w : UseEntry) (m : Table UseEntry)
    → Paid base len b m
    → get k m ≡ some w
    → e.first_epoch ≡ w.first_epoch
    → Paid base len b (set k e m)
Paid-set_old base len b k e w m h there same = record {
  begun =
      AllBegun-set base len b.last_ms k e m h.begun
        (rw same (AllBegun-get base len b.last_ms k w m h.begun there));
  paid = λ f. rw (since-set_old f k e w m there same) (h.paid f);
}
