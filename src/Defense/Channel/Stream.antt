-- ===== src/Defense/Channel/Stream.antt =====
-- defense/core/ledger.ts: the bounds of the channel, and the order of what it sends.
use mathlib.Core.List.{append_assoc, append-nil}
use limitmark.Common.{
  ℕ, zero, suc, ◌+◌, ◌-◌, ◌≤◌, ◌<◌, ◌≡◌, refl, sym, ap, ◌∙◌, true, List, [], ◌∷◌, ◌++◌, length,
  length-append, min, arith,
}
use limitmark.Defense.Channel.{
  first_of, rest_of, StreamEvent, EventFrame, Channel, unacknowledged, can_send, send_frame,
}

module _ {A : Type 0} where
  first_of-rest_of : (n : ℕ) (xs : List A) → first_of n xs ++ rest_of n xs ≡ xs
  first_of-rest_of zero xs = refl
  first_of-rest_of (suc n) [] = refl
  first_of-rest_of (suc n) (x ∷ xs) = ap (λ ys. x ∷ ys) (first_of-rest_of n xs)

  length-first_of-rest_of :
      (n : ℕ) (xs : List A)
      → (length (first_of n xs) ≡ min n (length xs)) × (length (rest_of n xs) ≡ length xs - n)
  length-first_of-rest_of zero xs = ground arith
  length-first_of-rest_of (suc n) [] = ground arith
  length-first_of-rest_of (suc n) (x ∷ xs) = ground (arith, length-first_of-rest_of n xs)

module _ {A : Type 0} where
  -- The events of the frames, in the order sent.
  abbrev pub sent_events : List (EventFrame A) → List (StreamEvent A)
  sent_events [] = []
  sent_events (f ∷ fs) = f.events ++ sent_events fs

  sent_events-append :
      (fs : List (EventFrame A)) (f : EventFrame A)
      → sent_events (fs ++ (f ∷ [])) ≡ sent_events fs ++ f.events
  sent_events-append [] f = append-nil f.events
  sent_events-append (g ∷ fs) f =
      ap (λ es. g.events ++ es) (sent_events-append fs f)
      ∙ sym (append_assoc g.events (sent_events fs) f.events)

  -- All that the channel has taken in and not dropped: what was sent, then what waits.
  abbrev pub stream : Channel A → List (StreamEvent A)
  stream c = sent_events c.frames ++ c.queue

  -- Sequence numbers that increase, from `low` on and below `high`.
  abbrev pub Increasing : ℕ → ℕ → List (StreamEvent A) → Type 0
  Increasing low high [] = low ≤ high
  Increasing low high (e ∷ es) = (low ≤ e.seq) × Increasing (suc e.seq) high es

  pub Increasing-later :
      (low high : ℕ) (es : List (StreamEvent A))
      → Increasing low high es
      → Increasing low (high + 1) es
  Increasing-later low high [] h = omega arith
  Increasing-later low high (e ∷ es) h = (h.0, Increasing-later (suc e.seq) high es h.1)

  pub Increasing-append :
      (low high : ℕ) (es : List (StreamEvent A)) (a : A)
      → Increasing low high es
      → Increasing low (high + 1) (es ++ (record { seq = high; payload = a } ∷ []))
  Increasing-append low high [] a h = (h, omega arith)
  Increasing-append low high (e ∷ es) a h = (h.0, Increasing-append (suc e.seq) high es a h.1)

  pub record IsValid (c : Channel A) : Type 0 where
    pub counted : c.emitted_count ≡ c.dropped_count + c.sent_count + length c.queue
    pub received_sent : c.received_count ≤ c.sent_count
    pub windowed : unacknowledged c ≤ c.window_cap
    pub bounded : length c.queue ≤ c.high_water
    pub capped : c.high_water ≤ c.queue_cap
    pub numbered : c.next_seq ≡ c.emitted_count + 1
    pub framed : 1 ≤ c.max_frame_events
    pub wired : length (sent_events c.frames) ≡ c.sent_count
    pub ordered : Increasing 1 c.next_seq (stream c)

  -- A frame moves events from the queue to what was sent, and leaves the stream as it was.
  send_frame-stream : (c : Channel A) → stream (send_frame c) ≡ stream c
  unfolding send_frame
  send_frame-stream c =
      let n = min c.max_frame_events (c.window_cap - unacknowledged c) in
      ap (λ es. es ++ rest_of n c.queue) (sent_events-append c.frames _)
      ∙ append_assoc (sent_events c.frames) (first_of n c.queue) (rest_of n c.queue)
      ∙ ap (λ es. sent_events c.frames ++ es) (first_of-rest_of n c.queue)

  pub send_frame-IsValid : (c : Channel A) → IsValid c → IsValid (send_frame c)
  unfolding send_frame
  send_frame-IsValid c v =
      let n = min c.max_frame_events (c.window_cap - unacknowledged c) in
      let (taken, left) = length-first_of-rest_of n c.queue in
      record {
        counted = omega (arith, v.counted, taken, left);
        received_sent = omega (arith, v.received_sent);
        windowed = omega (arith, v.received_sent, v.windowed, taken);
        bounded = omega (arith, v.bounded, left);
        capped = v.capped;
        numbered = v.numbered;
        framed = v.framed;
        wired =
            rw
              (sent_events-append c.frames
                (record { events = first_of n c.queue; dropped = c.dropped_count }))
              (rw (length-append (sent_events c.frames) (first_of n c.queue))
                (omega (arith, v.wired)));
        ordered = rw (send_frame-stream c) v.ordered;
      }

  -- How much a frame takes off the queue.
  pub send_frame-shorter :
      (c : Channel A)
      → 1 ≤ c.max_frame_events
      → can_send c ≡ true
      → length (send_frame c).queue < length c.queue
  unfolding send_frame
  send_frame-shorter c framed h =
      let n = min c.max_frame_events (c.window_cap - unacknowledged c) in
      let (taken, left) = length-first_of-rest_of n c.queue in ground (arith, left, framed)
