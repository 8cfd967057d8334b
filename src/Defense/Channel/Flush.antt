-- ===== src/Defense/Channel/Flush.antt =====
-- defense/core/ledger.ts: each operation of the channel keeps it valid, and its loop ends.
use mathlib.Core.List.{append_assoc}
use mathlib.Core.Path.{subst}
use limitmark.Common.{
  ℕ, zero, suc, ◌+◌, ◌≤◌, ◌<◌, ◌≡◌, refl, ◌∙◌, inl, inr, ltb, leb, Bool, true, false, ◌&&◌, List,
  [], ◌∷◌, length, length-append, arith, Bool-cases,
}
use limitmark.Defense.Channel.{
  StreamEvent, Channel, is_empty, can_send, send_frame, send_frames, schedule_left, flush,
  push_event, emit, acknowledge,
}
use limitmark.Defense.Channel.Stream.{
  sent_events, stream, Increasing, Increasing-later, Increasing-append, IsValid, send_frame-IsValid,
  send_frame-shorter,
}

module _ {A : Type 0} where
  send_frames-IsValid : (fuel : ℕ) (c : Channel A) → IsValid c → IsValid (send_frames fuel c)
  unfolding send_frames
  send_frames-IsValid zero c v = v
  send_frames-IsValid (suc fuel) c v = elim (Bool-cases (can_send c)) [
    | inl more ↦
        rw (more, send_frames) (send_frames-IsValid fuel (send_frame c) (send_frame-IsValid c v))
    | inr done ↦ rw (done, send_frames) v
  ]

  is_empty-length : (es : List (StreamEvent A)) → length es ≤ 0 → is_empty es ≡ true
  is_empty-length [] h = refl
  is_empty-length (e ∷ es) h = absurd (omega (arith, h))

  -- The frames end: the queue is empty, or the window is full.
  send_frames-ends :
      (fuel : ℕ) (c : Channel A)
      → 1 ≤ c.max_frame_events
      → length c.queue ≤ fuel
      → can_send (send_frames fuel c) ≡ false
  unfolding send_frames
  send_frames-ends zero c framed le = rw (is_empty-length c.queue le) refl
  send_frames-ends (suc fuel) c framed le = elim (Bool-cases (can_send c)) [
    | inl more ↦
        rw (more, send_frames)
          (send_frames-ends fuel (send_frame c) framed
            (omega (arith, send_frame-shorter c framed more)))
    | inr done ↦ rw (done, send_frames) done
  ]

  timer-IsValid : (c : Channel A) (set : Bool) → IsValid c → IsValid (record c { timer = set })
  timer-IsValid c set v = record {
    counted = v.counted;
    received_sent = v.received_sent;
    windowed = v.windowed;
    bounded = v.bounded;
    capped = v.capped;
    numbered = v.numbered;
    framed = v.framed;
    wired = v.wired;
    ordered = v.ordered;
  }

  schedule_left-IsValid : (c : Channel A) → IsValid c → IsValid (schedule_left c)
  schedule_left-IsValid c v = elim (Bool-cases (is_empty c.queue)) [
    | inl empty ↦ rw empty v
    | inr left ↦ rw left (timer-IsValid c true v)
  ]

  pub flush-IsValid : (c : Channel A) → IsValid c → IsValid (flush c)
  unfolding flush
  flush-IsValid c v =
      schedule_left-IsValid _ (
        send_frames-IsValid (length c.queue) (record c { timer = false }) (timer-IsValid c false v))

  schedule_left-can_send : (c : Channel A) → can_send (schedule_left c) ≡ can_send c
  schedule_left-can_send c = ground arith

  -- The loop of `flush` ends, with an empty queue or a full window.
  pub flush-ends : (c : Channel A) → IsValid c → can_send (flush c) ≡ false
  unfolding flush
  flush-ends c v =
      schedule_left-can_send (send_frames (length c.queue) (record c { timer = false }))
      ∙ send_frames-ends (length c.queue) (record c { timer = false }) v.framed (omega arith)

  push_event-IsValid :
      (c : Channel A) (a : A) → IsValid c → length c.queue < c.queue_cap → IsValid (push_event c a)
  push_event-IsValid c a v room =
      let one : List (StreamEvent A) = record { seq = c.next_seq; payload = a } ∷ [] in
      let longer = length-append c.queue one in
      record {
        counted = omega (arith, v.counted, longer);
        received_sent = v.received_sent;
        windowed = v.windowed;
        bounded = omega (arith, longer);
        capped = omega (arith, v.capped, v.bounded, longer, room);
        numbered = omega (arith, v.numbered);
        framed = v.framed;
        wired = v.wired;
        ordered =
            subst (Increasing 1 (c.next_seq + 1)) (append_assoc (sent_events c.frames) c.queue one)
              (Increasing-append 1 c.next_seq (stream c) a v.ordered);
      }

  pub emit-IsValid : (c : Channel A) (a : A) → IsValid c → IsValid (emit c a).0
  unfolding emit
  emit-IsValid c a v = elim (Bool-cases (leb c.queue_cap (length c.queue))) [
    | inl full ↦ rw full (record {
      counted = omega (arith, v.counted);
      received_sent = v.received_sent;
      windowed = v.windowed;
      bounded = v.bounded;
      capped = v.capped;
      numbered = omega (arith, v.numbered);
      framed = v.framed;
      wired = v.wired;
      ordered = Increasing-later 1 c.next_seq (stream c) v.ordered;
    })
    | inr room ↦
        let pushed = push_event-IsValid c a v (ground arith) in
        elim (Bool-cases (leb c.max_frame_events (length (push_event c a).queue))) [
          | inl frame ↦ rw (room, frame) (flush-IsValid (push_event c a) pushed)
          | inr wait ↦ rw (room, wait) (timer-IsValid (push_event c a) true pushed)
        ]
  ]

  pub acknowledge-IsValid : (c : Channel A) (n : ℕ) → IsValid c → IsValid (acknowledge c n)
  unfolding acknowledge
  acknowledge-IsValid c n v = elim (Bool-cases (ltb c.received_count n && leb n c.sent_count)) [
    | inl fresh ↦ rw fresh (
        flush-IsValid (record c { received_count = n })
          (record {
            counted = v.counted;
            received_sent = ground arith;
            windowed = ground (arith, v.windowed);
            bounded = v.bounded;
            capped = v.capped;
            numbered = v.numbered;
            framed = v.framed;
            wired = v.wired;
            ordered = v.ordered;
          }))
    | inr stale ↦ rw stale (flush-IsValid c v)
  ]
