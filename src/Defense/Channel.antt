-- ===== src/Defense/Channel.antt =====
-- defense/core/ledger.ts: `BoundedEventChannel`. The transport is the list of the frames sent; the
-- timer is a flag, and its firing is a call of `flush`. The promises that `drain` makes are left out:
-- `is_drained` is the condition on which they are resolved.
pub mod Stream
pub mod Flush
pub mod Run
mod Tests
use limitmark.Common.{
  ℕ, zero, suc, ◌+◌, ◌-◌, ltb, leb, ◌==◌, not, if◌then◌else◌, Bool, true, false, ◌&&◌, ◌||◌, Option,
  none, some, List, [], ◌∷◌, ◌++◌, length, min, max,
}

module _ {A : Type 0} where
  -- The first `n` of a list, and the others: `splice(0, n)`.
  abbrev pub first_of : ℕ → List A → List A
  first_of zero xs = []
  first_of (suc n) [] = []
  first_of (suc n) (x ∷ xs) = x ∷ first_of n xs

  abbrev pub rest_of : ℕ → List A → List A
  rest_of zero xs = xs
  rest_of (suc n) [] = []
  rest_of (suc n) (x ∷ xs) = rest_of n xs

-- An event with its sequence number; the rest of the event is the payload.
pub record StreamEvent (A : Type 0) : Type 0 where
  pub seq : ℕ
  pub payload : A

pub record EventFrame (A : Type 0) : Type 0 where
  pub events : List (StreamEvent A)
  pub dropped : ℕ

pub record Channel (A : Type 0) : Type 0 where
  pub queue : List (StreamEvent A)
  pub queue_cap : ℕ
  pub window_cap : ℕ
  pub max_frame_events : ℕ
  pub timer : Bool
  pub next_seq : ℕ
  pub emitted_count : ℕ
  pub dropped_count : ℕ
  pub sent_count : ℕ
  pub received_count : ℕ
  pub high_water : ℕ
  pub frames : List (EventFrame A)

module _ {A : Type 0} where
  -- The constructor; `none` is its `throw`.
  unfoldable pub new_channel : ℕ → ℕ → ℕ → Option (Channel A)
  new_channel queue_cap window_cap max_frame_events =
      if ltb queue_cap 1 || ltb window_cap 1 || ltb max_frame_events 1
      then none
      else some (record {
        queue = [];
        queue_cap = queue_cap;
        window_cap = window_cap;
        max_frame_events = max_frame_events;
        timer = false;
        next_seq = 1;
        emitted_count = 0;
        dropped_count = 0;
        sent_count = 0;
        received_count = 0;
        high_water = 0;
        frames = [];
      })

  abbrev pub unacknowledged : Channel A → ℕ
  unacknowledged c = c.sent_count - c.received_count

  abbrev pub is_empty : List (StreamEvent A) → Bool
  is_empty [] = true
  is_empty (e ∷ es) = false

  -- The condition of the loop of `flush`.
  abbrev pub can_send : Channel A → Bool
  can_send c = not (is_empty c.queue) && ltb (unacknowledged c) c.window_cap

  -- One round of the loop.
  pub send_frame : Channel A → Channel A
  send_frame c =
      let n = min c.max_frame_events (c.window_cap - unacknowledged c) in
      let events = first_of n c.queue in
      record c {
        queue = rest_of n c.queue;
        sent_count = c.sent_count + length events;
        frames = c.frames ++ (record { events = events; dropped = c.dropped_count } ∷ []);
      }

  pub send_frames : ℕ → Channel A → Channel A
  unfolding send_frame
  send_frames zero c = c
  send_frames (suc fuel) c =
      let rest = send_frames fuel (send_frame c) in if can_send c then rest else c

  abbrev pub schedule_left : Channel A → Channel A
  schedule_left c = if is_empty c.queue then c else record c { timer = true }

  pub flush : Channel A → Channel A
  unfolding send_frames
  flush c = schedule_left (send_frames (length c.queue) (record c { timer = false }))

  abbrev pub push_event : Channel A → A → Channel A
  push_event c payload =
      let queue = c.queue ++ (record { seq = c.next_seq; payload = payload } ∷ []) in
      record c {
        queue = queue;
        next_seq = c.next_seq + 1;
        emitted_count = c.emitted_count + 1;
        high_water = max c.high_water (length queue);
      }

  -- The channel and the number of the event.
  pub emit : Channel A → A → Channel A × ℕ
  unfolding flush
  emit c payload =
      let pushed = push_event c payload in
      if leb c.queue_cap (length c.queue)
      then (
        record c {
          next_seq = c.next_seq + 1;
          emitted_count = c.emitted_count + 1;
          dropped_count = c.dropped_count + 1;
        },
        c.next_seq,
      )
      else if leb c.max_frame_events (length pushed.queue)
      then (flush pushed, c.next_seq)
      else (record pushed { timer = true }, c.next_seq)

  pub acknowledge : Channel A → ℕ → Channel A
  unfolding flush
  acknowledge c received_total =
      if ltb c.received_count received_total && leb received_total c.sent_count
      then flush (record c { received_count = received_total })
      else flush c

  abbrev pub is_drained : Channel A → Bool
  is_drained c = is_empty c.queue && (c.sent_count == c.received_count)

pub record ChannelStats : Type 0 where
  pub emitted : ℕ
  pub dropped : ℕ
  pub sent : ℕ
  pub received : ℕ
  pub queued : ℕ
  pub unacknowledged_count : ℕ
  pub queue_high_water : ℕ
  pub last_seq : ℕ

pub channel_stats : {A : Type 0} → Channel A → ChannelStats
channel_stats c = record {
  emitted = c.emitted_count;
  dropped = c.dropped_count;
  sent = c.sent_count;
  received = c.received_count;
  queued = length c.queue;
  unacknowledged_count = unacknowledged c;
  queue_high_water = c.high_water;
  last_seq = c.next_seq - 1;
}
