-- ===== src/Defense/Channel/Run.antt =====
-- defense/core/ledger.ts: any sequence of calls of the channel.
use limitmark.Common.{ℕ, ◌≡◌, some, List, [], ◌∷◌, arith}
use limitmark.Defense.Channel.{Channel, new_channel, emit, acknowledge, flush}
use limitmark.Defense.Channel.Stream.{IsValid}
use limitmark.Defense.Channel.Flush.{emit-IsValid, acknowledge-IsValid, flush-IsValid}

-- A call of the channel; the firing of its timer is `flushes`.
pub data ChannelCall (A : Type 0) : Type 0 where
  emits : A → ChannelCall A
  acknowledges : ℕ → ChannelCall A
  flushes : ChannelCall A

module _ {A : Type 0} where
  pub channel_step : Channel A → ChannelCall A → Channel A
  channel_step c (emits a) = (emit c a).0
  channel_step c (acknowledges n) = acknowledge c n
  channel_step c flushes = flush c

  pub channel_run : Channel A → List (ChannelCall A) → Channel A
  unfolding channel_step
  channel_run c [] = c
  channel_run c (call ∷ calls) = channel_run (channel_step c call) calls

  channel_run-kept :
      (c : Channel A) (calls : List (ChannelCall A)) → IsValid c → IsValid (channel_run c calls)
  unfolding channel_run
  channel_run-kept c [] v = v
  channel_run-kept c (emits a ∷ calls) v = channel_run-kept (emit c a).0 calls (emit-IsValid c a v)
  channel_run-kept c (acknowledges n ∷ calls) v =
      channel_run-kept (acknowledge c n) calls (acknowledge-IsValid c n v)
  channel_run-kept c (flushes ∷ calls) v = channel_run-kept (flush c) calls (flush-IsValid c v)

  new_channel-IsValid :
      (queue_cap window_cap max_frame : ℕ) (c : Channel A)
      → new_channel queue_cap window_cap max_frame ≡ some c
      → IsValid c
  unfolding new_channel
  new_channel-IsValid queue_cap window_cap max_frame c made = ground arith

  -- Over any sequence of emissions, acknowledgements and flushes of a channel that the constructor
  -- has made: every event emitted was dropped, sent or waits; the queue and the window keep their
  -- bounds; no more was received than sent; and what was sent, followed by what waits, is in the
  -- order of increasing sequence numbers, all of them given out by the channel.
  pub channel_run-IsValid :
      (queue_cap window_cap max_frame : ℕ) (c : Channel A) (calls : List (ChannelCall A))
      → new_channel queue_cap window_cap max_frame ≡ some c
      → IsValid (channel_run c calls)
  channel_run-IsValid queue_cap window_cap max_frame c calls made =
      channel_run-kept c calls (new_channel-IsValid queue_cap window_cap max_frame c made)
