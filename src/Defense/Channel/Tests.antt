-- ===== src/Defense/Channel/Tests.antt =====
-- defense/core/ledger.ts: a channel of two places and a window of one event.
use limitmark.Common.{ℕ, ◌≡◌, refl, false, some, List, [], ◌∷◌}
use limitmark.Defense.Channel.{Channel, new_channel, can_send, flush}
use limitmark.Defense.Channel.Stream.{IsValid}
use limitmark.Defense.Channel.Flush.{flush-ends}
use limitmark.Defense.Channel.Run.{
  ChannelCall, emits, acknowledges, flushes, channel_run, channel_run-IsValid,
}

abbrev small_channel : Channel ℕ
small_channel = record {
  queue = [];
  queue_cap = 2;
  window_cap = 1;
  max_frame_events = 2;
  timer = false;
  next_seq = 1;
  emitted_count = 0;
  dropped_count = 0;
  sent_count = 0;
  received_count = 0;
  high_water = 0;
  frames = [];
}

small_channel-new_channel : new_channel 2 1 2 ≡ some small_channel
unfolding new_channel
small_channel-new_channel = refl

abbrev some_calls : List (ChannelCall ℕ)
some_calls = emits 10 ∷ emits 11 ∷ emits 12 ∷ emits 13 ∷ acknowledges 1 ∷ flushes ∷ []

channel_run-IsValid_example : IsValid (channel_run small_channel some_calls)
channel_run-IsValid_example =
    channel_run-IsValid 2 1 2 small_channel some_calls small_channel-new_channel

small_channel-IsValid : IsValid (channel_run small_channel [])
small_channel-IsValid = channel_run-IsValid 2 1 2 small_channel [] small_channel-new_channel

flush-ends_example : can_send (flush (channel_run small_channel [])) ≡ false
flush-ends_example = flush-ends (channel_run small_channel []) small_channel-IsValid
