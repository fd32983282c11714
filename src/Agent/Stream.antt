-- ===== src/Agent/Stream.antt =====
-- stream.rs, the loop that sends pictures of the screen, with the frame decision of
-- desktop-core/src/lib.rs. A picture comes with the hashes of its blocks; the capture, the encoder
-- and the queue to the socket are arguments of a round.
mod Loop
mod Sync
mod Current
mod Tests
use at_pc.Common.{
  ℕ, zero, suc, ◌+◌, ◌-◌, ◌*◌, min, Bool, true, false, not, ◌&&◌, ◌||◌, Option, none, some, List,
  [], ◌∷◌, length, leb, ltb, nat_beq, if◌then◌else◌,
}
use at_pc.Time.{Instant, Duration, duration_since}
use at_pc.Protocol.Frame.{BinaryDesktopFrame, encode}

-- The number of places at which two lists differ, up to the end of the shorter.
unfoldable pub changed_blocks : List ℕ → List ℕ → ℕ
changed_blocks [] ys = 0
changed_blocks (x ∷ xs) [] = 0
changed_blocks (x ∷ xs) (y ∷ ys) =
    let rest = changed_blocks xs ys in if nat_beq x y then rest else suc rest

abbrev pub no_hashes : List ℕ → Bool
no_hashes [] = true
no_hashes (x ∷ xs) = false

-- `dirty_block_ratio`, as a fraction.
pub record Ratio : Type 0 where
  pub part : ℕ
  pub whole : ℕ

unfoldable pub dirty_block_ratio : List ℕ → List ℕ → Ratio
unfolding changed_blocks
dirty_block_ratio previous current =
    if no_hashes previous || no_hashes current || not (nat_beq (length previous) (length current))
    then record { part = 1; whole = 1 }
    else record { part = changed_blocks previous current; whole = length current }

-- The threshold is 0.005.
unfoldable pub is_frame_dirty_interactive : List ℕ → List ℕ → Bool → Bool
unfolding dirty_block_ratio
is_frame_dirty_interactive previous current is_interacting =
    let ratio = dirty_block_ratio previous current in
    if is_interacting then ltb 0 ratio.part else leb ratio.whole (ratio.part * 200)

pub data FrameSendDecision : Type 0 where
  skip send_keepalive encode_picture : FrameSendDecision

unfoldable pub decide_frame_send : Bool → Duration → Duration → FrameSendDecision
decide_frame_send is_dirty elapsed_since_send keepalive_interval =
    if is_dirty
    then encode_picture
    else if leb keepalive_interval elapsed_since_send
    then send_keepalive
    else skip

pub data PreparedFrame : Type 0 where
  unchanged keepalive capture_error : PreparedFrame
  encode_error : (hashes : List ℕ) → PreparedFrame
  ready : (hashes : List ℕ) (width height : ℕ) (jpeg_bytes : List ℕ) → PreparedFrame

abbrev pub from_millis : ℕ → Duration
from_millis n = n * 1_000_000

abbrev idle_backoff_threshold : ℕ
idle_backoff_threshold = 5

unfoldable pub compute_backoff_interval : Duration → ℕ → Duration
compute_backoff_interval active_interval consecutive_unchanged =
    if leb idle_backoff_threshold consecutive_unchanged then from_millis 500 else active_interval

-- The counter is a u32.
unfoldable pub next_consecutive_unchanged : ℕ → PreparedFrame → ℕ
next_consecutive_unchanged current (ready hashes width height jpeg_bytes) = 0
next_consecutive_unchanged current unchanged = min (current + 1) 4294967295
next_consecutive_unchanged current other = current

pub record StreamSendState : Type 0 where
  pub last_hashes : List ℕ
  pub last_width : ℕ
  pub last_height : ℕ
  pub last_sent_time : Instant

pub data SendOutcome : Type 0 where
  not_attempted accepted full closed : SendOutcome

unfoldable pub what_to_send : StreamSendState → PreparedFrame → ℕ → ℕ → Option BinaryDesktopFrame
what_to_send state keepalive display_index now_ms =
    if nat_beq state.last_width 0
    then none
    else some (record {
      display_index = display_index;
      width = state.last_width;
      height = state.last_height;
      timestamp = now_ms;
      jpeg = [];
    })
what_to_send state (ready hashes width height jpeg_bytes) display_index now_ms = some (record {
  display_index = display_index;
  width = width;
  height = height;
  timestamp = now_ms;
  jpeg = jpeg_bytes;
})
what_to_send state other display_index now_ms = none

abbrev pub is_closed : SendOutcome → Bool
is_closed closed = true
is_closed other = false

abbrev apply_keepalive : StreamSendState → SendOutcome → Instant → StreamSendState
apply_keepalive state accepted now =
    if ltb 0 state.last_width then record state { last_sent_time = now } else state
apply_keepalive state other now = state

unfoldable pub apply_ready :
    StreamSendState → List ℕ → ℕ → ℕ → SendOutcome → Instant → StreamSendState
apply_ready state hashes width height accepted now = record {
  last_hashes = hashes;
  last_width = width;
  last_height = height;
  last_sent_time = now;
}
apply_ready state hashes width height full now =
    if ltb 0 state.last_width
    then record state { last_hashes = hashes; last_width = width; last_height = height }
    else state
apply_ready state hashes width height other now = state

-- The state of the result; its `stop` is `is_closed` of the outcome.
unfoldable pub apply_send_outcome :
    StreamSendState → PreparedFrame → SendOutcome → Instant → StreamSendState
unfolding apply_ready
apply_send_outcome state keepalive outcome now = apply_keepalive state outcome now
apply_send_outcome state (ready hashes width height jpeg_bytes) outcome now =
    apply_ready state hashes width height outcome now
apply_send_outcome state other outcome now = state
