-- ===== src/Agent/Stream/Loop.antt =====
-- stream.rs, `start_binary`: the rounds of the loop. What other tasks, the clocks, the screen and the
-- queue say in a round is an argument of it. The screen is captured as outside Windows.
use at_pc.Common.{
  ℕ, ◌-◌, Bool, true, false, not, ◌&&◌, Option, none, some, List, [], ◌∷◌, ltb, nat_beq,
  if◌then◌else◌,
}
use at_pc.Time.{Instant, Duration, duration_since}
use at_pc.Protocol.Frame.{BinaryDesktopFrame, encode}
use at_pc.Agent.Stream.{
  is_frame_dirty_interactive, decide_frame_send, FrameSendDecision, skip, send_keepalive,
  encode_picture, PreparedFrame, unchanged, keepalive, capture_error, encode_error, ready,
  from_millis, compute_backoff_interval, next_consecutive_unchanged, StreamSendState, SendOutcome,
  not_attempted, accepted, full, closed, what_to_send, is_closed, apply_send_outcome,
}

-- What the round finds: the blocks' hashes, and the size and bytes of the encoded picture.
pub data Screen : Type 0 where
  no_monitor task_failed capture_failed : Screen
  image : (hashes : List ℕ) (width height : ℕ) (jpeg : Option (List ℕ)) → Screen

-- What `try_send` finds.
pub data Room : Type 0 where
  has_room no_room receiver_gone : Room

-- A frame in the queue, with the prepared frame it was made of.
pub record Sent : Type 0 where
  pub frame : PreparedFrame
  pub payload : List ℕ

-- The newest frame stands first in `sent`.
pub record Session : Type 0 where
  pub state : StreamSendState
  pub consecutive_unchanged : ℕ
  pub sent : List Sent

pub record Round : Type 0 where
  pub running : Bool
  pub generation : ℕ
  pub generation_after : ℕ
  pub started : Instant
  pub sent_at : Instant
  pub paced_at : Instant
  pub now_epoch : ℕ
  pub last_interaction_epoch : ℕ
  pub now_ms : ℕ
  pub screen : Screen
  pub room : Room
  pub notified : Bool

-- `ends` says whether the loop has cleared `is_running`.
pub data Flow : Type 0 where
  goes : Session → Flow
  ends : Session → Bool → Flow

unfoldable pub last_session : Flow → Session
last_session (goes s) = s
last_session (ends s cleared) = s

unfoldable pub is_interacting : Round → Bool
is_interacting r = ltb (r.now_epoch - r.last_interaction_epoch) 600

abbrev encoded : List ℕ → ℕ → ℕ → Option (List ℕ) → PreparedFrame
encoded hashes width height none = encode_error hashes
encoded hashes width height (some jpeg_bytes) = ready hashes width height jpeg_bytes

abbrev decided : FrameSendDecision → PreparedFrame → PreparedFrame
decided skip frame = unchanged
decided send_keepalive frame = keepalive
decided encode_picture frame = frame

-- The task of the round; `none` if there is no monitor or the task fails.
unfoldable pub prepare : List ℕ → Bool → Duration → Screen → Option PreparedFrame
unfolding decide_frame_send
prepare previous interacting elapsed no_monitor = none
prepare previous interacting elapsed task_failed = none
prepare previous interacting elapsed capture_failed = some capture_error
prepare previous interacting elapsed (image hashes width height jpeg) = some (
    decided
      (decide_frame_send (is_frame_dirty_interactive previous hashes interacting) elapsed
        (from_millis 500))
      (encoded hashes width height jpeg))

unfoldable pub outcome_of : Option BinaryDesktopFrame → Room → SendOutcome
outcome_of none room = not_attempted
outcome_of (some frame) has_room = accepted
outcome_of (some frame) no_room = full
outcome_of (some frame) receiver_gone = closed

unfoldable pub queue : Option BinaryDesktopFrame → Room → PreparedFrame → List Sent → List Sent
queue (some bin_frame) has_room prepared sent =
    record { frame = prepared; payload = encode bin_frame } ∷ sent
queue other room prepared sent = sent

-- The wait at the end of a round: an interaction cuts it short.
unfoldable pub paced : Duration → Session → Round → Session
paced current_interval s r =
    if ltb (duration_since r.paced_at r.started) current_interval && r.notified
    then record s { consecutive_unchanged = 0 }
    else s

abbrev is_encode_error : PreparedFrame → Bool
is_encode_error (encode_error hashes) = true
is_encode_error other = false

abbrev pub counted : Session → PreparedFrame → Session
counted s prepared = record s {
  consecutive_unchanged = next_consecutive_unchanged s.consecutive_unchanged prepared;
}

module _ (my_gen display_index : ℕ) (frame_interval : Duration) where
  unfoldable pub transmit : Session → Round → PreparedFrame → Flow
  unfolding what_to_send outcome_of queue apply_send_outcome paced compute_backoff_interval
  transmit s r prepared =
      let to_send = what_to_send s.state prepared display_index r.now_ms in
      let outcome = outcome_of to_send r.room in
      let s' : Session = record s {
        state = apply_send_outcome s.state prepared outcome r.sent_at;
        sent = queue to_send r.room prepared s.sent;
      } in
      let current_interval = compute_backoff_interval frame_interval s.consecutive_unchanged in
      if is_closed outcome
      then ends s' true
      else if is_encode_error prepared
      then goes s'
      else goes (paced current_interval s' r)

  -- From the check of the generation on; the counter of `s` is the next one.
  unfoldable pub apply : Session → Round → PreparedFrame → Flow
  unfolding transmit
  apply s r capture_error = goes s
  apply s r unchanged =
      goes (paced (compute_backoff_interval frame_interval s.consecutive_unchanged) s r)
  apply s r keepalive = transmit s r keepalive
  apply s r (encode_error hashes) = transmit s r (encode_error hashes)
  apply s r (ready hashes width height jpeg_bytes) =
      transmit s r (ready hashes width height jpeg_bytes)

  unfoldable pub round : Session → Round → Flow
  unfolding apply prepare
  round s r =
      if not (r.running && nat_beq r.generation my_gen)
      then ends s false
      else elim (prepare s.state.last_hashes (is_interacting r)
          (duration_since r.started s.state.last_sent_time) r.screen) [
            | none ↦ goes s
            | some prepared ↦
                if nat_beq my_gen r.generation_after
                then apply (counted s prepared) r prepared
                else ends s false
          ]

  unfoldable pub stream : Session → List Round → Flow
  unfolding round
  stream s [] = goes s
  stream s (r ∷ rs) = elim (round s r) [
    | goes s' ↦ stream s' rs
    | ends s' cleared ↦ ends s' cleared
  ]

-- The loop starts with nothing sent, and with the last sending ten seconds ago.
unfoldable pub fresh : Instant → Session
fresh now = record {
  state = record {
    last_hashes = [];
    last_width = 0;
    last_height = 0;
    last_sent_time = now - from_millis 10000;
  };
  consecutive_unchanged = 0;
  sent = [];
}
