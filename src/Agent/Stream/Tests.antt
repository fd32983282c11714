-- ===== src/Agent/Stream/Tests.antt =====
-- stream.rs at a small screen of three blocks, with an interval of 66 milliseconds.
use at_pc.Common.{inl, ℕ, ◌≡◌, ◌≢◌, refl, true, false, some, List, [], ◌∷◌, arith, ◌*◌}
use at_pc.Agent.Stream.{is_frame_dirty_interactive}
use at_pc.Agent.Stream.Loop.{
  image, Room, has_room, no_room, Session, Round, last_session, is_interacting, round, stream,
  fresh,
}
use at_pc.Agent.Stream.Sync.{shown}
use at_pc.Agent.Stream.Current.{viewer_current, dropped_not_resent}

abbrev second : ℕ
second = 1_000_000_000

-- A round of the first generation, at a second, without interaction.
abbrev at_second : ℕ → List ℕ → Room → Round
at_second n hashes r = record {
  running = true;
  generation = 1;
  generation_after = 1;
  started = n * second;
  sent_at = n * second;
  paced_at = n * second;
  now_epoch = n * 1000;
  last_interaction_epoch = 0;
  now_ms = n * 1000;
  screen = image hashes 8 6 (some (255 ∷ []));
  room = r;
  notified = false;
}

abbrev before : List ℕ
before = 1 ∷ 2 ∷ 3 ∷ []

abbrev after : List ℕ
after = 1 ∷ 2 ∷ 4 ∷ []

-- Once the first picture is in the queue.
abbrev live : Session
live = last_session (round 1 0 66_000_000 (fresh (10 * second)) (at_second 11 before has_room))

-- Once the second is in the queue too.
abbrev updated : Session
updated = last_session (round 1 0 66_000_000 live (at_second 12 after has_room))

-- Once the second is lost.
abbrev lost : Session
lost = last_session (round 1 0 66_000_000 live (at_second 12 after no_room))

lost_run :
    shown (last_session (stream 1 0 66_000_000 lost (at_second 13 after has_room ∷ []))).sent
    ≡ before
unfolding shown stream round last_session is_frame_dirty_interactive is_interacting fresh
    at_pc.Agent.Stream.next_consecutive_unchanged
lost_run = refl

has_room-open : has_room ≢ no_room
has_room-open e = absurd (ground arith)

live_run : live.state.last_width ≡ 8
unfolding round last_session is_frame_dirty_interactive is_interacting fresh
    at_pc.Agent.Stream.next_consecutive_unchanged
live_run = refl

viewer_current_example : is_frame_dirty_interactive (shown updated.sent) after false ≡ false
unfolding round stream last_session is_interacting fresh is_frame_dirty_interactive
    at_pc.Agent.Stream.next_consecutive_unchanged
viewer_current_example =
    viewer_current 1 0 66_000_000 (10 * second) live updated (at_second 11 before has_room ∷ [])
      (at_second 12 after has_room) 1 (2 ∷ 4 ∷ []) (has_room-open, (has_room-open, tt)) refl refl
      (8, 6, 255 ∷ [], refl)

dropped_not_resent_example :
    shown (last_session (stream 1 0 66_000_000 lost (at_second 13 after has_room ∷ []))).sent
    ≡ shown live.sent
unfolding round last_session is_interacting fresh is_frame_dirty_interactive
    at_pc.Agent.Stream.next_consecutive_unchanged
dropped_not_resent_example =
    dropped_not_resent 1 0 66_000_000 live lost (at_second 12 after no_room)
      (at_second 13 after has_room ∷ []) 1 (2 ∷ 4 ∷ []) (omega (arith, live_run)) refl refl refl
      (8, 6, 255 ∷ [], refl) (inl (8, 6, some (255 ∷ []), refl), tt)
