-- ===== src/Agent/Stream/Current.antt =====
-- stream.rs: whether the newest picture in the queue is up to date.
use at_pc.Common.{
  ℕ, ◌≡◌, refl, Bool, true, false, some, Option, List, [], ◌∷◌, leb, nat_beq, arith, Bool-cases,
  All, ◌&&◌, inl, inr, ◌≢◌, ◌⊎◌,
}
use at_pc.Time.{Instant, Duration, duration_since}
use at_pc.Agent.Stream.{
  from_millis, is_frame_dirty_interactive, decide_frame_send, PreparedFrame, unchanged, keepalive,
  capture_error, encode_error, ready, apply_send_outcome, what_to_send, apply_ready,
}
use at_pc.Agent.Stream.Loop.{
  image, no_room, no_monitor, task_failed, capture_failed, Session, Round, goes, last_session,
  is_interacting, prepare, outcome_of, queue, paced, transmit, apply, counted, round, stream, fresh,
}
use at_pc.Agent.Stream.Sync.{
  shown, not_dirty_self, Room-cases, Flow-cases, InSync, prepared_in, sync-stream,
}

module _ (my_gen display_index : ℕ) (frame_interval : Duration) where
  -- What a round without a picture does.
  unchanged-apply :
      (s : Session) (r : Round) (prepared : PreparedFrame)
      → (prepared ≡ unchanged) ⊎ (prepared ≡ keepalive)
      → ((last_session (apply my_gen display_index frame_interval s r prepared)).state.last_hashes
          ≡ s.state.last_hashes)
        × (shown (last_session (apply my_gen display_index frame_interval s r prepared)).sent
            ≡ shown s.sent)
  unfolding apply transmit last_session what_to_send outcome_of queue apply_send_outcome paced shown
  unchanged-apply s r unchanged h = (ground arith, ground arith)
  unchanged-apply s r keepalive h = elim (Room-cases r.room) [
    | inl e ↦ (ground (arith, e), ground (arith, e))
    | inr (inl e) ↦ (ground (arith, e), ground (arith, e))
    | inr (inr e) ↦ (ground (arith, e), ground (arith, e))
  ]
  unchanged-apply s r capture_error h = absurd (ground arith)
  unchanged-apply s r (encode_error hashes) h = absurd (ground arith)
  unchanged-apply s r (ready hashes width height jpeg_bytes) h = absurd (ground arith)

module _ (my_gen display_index : ℕ) (frame_interval : Duration) (s : Session) (r : Round)
    (hashes : List ℕ) (width height : ℕ) (jpeg : Option (List ℕ))
    (seen : r.screen ≡ image hashes width height jpeg) where
  abbrev is_dirty : Bool
  is_dirty = is_frame_dirty_interactive s.state.last_hashes hashes (is_interacting r)

  prepared_clean :
      is_dirty ≡ false
      → (p : PreparedFrame) × ((p ≡ unchanged) ⊎ (p ≡ keepalive)) × (prepared_in s r ≡ some p)
  unfolding prepare decide_frame_send
  prepared_clean h =
      elim (Bool-cases (leb (from_millis 500) (duration_since r.started s.state.last_sent_time))) [
        | inl late ↦ (keepalive, inr refl, ground (arith, seen, h, late))
        | inr early ↦ (unchanged, inl refl, ground (arith, seen, h, early))
      ]

  -- A round that finds no change leaves the kept hashes and the newest picture.
  round_clean :
      is_dirty ≡ false
      → ((last_session (round my_gen display_index frame_interval s r)).state.last_hashes
          ≡ s.state.last_hashes)
        × (shown (last_session (round my_gen display_index frame_interval s r)).sent ≡ shown s.sent)
  unfolding round last_session
  round_clean h =
      let (p, quiet, e) = prepared_clean h in
      elim (Bool-cases (r.running && nat_beq r.generation my_gen)) [
        | inl runs ↦ elim (Bool-cases (nat_beq my_gen r.generation_after)) [
          | inl same ↦
              rw (runs, e, same)
                (unchanged-apply my_gen display_index frame_interval (counted s p) r p quiet)
          | inr other ↦ rw (runs, e, other) (refl, refl)
        ]
        | inr stops ↦ rw stops (refl, refl)
      ]

module _ (my_gen display_index : ℕ) (frame_interval : Duration) (s : Session) (r : Round)
    (hashes : List ℕ) (width height : ℕ) (jpeg : List ℕ)
    (seen : r.screen ≡ image hashes width height (some jpeg)) where
  prepared_dirty :
      is_dirty my_gen display_index frame_interval s r hashes width height (some jpeg) seen ≡ true
      → prepared_in s r ≡ some (ready hashes width height jpeg)
  unfolding prepare decide_frame_send
  prepared_dirty h = ground (arith, seen, h)

  round_dirty :
      (s' : Session)
      → is_dirty my_gen display_index frame_interval s r hashes width height (some jpeg) seen ≡ true
      → round my_gen display_index frame_interval s r ≡ goes s'
      → transmit my_gen display_index frame_interval
          (counted s (ready hashes width height jpeg))
          r
          (ready hashes width height jpeg)
        ≡ goes s'
  unfolding round last_session apply
  round_dirty s' h goes_on =
      let e = prepared_dirty h in
      elim (Bool-cases (r.running && nat_beq r.generation my_gen)) [
        | inl runs ↦ elim (Bool-cases (nat_beq my_gen r.generation_after)) [
          | inl same ↦ ground (arith, goes_on, runs, e, same)
          | inr other ↦ absurd (ground (arith, goes_on, runs, e, other))
        ]
        | inr stops ↦ absurd (ground (arith, goes_on, stops))
      ]

-- The screen was captured with these hashes, and its picture can be encoded.
abbrev pub Captured : List ℕ → Round → Type 0
Captured hashes r =
    (width height : ℕ) × (jpeg : List ℕ) × (r.screen ≡ image hashes width height (some jpeg))

-- The screen was captured with these hashes, whether or not its picture could be encoded, or it could
-- not be captured at all.
abbrev pub Still : List ℕ → Round → Type 0
Still hashes r =
    ((width height : ℕ) × (jpeg : Option (List ℕ)) × (r.screen ≡ image hashes width height jpeg))
    ⊎ ((r.screen ≡ capture_failed) ⊎ ((r.screen ≡ no_monitor) ⊎ (r.screen ≡ task_failed)))

module _ (my_gen display_index : ℕ) (frame_interval : Duration) where
  current-round :
      (s s' : Session) (r : Round) (x : ℕ) (xs : List ℕ)
      → InSync s
      → r.room ≢ no_room
      → round my_gen display_index frame_interval s r ≡ goes s'
      → Captured (x ∷ xs) r
      → is_frame_dirty_interactive (shown s'.sent) (x ∷ xs) (is_interacting r) ≡ false
  unfolding last_session transmit what_to_send outcome_of queue paced shown
  current-round s s' r x xs sync room goes_on (width, height, jpeg, seen) =
      let dirty = is_frame_dirty_interactive s.state.last_hashes (x ∷ xs) (is_interacting r) in
      elim (Bool-cases dirty) [
        | inl h ↦
            let sent =
              round_dirty my_gen display_index frame_interval s r (x ∷ xs) width height jpeg seen s'
                h goes_on in
            elim (Room-cases r.room) [
              | inl e ↦ ground (arith, sent, e, not_dirty_self x xs (is_interacting r))
              | inr (inl e) ↦ absurd (room e)
              | inr (inr e) ↦ absurd (ground (arith, sent, e))
            ]
        | inr h ↦
            let kept =
              round_clean my_gen display_index frame_interval s r (x ∷ xs) width height (some jpeg)
                seen h in
            ground (arith, kept, goes_on, sync, h)
      ]

  -- While no frame has met a full queue: after a round that has captured the screen and could encode its
  -- picture, and after which the loop goes on, the newest picture in the queue is up to date: it does not count as changed.
  pub viewer_current :
      (start : Instant) (s s' : Session) (rs : List Round) (r : Round) (x : ℕ) (xs : List ℕ)
      → All (λ r'. r'.room ≢ no_room) (r ∷ rs)
      → stream my_gen display_index frame_interval (fresh start) rs ≡ goes s
      → round my_gen display_index frame_interval s r ≡ goes s'
      → Captured (x ∷ xs) r
      → is_frame_dirty_interactive (shown s'.sent) (x ∷ xs) (is_interacting r) ≡ false
  unfolding fresh last_session shown
  viewer_current start s s' rs r x xs kept before goes_on captured =
      current-round s s' r x xs
        (ground (
          arith,
          before,
          sync-stream my_gen display_index frame_interval (fresh start) rs kept.1 refl,
        ))
        kept.0 goes_on captured

  dropped-round :
      (s s' : Session) (r : Round) (hashes : List ℕ)
      → (s.state.last_width ≢ 0)
      → r.room ≡ no_room
      → is_frame_dirty_interactive s.state.last_hashes hashes (is_interacting r) ≡ true
      → round my_gen display_index frame_interval s r ≡ goes s'
      → Captured hashes r
      → (s'.state.last_hashes ≡ hashes) × (shown s'.sent ≡ shown s.sent)
  unfolding last_session transmit what_to_send outcome_of queue paced apply_send_outcome apply_ready
  dropped-round s s' r hashes live room h goes_on (width, height, jpeg, seen) =
      let sent =
        round_dirty my_gen display_index frame_interval s r hashes width height jpeg seen s' h
          goes_on in
      (ground (arith, sent, room, live), ground (arith, sent, room, live))

  -- A round that could not capture the screen sends nothing.
  round_blind :
      (s : Session) (r : Round)
      → (r.screen ≡ capture_failed) ⊎ ((r.screen ≡ no_monitor) ⊎ (r.screen ≡ task_failed))
      → ((last_session (round my_gen display_index frame_interval s r)).state.last_hashes
          ≡ s.state.last_hashes)
        × (shown (last_session (round my_gen display_index frame_interval s r)).sent ≡ shown s.sent)
  unfolding round last_session prepare apply
  round_blind s r (inl e) = (ground (arith, e), ground (arith, e))
  round_blind s r (inr (inl e)) = (ground (arith, e), ground (arith, e))
  round_blind s r (inr (inr e)) = (ground (arith, e), ground (arith, e))

  round-Still :
      (s : Session) (r : Round) (x : ℕ) (xs : List ℕ)
      → s.state.last_hashes ≡ x ∷ xs
      → Still (x ∷ xs) r
      → ((last_session (round my_gen display_index frame_interval s r)).state.last_hashes
          ≡ s.state.last_hashes)
        × (shown (last_session (round my_gen display_index frame_interval s r)).sent ≡ shown s.sent)
  round-Still s r x xs same (inl (width, height, jpeg, seen)) =
      round_clean my_gen display_index frame_interval s r (x ∷ xs) width height jpeg seen
        (rw same (not_dirty_self x xs (is_interacting r)))
  round-Still s r x xs same (inr blind) = round_blind s r blind

  stream-Still :
      (s : Session) (rs : List Round) (x : ℕ) (xs : List ℕ)
      → s.state.last_hashes ≡ x ∷ xs
      → All (Still (x ∷ xs)) rs
      → shown (last_session (stream my_gen display_index frame_interval s rs)).sent ≡ shown s.sent
  unfolding stream last_session
  stream-Still s [] x xs same captured = refl
  stream-Still s (r ∷ rs) x xs same (still, captured) =
      let (hashes, pictures) = round-Still s r x xs same still in
      elim (Flow-cases (round my_gen display_index frame_interval s r)) [
        | inl (s', e) ↦
            let rest = stream-Still s' rs x xs (ground (arith, hashes, e, same)) captured in
            rw (e, stream) (ground (arith, rest, pictures, e))
        | inr (s', cleared, e) ↦ rw (e, stream) (ground (arith, pictures, e))
      ]

  -- Once a picture is in the queue, a picture that meets a full queue is lost: as long as every later
  -- round that captures the screen finds it as it was, no later round puts a picture of it into the
  -- queue, whether or not the screen can be captured, or its picture encoded, in that round.
  pub dropped_not_resent :
      (s s' : Session) (r : Round) (rs : List Round) (x : ℕ) (xs : List ℕ)
      → s.state.last_width ≢ 0
      → r.room ≡ no_room
      → is_frame_dirty_interactive s.state.last_hashes (x ∷ xs) (is_interacting r) ≡ true
      → round my_gen display_index frame_interval s r ≡ goes s'
      → Captured (x ∷ xs) r
      → All (Still (x ∷ xs)) rs
      → shown (last_session (stream my_gen display_index frame_interval s' rs)).sent ≡ shown s.sent
  dropped_not_resent s s' r rs x xs live room h goes_on captured still =
      let (hashes, pictures) = dropped-round s s' r (x ∷ xs) live room h goes_on captured in
      ground (arith, stream-Still s' rs x xs hashes still, pictures)
