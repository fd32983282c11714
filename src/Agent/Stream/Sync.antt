-- ===== src/Agent/Stream/Sync.antt =====
-- stream.rs: the hashes that the loop keeps are those of the newest picture.
use at_pc.Common.{
  ℕ, ◌≡◌, refl, Bool, true, false, Option, List, [], ◌∷◌, nat_beq, arith, Bool-cases, Option-cases,
  All, ◌&&◌, inl, inr, ◌≢◌, ◌⊎◌,
}
use at_pc.Time.{Duration, duration_since}
use at_pc.Agent.Stream.{
  changed_blocks, is_frame_dirty_interactive, dirty_block_ratio, PreparedFrame, unchanged,
  keepalive, capture_error, encode_error, ready, apply_send_outcome, what_to_send, apply_ready,
  compute_backoff_interval,
}
use at_pc.Agent.Stream.Loop.{
  Room, has_room, no_room, receiver_gone, Sent, Session, Round, Flow, goes, ends, last_session,
  is_interacting, prepare, outcome_of, queue, paced, transmit, apply, counted, round, stream,
}

-- The hashes of the newest picture in the queue: a keepalive has none.
unfoldable pub shown : List Sent → List ℕ
shown [] = []
shown (s ∷ older) = elim s.frame [
  | ready hashes width height jpeg_bytes ↦ hashes
  | keepalive ↦ shown older
  | unchanged ↦ shown older
  | capture_error ↦ shown older
  | encode_error hashes ↦ shown older
]

changed_blocks_self : (xs : List ℕ) → changed_blocks xs xs ≡ 0
unfolding changed_blocks
changed_blocks_self [] = refl
changed_blocks_self (x ∷ xs) = ground (arith, changed_blocks_self xs)

pub not_dirty_self :
    (x : ℕ) (xs : List ℕ) (b : Bool) → is_frame_dirty_interactive (x ∷ xs) (x ∷ xs) b ≡ false
unfolding is_frame_dirty_interactive dirty_block_ratio
not_dirty_self x xs true = ground (arith, changed_blocks_self (x ∷ xs))
not_dirty_self x xs false = ground (arith, changed_blocks_self (x ∷ xs))

pub Room-cases : (x : Room) → (x ≡ has_room) ⊎ (x ≡ no_room) ⊎ (x ≡ receiver_gone)
Room-cases has_room = inl refl
Room-cases no_room = inr (inl refl)
Room-cases receiver_gone = inr (inr refl)

pub Flow-cases :
    (f : Flow) → ((s : Session) × (f ≡ goes s)) ⊎ ((s : Session) × (b : Bool) × (f ≡ ends s b))
Flow-cases (goes s) = inl (s, refl)
Flow-cases (ends s b) = inr (s, b, refl)

abbrev pub InSync : Session → Type 0
InSync s = s.state.last_hashes ≡ shown s.sent

abbrev pub prepared_in : Session → Round → Option PreparedFrame
prepared_in s r =
    prepare s.state.last_hashes (is_interacting r) (duration_since r.started s.state.last_sent_time)
      r.screen

module _ (my_gen display_index : ℕ) (frame_interval : Duration) where
  sync-paced : (d : Duration) (s : Session) (r : Round) → InSync s → InSync (paced d s r)
  unfolding paced
  sync-paced d s r h = ground (arith, h)

  sync-transmit :
      (s : Session) (r : Round) (prepared : PreparedFrame)
      → r.room ≢ no_room
      → InSync s
      → InSync (last_session (transmit my_gen display_index frame_interval s r prepared))
  unfolding transmit last_session what_to_send outcome_of queue apply_send_outcome paced apply_ready
      shown
  sync-transmit s r unchanged k h = ground (arith, h)
  sync-transmit s r keepalive k h = elim (Room-cases r.room) [
    | inl e ↦ ground (arith, h, e)
    | inr (inl e) ↦ ground (arith, h, e)
    | inr (inr e) ↦ ground (arith, h, e)
  ]
  sync-transmit s r capture_error k h = ground (arith, h)
  sync-transmit s r (encode_error hashes) k h = ground (arith, h)
  sync-transmit s r (ready hashes width height jpeg_bytes) k h = elim (Room-cases r.room) [
    | inl e ↦ ground (arith, h, e)
    | inr (inl e) ↦ absurd (k e)
    | inr (inr e) ↦ ground (arith, h, e)
  ]

  sync-apply :
      (s : Session) (r : Round) (prepared : PreparedFrame)
      → r.room ≢ no_room
      → InSync s
      → InSync (last_session (apply my_gen display_index frame_interval s r prepared))
  unfolding apply last_session
  sync-apply s r unchanged k h =
      sync-paced (compute_backoff_interval frame_interval s.consecutive_unchanged) s r h
  sync-apply s r keepalive k h = sync-transmit s r keepalive k h
  sync-apply s r capture_error k h = h
  sync-apply s r (encode_error hashes) k h = sync-transmit s r (encode_error hashes) k h
  sync-apply s r (ready hashes width height jpeg_bytes) k h =
      sync-transmit s r (ready hashes width height jpeg_bytes) k h

  sync-round :
      (s : Session) (r : Round)
      → r.room ≢ no_room
      → InSync s
      → InSync (last_session (round my_gen display_index frame_interval s r))
  unfolding round last_session
  sync-round s r k h = elim (Bool-cases (r.running && nat_beq r.generation my_gen)) [
    | inl e ↦ elim (Option-cases (prepared_in s r)) [
      | inl none_prepared ↦ ground (arith, e, none_prepared, h)
      | inr (prepared, some_prepared) ↦ elim (Bool-cases (nat_beq my_gen r.generation_after)) [
        | inl same ↦ rw (e, some_prepared, same) (sync-apply (counted s prepared) r prepared k h)
        | inr other ↦ rw (e, some_prepared, other) h
      ]
    ]
    | inr e ↦ rw e h
  ]

  pub sync-stream :
      (s : Session) (rs : List Round)
      → All (λ r. r.room ≢ no_room) rs
      → InSync s
      → InSync (last_session (stream my_gen display_index frame_interval s rs))
  unfolding stream last_session
  sync-stream s [] k h = h
  sync-stream s (r ∷ rs) k h =
      let next = sync-round s r k.0 h in
      elim (Flow-cases (round my_gen display_index frame_interval s r)) [
        | inl (s', e) ↦ rw (e, stream) (sync-stream s' rs k.1 (ground (arith, next, e)))
        | inr (s', cleared, e) ↦ rw (e, stream) (ground (arith, next, e))
      ]
