-- ===== src/Server/Ws/Forward.antt =====
-- ws/handler.rs, the forwarding task: it takes the messages for the agent from the queue and sends them,
-- but of the mouse moves that stand in the queue one behind the other only the last.
use at_pc.Common.{
  ℕ, ◌+◌, ap, ◌∙◌, ◌≡◌, refl, Bool, true, false, Option, none, some, List, [], ◌∷◌, arith,
  Bool-cases, inl, inr, if◌then◌else◌,
}
use at_pc.Protocol.Messages.{
  DesktopInputEvent, mouse_move, mouse_move_pixel, ServerToAgentMessage, desktop_input,
}

abbrev is_move : {Int : Type 0} → DesktopInputEvent Int → Bool
is_move (mouse_move x y) = true
is_move (mouse_move_pixel x y) = true
is_move other = false

unfoldable pub is_coalesceable_mouse :
    {Int Float Value : Type 0} → ServerToAgentMessage Int Float Value → Bool
is_coalesceable_mouse (desktop_input event) = is_move event
is_coalesceable_mouse other = false

-- A message of the queue, and whether `try_recv` finds it there when it is asked for.
pub record Queued (Int Float Value : Type 0) : Type 0 where
  pub message : ServerToAgentMessage Int Float Value
  pub ready : Bool

-- What becomes of an attempt to send: the task may be aborted at any of them.
pub data Sending : Type 0 where
  sends fails not_serialized aborted : Sending

-- What the task tries to send: from within the inner loop, or at the end of a turn of the outer one.
pub data Output (Int Float Value : Type 0) : Type 0 where
  in_turn closing : ServerToAgentMessage Int Float Value → Output Int Float Value

module _ {Int Float Value : Type 0} where
  abbrev pub messages : List (Queued Int Float Value) → List (ServerToAgentMessage Int Float Value)
  messages [] = []
  messages (q ∷ qs) = q.message ∷ messages qs

  abbrev or_nothing : Option (ServerToAgentMessage Int Float Value) → List (Output Int Float Value)
  or_nothing none = []
  or_nothing (some held) = closing held ∷ []

  -- Both loops: `held` is the mouse move in `final_msg` that the inner loop still holds back.
  forward_loop :
      Option (ServerToAgentMessage Int Float Value)
      → List (Queued Int Float Value)
      → List (Output Int Float Value)
  forward_loop held [] = or_nothing held
  forward_loop held (q ∷ qs) =
      let is_mouse = is_coalesceable_mouse q.message in
      let rest = forward_loop (if is_mouse then some q.message else none) qs in
      let sent = if is_mouse then rest else closing q.message ∷ rest in
      elim held [
        | none ↦ sent
        | some move ↦
            if q.ready then if is_mouse then sent else in_turn move ∷ sent else closing move ∷ sent
      ]

  -- What is sent, and where the task ends: the result of sending a move in the inner loop is ignored; a
  -- message that is not serialized is left out.
  deliver :
      (ℕ → Sending)
      → ℕ
      → List (Output Int Float Value)
      → List (ServerToAgentMessage Int Float Value)
  deliver outcome n [] = []
  deliver outcome n (in_turn m ∷ os) =
      let rest = deliver outcome (n + 1) os in
      elim (outcome n) [ sends ↦ m ∷ rest | fails ↦ rest | not_serialized ↦ rest | aborted ↦ [] ]
  deliver outcome n (closing m ∷ os) =
      let rest = deliver outcome (n + 1) os in
      elim (outcome n) [ sends ↦ m ∷ rest | fails ↦ [] | not_serialized ↦ rest | aborted ↦ [] ]

  abbrev outputs : List (Output Int Float Value) → List (ServerToAgentMessage Int Float Value)
  outputs [] = []
  outputs (in_turn m ∷ os) = m ∷ outputs os
  outputs (closing m ∷ os) = m ∷ outputs os

  unfoldable pub forward :
      (ℕ → Sending) → List (Queued Int Float Value) → List (ServerToAgentMessage Int Float Value)
  unfolding forward_loop deliver is_coalesceable_mouse
  forward outcome queue = deliver outcome 0 (forward_loop none queue)

-- What the agent's pointer and its other input see: each other message with the mouse move before it,
-- and the last move of all.
abbrev Seen : Type 0 → Type 0
Seen Message = List (Option Message × Message) × Option Message

module _ {Int Float Value : Type 0} where
  unfoldable pub seen_after :
      Option (ServerToAgentMessage Int Float Value)
      → List (ServerToAgentMessage Int Float Value)
      → Seen (ServerToAgentMessage Int Float Value)
  seen_after last [] = ([], last)
  seen_after last (m ∷ ms) =
      let is_mouse = is_coalesceable_mouse m in
      let (others, final) = seen_after (if is_mouse then some m else last) ms in
      (if is_mouse then others else (last, m) ∷ others, final)

  abbrev or_last :
      Option (ServerToAgentMessage Int Float Value)
      → Option (ServerToAgentMessage Int Float Value)
      → Option (ServerToAgentMessage Int Float Value)
  or_last none last = last
  or_last (some held) last = some held

  -- What is held back is a mouse move.
  abbrev Held : Option (ServerToAgentMessage Int Float Value) → Type 0
  Held none = Unit
  Held (some m) = is_coalesceable_mouse m ≡ true

  seen-forward_loop :
      (held last : Option (ServerToAgentMessage Int Float Value))
      (queue : List (Queued Int Float Value))
      → Held held
      → seen_after last (outputs (forward_loop held queue))
        ≡ seen_after (or_last held last) (messages queue)
  unfolding seen_after forward_loop
  seen-forward_loop none last [] h = refl
  seen-forward_loop (some move) last [] h = ground arith
  seen-forward_loop none last (q ∷ qs) h = elim (Bool-cases (is_coalesceable_mouse q.message)) [
    | inl e ↦ rw e (seen-forward_loop (some q.message) last qs e)
    | inr e ↦ ground (arith, e, seen-forward_loop none last qs tt)
  ]
  seen-forward_loop (some move) last (q ∷ qs) h =
      elim (Bool-cases (is_coalesceable_mouse q.message)) [
        | inl e ↦ ground (
          arith,
          e,
          h,
          seen-forward_loop (some q.message) (some move) qs e,
          seen-forward_loop (some q.message) last qs e,
        )
        | inr e ↦ ground (arith, e, h, seen-forward_loop none (some move) qs tt)
      ]

  deliver-outputs :
      (outcome : ℕ → Sending) (n : ℕ) (os : List (Output Int Float Value))
      → ((k : ℕ) → outcome k ≡ sends)
      → deliver outcome n os ≡ outputs os
  unfolding deliver
  deliver-outputs outcome n [] h = refl
  deliver-outputs outcome n (in_turn m ∷ os) h =
      rw (h n, deliver) (ap (λ ms. m ∷ ms) (deliver-outputs outcome (n + 1) os h))
  deliver-outputs outcome n (closing m ∷ os) h =
      rw (h n, deliver) (ap (λ ms. m ∷ ms) (deliver-outputs outcome (n + 1) os h))

  -- As long as every message can be serialized and sent and the task is not aborted, and whenever the
  -- messages come into the queue: what is sent is seen as all of them would be: every
  -- message but the mouse moves is sent, in order, with the same mouse move as the last before it, and
  -- the last mouse move of all is the same.
  pub forward-seen :
      (outcome : ℕ → Sending) (last : Option (ServerToAgentMessage Int Float Value))
      (queue : List (Queued Int Float Value))
      → ((k : ℕ) → outcome k ≡ sends)
      → seen_after last (forward outcome queue) ≡ seen_after last (messages queue)
  unfolding forward
  forward-seen outcome last queue h =
      ap (seen_after last) (deliver-outputs outcome 0 (forward_loop none queue) h)
      ∙ seen-forward_loop none last queue tt
