-- ===== src/Server/Ws/Registration/Joins.antt =====
-- ws/handler.rs: when an agent joins.
use at_pc.Common.{
  ℕ, Str, true, false, Option, none, some, ◌≡◌, ◌↔◌, refl, ap, Eq, arith, Bool-cases, inl, inr,
}
use at_pc.Protocol.{TerminalInfo}
use at_pc.Protocol.Messages.{AgentToServerMessage, register}
use at_pc.Server.Gateway.State.{Peer}
use at_pc.Server.RateLimit.{check_at}
use at_pc.Server.Registry
use at_pc.Server.Ws.Registration.{
  WsServerState, First, message, ok, Arrival, is_banned, is_limited, answer_first,
  wait_for_registration, Upgrade, agent, joined, connect,
}

module _ {Ip Metrics Sender : Type 0} ⦃ip_eq : Eq Ip⦄ where
  -- The limiter lets the address pass.
  abbrev pub Passes : WsServerState Ip Metrics Sender → Option (Peer Ip) → Arrival → Type 0
  Passes s none a = Unit
  Passes s (some p) a =
      let (l, d) = check_at s.rate_limiter p.ip a.at_connect in
      (is_banned d ≡ false) × (is_limited (check_at l p.ip a.at_check).1 ≡ false)

  abbrev Joined :
      {Value : Type 0}
      → WsServerState Ip Metrics Sender
      → Option (Peer Ip)
      → Sender
      → Arrival
      → First Metrics Value
      → Upgrade
      → TerminalInfo
      → ℕ
      → Type 0
  Joined s peer tx a first path info n =
      (auth_token : Option Str) × (first ≡ message (register info auth_token))
      × (path ≡ agent)
      × Passes s peer a
      × (a.ack_sent ≡ true)
      × (n ≡ s.registry.session_seq)
      × ((connect s peer tx a first path).0.registry
          ≡ (Registry.register s.registry info tx a.at_register a.wall_clock).0)

  answer_first-joins :
      {Value : Type 0} (s : WsServerState Ip Metrics Sender) (peer : Option (Peer Ip)) (tx : Sender)
      (a : Arrival) (msg : AgentToServerMessage Metrics Value) (info : TerminalInfo) (n : ℕ)
      → (answer_first s peer tx a msg).1 ≡ ok info n
      → (auth_token : Option Str) × (msg ≡ register info auth_token)
        × (a.ack_sent ≡ true)
        × (n ≡ s.registry.session_seq)
        × ((answer_first s peer tx a msg).0.registry
            ≡ (Registry.register s.registry info tx a.at_register a.wall_clock).0)
  unfolding answer_first Registry.register
  answer_first-joins s none tx a (register i auth_token) info n h =
      (auth_token, ground (arith, h), ground (arith, h), ground (arith, h), ground (arith, h))
  answer_first-joins s (some p) tx a (register i auth_token) info n h =
      (auth_token, ground (arith, h), ground (arith, h), ground (arith, h), ground (arith, h))
  answer_first-joins s peer tx a other info n h = absurd (ground (arith, h))

  joins :
      {Value : Type 0} (s : WsServerState Ip Metrics Sender) (peer : Option (Peer Ip)) (tx : Sender)
      (a : Arrival) (first : First Metrics Value) (path : Upgrade) (info : TerminalInfo) (n : ℕ)
      → (connect s peer tx a first path).1 ≡ joined (ok info n)
      → Joined s peer tx a first path info n
  unfolding connect wait_for_registration
  joins s none tx a (message msg) agent info n h =
      let (t, e, sent, number, same) =
        answer_first-joins s none tx a msg info n (ground (arith, h)) in
      (t, ap (λ (x : AgentToServerMessage Metrics _). message x) e, refl, tt, sent, number, same)
  joins s (some p) tx a (message msg) agent info n h =
      let (l, d) = check_at s.rate_limiter p.ip a.at_connect in
      let (l', d') = check_at l p.ip a.at_check in
      elim (Bool-cases (is_banned d)) [
        | inl b ↦ absurd (ground (arith, b, h))
        | inr b ↦ elim (Bool-cases (is_limited d')) [
          | inl f ↦ absurd (ground (arith, b, f, h))
          | inr f ↦
              let (t, e, sent, number, same) =
                answer_first-joins (record s { rate_limiter = l' }) (some p) tx a msg info n
                  (ground (arith, b, f, h)) in
              (
                t,
                ap (λ (x : AgentToServerMessage Metrics _). message x) e,
                refl,
                (b, f),
                sent,
                number,
                ground (arith, b, f, same),
              )
        ]
      ]
  joins s none tx a first path info n h = absurd (ground (arith, h))
  joins s (some p) tx a first path info n h = absurd (ground (arith, h))

  joined_back :
      (Value : Type 0) (s : WsServerState Ip Metrics Sender) (peer : Option (Peer Ip)) (tx : Sender)
      (a : Arrival) (info : TerminalInfo) (auth_token : Option Str) (n : ℕ)
      → Passes s peer a
      → a.ack_sent ≡ true
      → n ≡ s.registry.session_seq
      → (connect {Value = Value} s peer tx a (message (register info auth_token)) agent).1
        ≡ joined (ok info n)
  unfolding connect wait_for_registration answer_first Registry.register
  joined_back Value s none tx a info auth_token n u sent number = ground (arith, sent, number)
  joined_back Value s (some p) tx a info auth_token n (b, f) sent number =
      ground (arith, b, f, sent, number)

  -- An agent joins exactly if its connection is one for agents, its address is neither banned nor rate
  -- limited, its first message is a registration and the acknowledgement can be sent; then it is
  -- registered under the number that it joins with. Its credential is not looked at.
  pub joins_exactly :
      {Value : Type 0} (s : WsServerState Ip Metrics Sender) (peer : Option (Peer Ip)) (tx : Sender)
      (a : Arrival) (first : First Metrics Value) (path : Upgrade) (info : TerminalInfo) (n : ℕ)
      → ((connect s peer tx a first path).1 ≡ joined (ok info n)) ↔ (
          (auth_token : Option Str) × (first ≡ message (register info auth_token))
          × (path ≡ agent)
          × Passes s peer a
          × (a.ack_sent ≡ true)
          × (n ≡ s.registry.session_seq)
          × ((connect s peer tx a first path).0.registry
              ≡ (Registry.register s.registry info tx a.at_register a.wall_clock).0))
  joins_exactly s peer tx a first path info n = (
    joins s peer tx a first path info n,
    λ (t, e, p, u, sent, number, same).
        rw (e, p) (joined_back _ s peer tx a info t n u sent number),
  )
