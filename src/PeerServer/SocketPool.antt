-- ===== src/PeerServer/SocketPool.antt =====
-- src/lib/peer_server/MultiplexedSocketPool.h and src/lib/peer_server/MultiplexedSocketWriter.cpp:
-- one buffered writer for each address, which the writers of its channels share.
use turbopump.Prelude.{
  ℕ, Bool, true, false, Bytes, List, [], ◌∷◌, ◌++◌, Option, none, some, length, get_elem?, set,
  if◌then◌else◌,
}
use turbopump.Wire.Socket.{ℤ, pos, negsuc, Socket}
use turbopump.Wire.BufferedWriter.{Writer, init, write, flush}

-- `packetsize` is that of a connection's writer, and `same` the equality of addresses.
module _ (k : Socket) {A : Type 0} (same : A → A → Bool) (endpoint : k.State → A)
    (handle : k.State → ℤ) (close_socket : k.State → k.State) (packetsize : ℕ) where
  -- `_connections` holds the places of writers. Writers that are erased stay where they are, for
  -- those that still hold them.
  pub record Pool : Type 0 where
    pub connections : List (A × ℕ)
    pub writers : List (Writer k.State)

  -- MultiplexedSocketWriter: a channel, and the place of the writer.
  pub record Channel : Type 0 where
    pub muxid : ℕ
    pub place : ℕ

  place_of : A → List (A × ℕ) → Option ℕ
  place_of x [] = none
  place_of x ((y, r) ∷ rest) = let later = place_of x rest in if same y x then some r else later

  without : A → List (A × ℕ) → List (A × ℕ)
  without x [] = []
  without x ((y, r) ∷ rest) =
      let later = without x rest in if same y x then later else (y, r) ∷ later

  -- Whether the address is new, and its writer.
  unfoldable pub insert : k.State → Pool → Bool × Channel × Pool
  unfolding place_of
  insert sock pool = elim (place_of (endpoint sock) pool.connections) [
    | some r ↦ (false, record { muxid = 0; place = r }, pool)
    | none ↦
        let r = length pool.writers in
        (
          true,
          record { muxid = 0; place = r },
          record {
            connections = (endpoint sock, r) ∷ pool.connections;
            writers = pool.writers ++ init sock packetsize ∷ [];
          },
        )
  ]

  is_closed : ℤ → Bool
  is_closed (pos n) = false
  is_closed (negsuc n) = true

  -- A connection whose handle is gone is erased.
  unfoldable pub find : A → Pool → Option Channel × Pool
  unfolding place_of without is_closed
  find x pool = elim (place_of x pool.connections) [
    | none ↦ (none, pool)
    | some r ↦ elim (get_elem? pool.writers r) [
      | none ↦ (none, pool)
      | some writer ↦
          if is_closed (handle writer.sock)
          then (none, record pool { connections = without x pool.connections })
          else (some (record { muxid = 0; place = r }), pool)
    ]
  ]

  unfoldable pub close : k.State → Pool → k.State × Pool
  unfolding without
  close sock pool =
      let closed = close_socket sock in
      (closed, record pool { connections = without (endpoint closed) pool.connections })

  close_at : List (A × ℕ) → List (Writer k.State) → List (Writer k.State)
  close_at [] writers = writers
  close_at ((x, r) ∷ rest) writers = close_at rest (elim (get_elem? writers r) [
    | none ↦ writers
    | some writer ↦ set writers r (record writer { sock = close_socket writer.sock })
  ])

  unfoldable pub close_all : Pool → Pool
  unfolding close_at
  close_all pool = record { connections = []; writers = close_at pool.connections pool.writers }

  -- What the shared writer takes of a packet of the channel.
  send_on : Bool → Channel → Bytes → Pool → ℕ × Pool
  send_on blocking c buffer pool = elim (get_elem? pool.writers c.place) [
    | none ↦ (0, pool)
    | some writer ↦
        let (n, writer') = write k blocking writer c.muxid buffer in
        (n, record pool { writers = set pool.writers c.place writer' })
  ]

  unfoldable pub try_send : Channel → Bytes → Pool → ℕ × Pool
  unfolding send_on
  try_send c buffer pool = send_on false c buffer pool

  unfoldable pub send : Channel → Bytes → Pool → ℕ × Pool
  unfolding send_on
  send c buffer pool = send_on true c buffer pool

  unfoldable pub flush_channel : Bool → Channel → Pool → Bool × Pool
  flush_channel wait c pool = elim (get_elem? pool.writers c.place) [
    | none ↦ (false, pool)
    | some writer ↦
        let (ok, writer') = flush k wait writer in
        (ok, record pool { writers = set pool.writers c.place writer' })
  ]

  unfoldable pub set_muxid : ℕ → Channel → Channel
  set_muxid id c = record c { muxid = id }
