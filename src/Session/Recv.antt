-- ===== src/Session/Recv.antt =====
-- The receiving side of Session.cpp: `PostRecv`, `CompletedRecv`, and the cut of the stream into
-- packets, `IsCompletedPacket` and `Unmarshall`.
use rio_network.Base.{
  ℕ, ◌+◌, ◌*◌, ◌%◌, true, false, Option, none, some, List, ◌∷◌, ltb, leb, ◌==◌, if◌then◌else◌, pos,
  to_int,
}
use rio_network.Ring.{Ring, get_data_length, get_data, put_data, pop_data, copied}
use rio_network.Session.{
  Session, Reply, posted_recv, recv_postrecv_error, recv_putdata_error, remote_closed, is_connected,
  accepts, max_packet_size,
}
use rio_network.Session.Refs.{add_ref, release_ref, disconnect}

unfoldable pub post_recv : Reply → Session → Session
unfolding add_ref release_ref disconnect
post_recv reply s =
    if s.recv_pending
    then s
    else (if is_connected s
        then (let held = add_ref (record s { recv_pending = true }) in
            if accepts s.io_model reply
            then record held { out = posted_recv ∷ held.out }
            else release_ref
                (disconnect recv_postrecv_error (record held { recv_pending = false })))
        else s)

-- `bytes` is what the receive left at the start of `m_RecvIOBuffer`.
unfoldable pub completed_recv : ℕ → List ℕ → Session → Session
unfolding disconnect
completed_recv transferred bytes s =
    if ltb 0 transferred
    then (let (ring, stored) = put_data s.recv_buffer bytes (to_int transferred) in
        let s' = record s { recv_buffer = ring } in
        let s'' = if stored then s' else disconnect recv_putdata_error s' in
        record s'' { recv_pending = false })
    else disconnect remote_closed (record s { recv_pending = false })

-- An `unsigned short` from two bytes of a little-endian machine. A failed copy leaves it 0.
abbrev pub little_endian : List ℕ → ℕ
little_endian (low ∷ high ∷ _) = low % 256 + 256 * (high % 256)
little_endian _ = 0

unfoldable pub packet_size : Ring → ℕ
packet_size ring = elim (get_data ring (pos 2)) [ copied bytes ↦ little_endian bytes | _ ↦ 0 ]

-- `some` of what goes through `Len`.
unfoldable pub is_completed_packet : Ring → Option ℕ
is_completed_packet ring =
    if get_data_length ring == 0
    then none
    else (if ltb (get_data_length ring) 2
        then none
        else (if ltb (get_data_length ring) (packet_size ring)
            then none
            else some (packet_size ring)))

-- `nullptr`, the packet and the buffer without it, or an exception.
pub data Unmarshalled : Type 0 where
  nothing thrown : Unmarshalled
  packet : List ℕ → Ring → Unmarshalled

unfoldable pub unmarshall : Ring → Unmarshalled
unmarshall ring = elim (is_completed_packet ring) [
  | none ↦ nothing
  | some len ↦ if leb max_packet_size len then thrown else (elim (get_data ring (to_int len)) [
    | copied bytes ↦ packet bytes (pop_data ring len).0
    | _ ↦ thrown
  ])
]
