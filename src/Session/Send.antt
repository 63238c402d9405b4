-- ===== src/Session/Send.antt =====
-- The sending side of Session.cpp: `Marshall`, `PostSendBuffered`, the two `PostSend`s and
-- `CompletedSend`. Each returns its result beside the session.
use rio_network.Base.{
  ℕ, Bool, true, false, Option, none, some, List, ◌∷◌, ltb, ◌==◌, if◌then◌else◌, to_int,
}
use rio_network.Ring.{
  get_data_length, get_first_data_offset, get_first_data_len, put_data, pop_data,
}
use rio_network.Session.{
  Session, Reply, posted_send, send_postsend_error, send_popdata_error, remote_closed, is_connected,
  accepts,
}
use rio_network.Session.Refs.{add_ref, release_ref, disconnect}

unfoldable pub marshall : List ℕ → ℕ → Session → Session × Bool
marshall bytes len s =
    if is_connected s
    then (let (ring, stored) = put_data s.send_buffer bytes (to_int len) in
        (record s { send_buffer = ring }, stored))
    else (s, false)

unfoldable pub post_send_buffered : List ℕ → ℕ → Session → Session × Bool
unfolding marshall
post_send_buffered bytes len s = marshall bytes len s

-- `PostSend()`: hands the first piece of the send buffer to the network, one send at a time.
unfoldable pub flush : Reply → Session → Session × Bool
unfolding add_ref release_ref disconnect
flush reply s =
    if is_connected s
    then (if get_data_length s.send_buffer == 0
        then (s, true)
        else (if s.send_pending
            then (s, true)
            else (let held = add_ref (record s { send_pending = true }) in
                let offset = get_first_data_offset s.send_buffer in
                let size = get_first_data_len s.send_buffer in
                if accepts s.io_model reply
                then (record held { out = posted_send offset size ∷ held.out }, true)
                else (
                  release_ref
                      (disconnect send_postsend_error (record held { send_pending = false })),
                  false,
                ))))
    else (s, false)

-- `PostSend(Data, Len)`; `none` is a null pointer.
unfoldable pub post_send : Option (List ℕ) → ℕ → Reply → Session → Session × Bool
post_send none len reply s = flush reply s
post_send (some bytes) len reply s =
    let (s', stored) = marshall bytes len s in
    if stored
    then (if get_data_length s'.send_buffer == len then flush reply s' else (s', true))
    else (s', false)

unfoldable pub completed_send : ℕ → Reply → Session → Session × Bool
completed_send transferred reply s =
    if is_connected s
    then (if transferred == 0
        then (disconnect remote_closed (record s { send_pending = false }), false)
        else (let held = get_data_length s.send_buffer in
            if ltb held transferred
            then (
              disconnect send_popdata_error (record s {
                send_buffer = (pop_data s.send_buffer held).0;
                send_pending = false;
              }),
              false,
            )
            else flush reply (record s {
              send_buffer = (pop_data s.send_buffer transferred).0;
              send_pending = false;
            })))
    else (record s { send_pending = false }, false)
