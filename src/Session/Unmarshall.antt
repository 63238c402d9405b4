-- ===== src/Session/Unmarshall.antt =====
-- `Unmarshall` of Session.cpp against the packets of the stream in the receive buffer.
use rio_network.Base.{
  ℕ, ◌≤◌, ◌≡◌, refl, ◌≢◌, sym, ap, ◌∙◌, Bool, true, Option, none, some, List, arith, pos, take,
  drop,
}
use rio_network.Fifo
use rio_network.Ring.{Ring, get_data_length, get_data, copied, pop_data, is_full}
use rio_network.Ring.Contents.{IsValid, contents, length-contents, is_full_lem}
use rio_network.Ring.Get.{get_data_refines}
use rio_network.Ring.Pop.{pop_data_refines}
use rio_network.Session.Recv.{
  little_endian, packet_size, is_completed_packet, Unmarshalled, nothing, packet, unmarshall,
}
use rio_network.Session.Frames.{frame, little_endian-take, little_endian-lt}

module _ {ring : Ring} (v : IsValid ring) where
  -- The header is read without being removed.
  packet_size_lem : 2 ≤ get_data_length ring → packet_size ring ≡ little_endian (contents ring)
  unfolding packet_size Fifo.peek
  packet_size_lem h =
      ground (arith, get_data_refines 2 v, length-contents v, little_endian-take (contents ring))

  get_data-take :
      (len : ℕ)
      → len ≤ get_data_length ring
      → get_data ring (pos len) ≡ copied (take len (contents ring))
  unfolding Fifo.peek
  get_data-take len h = ground (arith, get_data_refines len v, length-contents v)

  is_completed_packet-none : frame (contents ring) ≡ none → is_completed_packet ring ≡ none
  unfolding is_completed_packet frame
  is_completed_packet-none e = ground (arith, length-contents v, packet_size_lem)

  abbrev len : ℕ
  len = little_endian (contents ring)

  is_completed_packet-some :
      2 ≤ get_data_length ring → len ≤ get_data_length ring → is_completed_packet ring ≡ some len
  unfolding is_completed_packet
  is_completed_packet-some h k = ground (arith, packet_size_lem h)

  unmarshall-packet :
      2 ≤ get_data_length ring
      → len ≤ get_data_length ring
      → unmarshall ring ≡ packet (take len (contents ring)) (pop_data ring len).0
  unfolding unmarshall
  unmarshall-packet h k =
      ground
        (arith, is_completed_packet-some h k, little_endian-lt (contents ring), get_data-take len k)

-- What `Unmarshall` does with a stream that starts so.
abbrev pub Cuts : Ring → Option (List ℕ × List ℕ) → Unmarshalled → Type 0
Cuts ring none u = u ≡ nothing
Cuts ring (some (p, q)) u =
    (ring' : Ring) × (u ≡ packet p ring')
    × IsValid ring'
    × (contents ring' ≡ q)
    × (ring'.buf_size ≡ ring.buf_size)

-- On a valid ring `Unmarshall` answers `nullptr` until the first packet of the stream is complete, then takes off
-- exactly that packet. Neither of its exceptions is ever thrown.
pub unmarshall_lem :
    {ring : Ring} → IsValid ring → Cuts ring (frame (contents ring)) (unmarshall ring)
unfolding unmarshall
unmarshall_lem {ring} v = go (frame (contents ring)) refl
  where
    open_frame :
        {p q : List ℕ}
        → frame (contents ring) ≡ some (p, q)
        → (2 ≤ get_data_length ring)
          × (little_endian (contents ring) ≤ get_data_length ring)
          × (p ≡ take (little_endian (contents ring)) (contents ring))
          × (q ≡ drop (little_endian (contents ring)) (contents ring))
    open_frame {p} {q} e = unfold frame in ground (arith, length-contents v)

    popped_rest : (q q' : List ℕ) (b : Bool) (n : ℕ) → (q', b) ≡ Fifo.pop q n → q' ≡ drop n q
    popped_rest q q' b n e = unfold Fifo.pop in ap (λ x. x.0) e

    go : (o : Option (List ℕ × List ℕ)) → frame (contents ring) ≡ o → Cuts ring o (unmarshall ring)
    go none e = rw (is_completed_packet-none v e, unmarshall)
    go (some (p, q)) e =
        let (h, k, ep, eq) = open_frame e in
        let (valid, popped, same) = pop_data_refines (little_endian (contents ring)) v k in
        (
          (pop_data ring (little_endian (contents ring))).0,
          rw ep (unmarshall-packet v h k),
          valid,
          popped_rest _ _ _ _ popped ∙ sym eq,
          same,
        )

-- A valid ring of at least 65536 bytes is never stuck: when it is full, `Unmarshall` does not
-- answer `nullptr`.
pub full-unmarshall :
    {ring : Ring}
    → IsValid ring
    → 65536 ≤ ring.buf_size
    → is_full ring ≡ true
    → unmarshall ring ≢ nothing
full-unmarshall {ring} v large full stuck =
    let packet_is_there =
      unmarshall-packet v (omega (arith, is_full_lem ring full))
        (omega (arith, is_full_lem ring full, little_endian-lt (contents ring))) in
    absurd (cc)
