-- ===== src/Ring/InFlight.antt =====
-- The piece of a ring of Buffer.h that `Session::PostSend` handed to the network, while more bytes
-- are put behind it; and `PutEmptyData` against `PutData`.
use rio_network.Base.{
  ℕ, ◌+◌, ◌≤◌, ◌≡◌, refl, sym, ap, ◌∙◌, inl, inr, List, ◌++◌, arith, ltb, Bool-cases, ℤ, pos,
  negsuc, length, take, drop, take-take, length-take, length-drop, take-append_of_le,
}
use rio_network.Fifo
use rio_network.Ring.{
  Ring, get_data_length, is_split, get_first_data_offset, get_first_data_len, put_data,
  put_empty_data, can_put_data, check_split, store,
}
use rio_network.Ring.Contents.{IsValid, contents, length-contents}
use rio_network.Ring.Put.{put_data_refines}
use rio_network.Ring.Segments.{segments_lem}

-- The first piece is the start of the contents.
pub take-contents_first :
    {r : Ring} (n : ℕ)
    → IsValid r
    → n ≤ get_first_data_len r
    → take n (contents r) ≡ take n (drop (get_first_data_offset r) r.buffer)
take-contents_first {r} n v h =
    let (pieces, all, inside, empty) = segments_lem v in
    let start = drop (get_first_data_offset r) r.buffer in
    let size = get_first_data_len r in
    ap (take n) pieces
    ∙ take-append_of_le n (take size start) _ (
        omega (
          arith,
          length-take size start,
          length-drop (get_first_data_offset r) r.buffer,
          v,
          inside,
        ))
    ∙ take-take n size start h

-- A put leaves the head, and the first piece only grows.
pub first_len-put_data :
    (r : Ring) (bytes : List ℕ) (len : ℕ)
    → IsValid r
    → let r' = (put_data r bytes (pos len)).0 in
      (get_first_data_offset r' ≡ get_first_data_offset r)
      × (get_first_data_len r ≤ get_first_data_len r')
unfolding put_data can_put_data get_data_length store check_split get_first_data_offset
    get_first_data_len is_split
first_len-put_data r bytes len v = ground (arith, v)

-- What a put leaves behind the bytes that were there.
put_data-contents :
    (r : Ring) (bytes : List ℕ) (len : ℕ)
    → IsValid r
    → len ≤ length bytes
    → let r' = (put_data r bytes (pos len)).0 in
      IsValid r'
      × (take (get_first_data_len r) (contents r') ≡ take (get_first_data_len r) (contents r))
unfolding Fifo.put
put_data-contents r bytes len v enough =
    let (valid, e, same) = put_data_refines bytes len v enough in
    let (pieces, all, inside, empty) = segments_lem v in
    (
      valid,
      elim (Bool-cases (ltb (length (contents r) + length (take len bytes)) r.buf_size)) [
        | inl room ↦
            let stored : contents (put_data r bytes (pos len)).0 ≡ contents r ++ take len bytes =
              ground (arith, ap (λ x. x.0) e) in
            ap (take (get_first_data_len r)) stored
            ∙ take-append_of_le (get_first_data_len r) (contents r) _
                (omega (arith, length-contents v, all))
        | inr full ↦
            let kept : contents (put_data r bytes (pos len)).0 ≡ contents r =
              ground (arith, ap (λ x. x.0) e) in
            ap (take (get_first_data_len r)) kept
      ],
    )

-- While a send of the first piece is on its way, more data may be put: the piece stays where it is
-- and none of its bytes is overwritten. The ring is valid and the data has the bytes that its
-- length says.
pub put_data-first :
    (r : Ring) (bytes : List ℕ) (len : ℕ)
    → IsValid r
    → len ≤ length bytes
    → let r' = (put_data r bytes (pos len)).0 in
      (get_first_data_offset r' ≡ get_first_data_offset r)
      × (take (get_first_data_len r) (drop (get_first_data_offset r) r'.buffer)
          ≡ take (get_first_data_len r) (drop (get_first_data_offset r) r.buffer))
put_data-first r bytes len v enough =
    let (same, grown) = first_len-put_data r bytes len v in
    let (valid, kept) = put_data-contents r bytes len v enough in
    let size = get_first_data_len r in
    let r' = (put_data r bytes (pos len)).0 in
    (
      same,
      sym (ap (λ o. take size (drop o r'.buffer)) same)
          ∙ sym (take-contents_first size valid grown)
          ∙ kept
          ∙ take-contents_first size v (omega arith),
    )

-- `PutEmptyData` moves the positions and answers as `PutData` of any bytes does, and leaves the
-- memory alone.
pub put_empty_data_lem :
    (r : Ring) (bytes : List ℕ) (len : ℤ)
    → let (r', done) = put_data r bytes len in
      put_empty_data r len ≡ (record r' { buffer = r.buffer }, done)
unfolding put_empty_data put_data store
put_empty_data_lem r bytes (negsuc n) = refl
put_empty_data_lem r bytes (pos len) = ground arith
