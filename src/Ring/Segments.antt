-- ===== src/Ring/Segments.antt =====
-- The two pieces of a ring of Buffer.h that `Session::PostSend` hands to the network, and the
-- growth of a ring, `GlowBuffer`.
use rio_network.Base.{
  ℕ, ◌+◌, ◌-◌, ◌*◌, ◌^◌, ◌≤◌, ◌<◌, ◌≡◌, refl, sym, ap, ◌∙◌, inl, inr, List, ◌++◌, append-nil, arith,
  ltb, Bool-cases, length, take, drop, copy_to, length-copy_to, length-take, length-drop,
  take-append_of_le, drop-append_of_le, drop-take, take_all, take-copy_to_end, ◌==◌,
}
use rio_network.Ring.{
  Ring, get_data_length, is_split, get_first_data_offset, get_first_data_len, get_second_data_len,
  glow_buffer,
}
use rio_network.Ring.Contents.{IsValid, contents, contents_flat, contents_split}

-- Of a valid ring, the first piece lies inside the memory, is empty only in an empty ring, and makes up the data
-- together with the second, which starts the memory.
pub segments_lem :
    {r : Ring}
    → IsValid r
    → (contents r
        ≡ take (get_first_data_len r) (drop (get_first_data_offset r) r.buffer)
          ++ take (get_second_data_len r) r.buffer)
      × (get_first_data_len r + get_second_data_len r ≡ get_data_length r)
      × (get_first_data_offset r + get_first_data_len r ≤ r.buf_size)
      × ((get_first_data_len r == 0) ≡ (get_data_length r == 0))
unfolding get_first_data_offset get_first_data_len get_second_data_len is_split get_data_length
segments_lem {r} v = elim (Bool-cases (ltb r.tail_pos r.head_pos)) [
  | inl split ↦ (
    rw split (
        contents_split v (ground arith)
        ∙ ap (λ q. q ++ take r.tail_pos r.buffer)
            (sym (
              take_all (r.buf_size - r.head_pos) (drop r.head_pos r.buffer)
                (omega (arith, v, length-drop r.head_pos r.buffer))))),
    ground (arith, v),
    ground (arith, v),
    ground (arith, v),
  )
  | inr flat ↦ (
    rw flat (contents_flat v (ground arith) ∙ sym (append-nil _)),
    ground (arith, v),
    ground (arith, v),
    ground (arith, v),
  )
]

module _ {r : Ring} (fresh : List ℕ) (v : IsValid r) (twice : length fresh ≡ r.buf_size * 2) where
  abbrev grown : List ℕ
  grown = copy_to fresh 0 r.buffer

  length-grown : length grown ≡ r.buf_size * 2
  length-grown = length-copy_to fresh 0 r.buffer (omega (arith, v)) ∙ twice

  abbrev unrolled : Ring
  unrolled = record r {
    buffer = copy_to grown r.buf_size (take r.tail_pos r.buffer);
    buf_size = r.buf_size * 2;
    tail_pos = r.tail_pos + r.buf_size;
  }

  unrolled_lem :
      r.buf_size * 2 ≤ 2 ^ 30
      → r.tail_pos < r.head_pos
      → IsValid unrolled × (contents unrolled ≡ contents r)
  unrolled_lem small split =
      let moved : length (take r.tail_pos r.buffer) ≡ r.tail_pos =
        omega (arith, v, length-take r.tail_pos r.buffer) in
      let valid : IsValid unrolled = record {
        memory =
            length-copy_to grown r.buf_size (take r.tail_pos r.buffer)
              (omega (arith, v, length-grown))
            ∙ length-grown;
        small = small;
        head_in = omega (arith, v);
        tail_in = omega (arith, v);
      } in
      (
        valid,
        contents_flat valid (omega (arith, v))
            ∙ sym (drop-take r.head_pos (r.tail_pos + r.buf_size) unrolled.buffer)
            ∙ ap (λ k. drop r.head_pos (take k unrolled.buffer))
                {y = r.buf_size + length (take r.tail_pos r.buffer)} (omega arith)
            ∙ ap (drop r.head_pos) (
                take-copy_to_end grown r.buf_size (take r.tail_pos r.buffer)
                  (omega (arith, length-grown)))
            ∙ ap (λ q. drop r.head_pos (q ++ take r.tail_pos r.buffer)) front
            ∙ drop-append_of_le r.head_pos r.buffer (take r.tail_pos r.buffer) (omega (arith, v))
            ∙ sym (contents_split v split),
      )
    where
      front : take r.buf_size grown ≡ r.buffer
      front =
          ap (λ k. take k grown) {y = 0 + length r.buffer} (omega (arith, v))
          ∙ take-copy_to_end fresh 0 r.buffer (omega arith)

  -- A ring in one piece keeps its place in the larger memory.
  abbrev widened : Ring
  widened = record r { buffer = grown; buf_size = r.buf_size * 2 }

  widened_lem :
      r.buf_size * 2 ≤ 2 ^ 30
      → r.head_pos ≤ r.tail_pos
      → IsValid widened × (contents widened ≡ contents r)
  widened_lem small flat =
      let valid : IsValid widened = record {
        memory = length-grown;
        small = small;
        head_in = omega (arith, v);
        tail_in = omega (arith, v);
      } in
      (
        valid,
        contents_flat valid flat
            ∙ ap (take (r.tail_pos - r.head_pos))
                (drop-append_of_le r.head_pos r.buffer _ (omega (arith, v)))
            ∙ take-append_of_le (r.tail_pos - r.head_pos) (drop r.head_pos r.buffer) _
                (omega (arith, v, length-drop r.head_pos r.buffer))
            ∙ sym (contents_flat v flat),
      )

-- `GlowBuffer` of a valid ring, of at most 2 ^ 30 bytes when doubled, doubles the memory and keeps
-- the ring valid and the data, also where it went round the old end.
pub glow_buffer_lem :
    {r : Ring} (fresh : List ℕ)
    → IsValid r
    → length fresh ≡ r.buf_size * 2
    → r.buf_size * 2 ≤ 2 ^ 30
    → let r' = glow_buffer r fresh in
      IsValid r' × (contents r' ≡ contents r) × (r'.buf_size ≡ r.buf_size * 2)
unfolding glow_buffer
glow_buffer_lem {r} fresh v twice small = elim (Bool-cases (ltb r.tail_pos r.head_pos)) [
  | inl split ↦
      let done = unrolled_lem fresh v twice small (ground arith) in rw split (done.0, done.1, refl)
  | inr flat ↦
      let done = widened_lem fresh v twice small (ground arith) in rw flat (done.0, done.1, refl)
]
