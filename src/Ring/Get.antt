-- ===== src/Ring/Get.antt =====
-- `GetData`, `PopData` and the segment accessors of Buffer.h against the list of bytes.
use rio_network.Base.{
  ℕ, ◌-◌, ◌≤◌, ◌≡◌, sym, ap, ap₂, ◌∙◌, inl, inr, none, some, Option, List, ◌++◌, append-nil, arith,
  ltb, Bool-cases, pos, length, take, drop, length-drop, take-append_of_le, take-append_of_ge,
  take-take, take_all,
}
use rio_network.Fifo
use rio_network.Ring.{Ring, get_data_length, Got, refused, copied, get_data}
use rio_network.Ring.Contents.{IsValid, contents, length-contents}

-- The oldest bytes, read round the end of the memory.
pub take-contents :
    (r : Ring) (len : ℕ)
    → len ≤ get_data_length r
    → take len (contents r) ≡ take len (drop r.head_pos r.buffer ++ r.buffer)
unfolding contents
take-contents r len h = take-take len (get_data_length r) (drop r.head_pos r.buffer ++ r.buffer) h

-- How `GetData` answers for a copy of the list.
abbrev pub answer : Option (List ℕ) → Got
answer none = refused
answer (some bytes) = copied bytes

module _ {r : Ring} (v : IsValid r) (len : ℕ) (h : len ≤ get_data_length r) where
  take_near :
      len ≤ r.buf_size - r.head_pos → take len (drop r.head_pos r.buffer) ≡ take len (contents r)
  take_near near = sym (
      take-contents r len h
      ∙ take-append_of_le len (drop r.head_pos r.buffer) r.buffer
          (omega (arith, v, length-drop r.head_pos r.buffer)))

  take_far :
      r.buf_size - r.head_pos ≤ len
      → take (r.buf_size - r.head_pos) (drop r.head_pos r.buffer)
          ++ take (len - (r.buf_size - r.head_pos)) r.buffer
        ≡ take len (contents r)
  take_far far =
      let cut : length (drop r.head_pos r.buffer) ≡ r.buf_size - r.head_pos =
        omega (arith, v, length-drop r.head_pos r.buffer) in
      sym (
        take-contents r len h
        ∙ take-append_of_ge len (drop r.head_pos r.buffer) r.buffer (omega arith)
        ∙ ap₂ ◌++◌ (sym (take_all (r.buf_size - r.head_pos) _ (omega arith)))
            (ap (λ k. take (len - k) r.buffer) cut))

-- `GetData` on a valid ring copies the oldest `len` bytes when the ring holds as many, and refuses otherwise.
pub get_data_refines :
    {r : Ring} (len : ℕ) → IsValid r → get_data r (pos len) ≡ answer (Fifo.peek (contents r) len)
unfolding get_data Fifo.peek
get_data_refines {r} len v = elim (Bool-cases (ltb (get_data_length r) len)) [
  | inl short ↦ ground (arith, length-contents v)
  | inr enough ↦
      let h : len ≤ get_data_length r = ground arith in
      ground (
        arith,
        length-contents v,
        take_near v len h,
        take_far v len h,
        append-nil (take (r.buf_size - r.head_pos) (drop r.head_pos r.buffer)),
      )
]
