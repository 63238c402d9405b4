-- ===== src/Ring/Put.antt =====
-- `PutData` of Buffer.h against the list of bytes: the three ways in which it lays the bytes out.
use rio_network.Base.{
  ℕ, ◌+◌, ◌-◌, ◌≤◌, ◌<◌, ◌≡◌, refl, sym, ap, ap₂, subst, ◌∙◌, zero, suc, inl, inr, true, false,
  List, ◌++◌, append_assoc, arith, ◌==◌, if◌then◌else◌, Bool-cases, pos, length, take, drop,
  length-take, length-drop, drop-append_of_le, take-append-drop, drop-take, take_all, take-take,
  leb, copy_to, length-copy_to, drop-copy_to_of_ge, take-copy_to_end,
}
use rio_network.Fifo
use rio_network.Ring.{Ring, can_put_data, check_split, get_data_length, store, put_data}
use rio_network.Ring.Contents.{
  IsValid, contents, length_flat, length_split, contents_flat, contents_split, length-contents,
  data_length_bound,
}

-- What `PutData` leaves: a valid ring of the same size, with the bytes behind the others.
abbrev Appends : Ring → List ℕ → Ring → Type 0
Appends r bytes r' = IsValid r' × (contents r' ≡ contents r ++ bytes) × (r'.buf_size ≡ r.buf_size)

-- The bytes fit behind the tail.
abbrev plain : Ring → List ℕ → Ring
plain r bytes = record r {
  buffer = copy_to r.buffer r.tail_pos bytes;
  tail_pos = r.tail_pos + length bytes;
}

-- The data goes on at the start of the memory: `bytes` up to its end, and `rest` from its start.
abbrev wrapped : Ring → List ℕ → List ℕ → Ring
wrapped r bytes rest = record r {
  buffer = copy_to (copy_to r.buffer r.tail_pos bytes) 0 rest;
  tail_pos = length rest;
}

module _ {r : Ring} (bytes : List ℕ) (v : IsValid r) where
  -- The data from the head to the end of what was written, where the old data is in one piece.
  run-copy_to :
      r.head_pos ≤ r.tail_pos
      → drop r.head_pos (take (r.tail_pos + length bytes) (copy_to r.buffer r.tail_pos bytes))
        ≡ contents r ++ bytes
  run-copy_to h =
      ap (drop r.head_pos) (take-copy_to_end r.buffer r.tail_pos bytes (omega (arith, v)))
      ∙ drop-append_of_le r.head_pos (take r.tail_pos r.buffer) bytes
          (omega (arith, v, length-take r.tail_pos r.buffer))
      ∙ ap (λ q. q ++ bytes) (drop-take r.head_pos r.tail_pos r.buffer ∙ sym (contents_flat v h))

  plain-IsValid : r.tail_pos + length bytes < r.buf_size → IsValid (plain r bytes)
  plain-IsValid fits =
      let kept : length (copy_to r.buffer r.tail_pos bytes) ≡ length r.buffer =
        length-copy_to r.buffer r.tail_pos bytes (omega (arith, v)) in
      record { memory = kept ∙ v.memory; small = v.small; head_in = v.head_in; tail_in = fits }

  plain_flat :
      r.tail_pos + length bytes < r.buf_size
      → r.head_pos ≤ r.tail_pos
      → Appends r bytes (plain r bytes)
  plain_flat fits h = (
    plain-IsValid fits,
    contents_flat (plain-IsValid fits) (omega arith)
        ∙ sym (drop-take r.head_pos (r.tail_pos + length bytes) (plain r bytes).buffer)
        ∙ run-copy_to h,
    refl,
  )

  plain_split : r.tail_pos + length bytes < r.head_pos → Appends r bytes (plain r bytes)
  plain_split fits =
      let valid : IsValid (plain r bytes) = plain-IsValid (omega (arith, v)) in
      (
        valid,
        contents_split valid fits
            ∙ ap₂ ◌++◌
                (drop-copy_to_of_ge r.buffer r.tail_pos bytes r.head_pos (omega arith)
                  (omega (arith, v)))
                (take-copy_to_end r.buffer r.tail_pos bytes (omega (arith, v)))
            ∙ sym (append_assoc (drop r.head_pos r.buffer) (take r.tail_pos r.buffer) bytes)
            ∙ ap (λ q. q ++ bytes) (sym (contents_split v (omega arith))),
        refl,
      )

module _ {r : Ring} (bytes rest : List ℕ) (v : IsValid r) where
  wrapped-Appends :
      r.tail_pos + length bytes ≡ r.buf_size
      → r.head_pos ≤ r.tail_pos
      → length rest < r.head_pos
      → Appends r (bytes ++ rest) (wrapped r bytes rest)
  wrapped-Appends full h short =
      let first = copy_to r.buffer r.tail_pos bytes in
      let kept : length first ≡ length r.buffer =
        length-copy_to r.buffer r.tail_pos bytes (omega (arith, v)) in
      let valid : IsValid (wrapped r bytes rest) = record {
        memory = length-copy_to first 0 rest (omega (arith, v)) ∙ kept ∙ v.memory;
        small = v.small;
        head_in = v.head_in;
        tail_in = omega (arith, v);
      } in
      (
        valid,
        contents_split valid short
            ∙ ap₂ ◌++◌
                (drop-copy_to_of_ge first 0 rest r.head_pos (omega arith) (omega arith)
                  ∙ ap (drop r.head_pos)
                      (sym (take_all (r.tail_pos + length bytes) first (omega (arith, v))))
                  ∙ run-copy_to bytes v h)
                (ap (λ k. take k (copy_to first 0 rest)) {x = length rest} (omega arith)
                  ∙ take-copy_to_end first 0 rest (omega arith))
            ∙ append_assoc (contents r) bytes rest,
        refl,
      )

take-take-drop :
    (m n : ℕ) (bytes : List ℕ) → m ≤ n → take m bytes ++ take (n - m) (drop m bytes) ≡ take n bytes
take-take-drop m n bytes h =
    ap₂ ◌++◌ (sym (take-take m n bytes h)) (sym (drop-take m n bytes))
    ∙ take-append-drop m (take n bytes)

-- Where nothing is left for the second copy, the code skips it: that makes no difference.
second_copy :
    (r : Ring) (first bytes : List ℕ) (n : ℕ)
    → n ≤ length bytes
    → (if n == 0
        then record r { buffer = first; tail_pos = 0 }
        else record r { buffer = copy_to first 0 (take n bytes); tail_pos = n })
      ≡ record r { buffer = copy_to first 0 (take n bytes); tail_pos = length (take n bytes) }
second_copy r first bytes zero h = refl
second_copy r first bytes (suc n) h =
    let some_left : (suc n == 0) ≡ false = ground arith in
    rw some_left (
      ap (λ k. record r { buffer = copy_to first 0 (take (suc n) bytes); tail_pos = k }) {x = suc n}
        (omega (arith, length-take (suc n) bytes)))

module _ {r : Ring} (bytes : List ℕ) (len : ℕ) (v : IsValid r) (enough : len ≤ length bytes) where
  store-plain : check_split r len ≡ false → store r bytes len ≡ plain r (take len bytes)
  unfolding store
  store-plain within = rw within (
      ap
        (λ k. record r {
          buffer = copy_to r.buffer r.tail_pos (take len bytes);
          tail_pos = r.tail_pos + k;
        })
        {x = len} (omega (arith, length-take len bytes)))

  abbrev first_part : List ℕ
  first_part = take (r.buf_size - r.tail_pos) bytes

  abbrev second_part : List ℕ
  second_part = take (len - (r.buf_size - r.tail_pos)) (drop (r.buf_size - r.tail_pos) bytes)

  store-wrapped : check_split r len ≡ true → store r bytes len ≡ wrapped r first_part second_part
  unfolding store
  store-wrapped over = rw over (
      second_copy r (copy_to r.buffer r.tail_pos first_part) (drop (r.buf_size - r.tail_pos) bytes)
        (len - (r.buf_size - r.tail_pos))
        (omega (arith, length-drop (r.buf_size - r.tail_pos) bytes)))

  -- Behind its guards `PutData` appends the first `len` bytes.
  store-Appends :
      get_data_length r + len < r.buf_size → Appends r (take len bytes) (store r bytes len)
  unfolding check_split
  store-Appends fits = elim (Bool-cases (check_split r len)) [
    | inl over ↦
        let cut : r.head_pos ≤ r.tail_pos = grind (arith, length_split r, v) in
        let held : get_data_length r ≡ r.tail_pos - r.head_pos = length_flat r cut in
        subst (Appends r (take len bytes)) (sym (store-wrapped over)) (
          subst (λ q. Appends r q (wrapped r first_part second_part))
            (take-take-drop (r.buf_size - r.tail_pos) len bytes (ground (arith, v)))
            (wrapped-Appends first_part second_part v
              (ground (arith, v, length-take (r.buf_size - r.tail_pos) bytes)) cut
              (ground (
                arith,
                v,
                held,
                length-take (len - (r.buf_size - r.tail_pos))
                    (drop (r.buf_size - r.tail_pos) bytes),
              ))))
    | inr within ↦
        subst (Appends r (take len bytes)) (sym (store-plain within))
          (elim (Bool-cases (leb r.head_pos r.tail_pos)) [
            | inl flat ↦
                plain_flat (take len bytes) v (ground (arith, length-take len bytes)) (ground arith)
            | inr split ↦
                plain_split (take len bytes) v
                  (ground (arith, length-take len bytes, length_split r))
          ])
  ]

-- `PutData` of no more bytes than the caller has, on a valid ring, refines the list of bytes: it appends the `len` bytes exactly when they leave the ring
-- short of its size, changes nothing otherwise, and keeps the invariant and the size.
pub put_data_refines :
    {r : Ring} (bytes : List ℕ) (len : ℕ)
    → IsValid r
    → len ≤ length bytes
    → let (r', done) = put_data r bytes (pos len) in
      IsValid r'
      × ((contents r', done) ≡ Fifo.put r.buf_size (contents r) (take len bytes))
      × (r'.buf_size ≡ r.buf_size)
unfolding put_data can_put_data Fifo.put
put_data_refines {r} bytes len v enough = ground (
  arith,
  length-contents v,
  length-take len bytes,
  data_length_bound v,
  store-Appends bytes len v enough,
)
