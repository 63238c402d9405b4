-- ===== src/Base/Copy.antt =====
-- `memcpy` into a list of bytes, and what cuts of the written list are.
use Prim.Native.Nat.{ℕ, ◌+◌, ◌-◌, ◌≤◌}
use mathlib.Core.Path.{◌≡◌, ap, ◌∙◌}
use mathlib.Core.List.{List, ◌++◌}
use native.Mathlib.Omega.{arith}
use rio_network.Base.Lists.{
  length, take, drop, length-append, length-take, length-drop, take-append_of_le, take-append_of_ge,
  drop-append_of_ge, take-take, drop-drop, take_all,
}

-- `memcpy(buffer + off, bytes, length bytes)`, inside the buffer.
abbrev pub copy_to {ℓ} : {A : Type ℓ} → List A → ℕ → List A → List A
copy_to buffer off bytes = take off buffer ++ (bytes ++ drop (off + length bytes) buffer)

module _ {ℓ} {A : Type ℓ} (buffer : List A) (off : ℕ) (bytes : List A) where
  pub length-copy_to :
      off + length bytes ≤ length buffer → length (copy_to buffer off bytes) ≡ length buffer
  length-copy_to h = omega (
    arith,
    length-append (take off buffer) (bytes ++ drop (off + length bytes) buffer),
    length-append bytes (drop (off + length bytes) buffer),
    length-take off buffer,
    length-drop (off + length bytes) buffer,
  )

  -- What stands before the write is unchanged.
  pub take-copy_to_of_le :
      (k : ℕ) → k ≤ off → off ≤ length buffer → take k (copy_to buffer off bytes) ≡ take k buffer
  take-copy_to_of_le k h l =
      take-append_of_le k (take off buffer) _ (omega (arith, length-take off buffer))
      ∙ take-take k off buffer h

  -- What stands behind it is unchanged.
  pub drop-copy_to_of_ge :
      (k : ℕ)
      → off + length bytes ≤ k
      → off ≤ length buffer
      → drop k (copy_to buffer off bytes) ≡ drop k buffer
  drop-copy_to_of_ge k h l =
      let cut : length (take off buffer) ≡ off = omega (arith, length-take off buffer) in
      drop-append_of_ge k (take off buffer) _ (omega arith)
      ∙ ap (λ n. drop (k - n) (bytes ++ drop (off + length bytes) buffer)) cut
      ∙ drop-append_of_ge (k - off) bytes _ (omega arith)
      ∙ drop-drop (k - off - length bytes) (off + length bytes) buffer
      ∙ ap (λ n. drop n buffer) {x = off + length bytes + (k - off - length bytes)} (omega arith)

  -- The write itself ends what stands before it.
  pub take-copy_to_end :
      off ≤ length buffer
      → take (off + length bytes) (copy_to buffer off bytes) ≡ take off buffer ++ bytes
  take-copy_to_end l =
      let cut : length (take off buffer) ≡ off = omega (arith, length-take off buffer) in
      take-append_of_ge (off + length bytes) (take off buffer) _ (omega arith)
      ∙ ap (λ n. take off buffer ++ take (off + length bytes - n) (bytes ++ rest)) cut
      ∙ ap (λ n. take off buffer ++ n)
          (take-append_of_le (off + length bytes - off) bytes rest (omega arith)
            ∙ take_all (off + length bytes - off) bytes (omega arith))
    where
      rest : List A
      rest = drop (off + length bytes) buffer
