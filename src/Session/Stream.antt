-- ===== src/Session/Stream.antt =====
-- The receiving side of Session.cpp as a whole: a stream comes in pieces, as the network hands
-- them over, and each is processed.
use rio_network.Base.{
  ℕ, ◌+◌, ◌^◌, ◌≤◌, ◌<◌, ◌≡◌, refl, sym, ap, ap₂, ◌∙◌, Option, none, some, List, [], ◌∷◌, ◌++◌,
  append_assoc, append-nil, arith, length, subst, length-append, take_all, inl, inr, Option-cases,
}
use rio_network.Fifo
use rio_network.Ring.Contents.{IsValid, contents}
use rio_network.Ring.Put.{put_data_refines}
use rio_network.Session.{Session}
use rio_network.Session.Recv.{completed_recv}
use rio_network.Session.Process.{Callback, finish, process_completion}
use rio_network.Session.Frames.{frame, frame-append, Framed, stop, cut, concat, little_endian-lt}
use rio_network.Session.Untouched.{delivered, finish_lem}
use rio_network.Session.Deliver.{Returns, drain-Delivers}

-- Each piece of the stream completes one receive, and one round of processing follows it.
unfoldable pub receive_all :
    (Session → List ℕ → Callback) → ℕ → List (List ℕ) → Session → Option Session
receive_all on_dispatch fuel [] s = some s
receive_all on_dispatch fuel (c ∷ cs) s =
    elim (process_completion on_dispatch fuel (completed_recv (length c) c s)) [
      | none ↦ none
      | some s' ↦ receive_all on_dispatch fuel cs s'
    ]

-- No piece is empty, and none is longer than `n` bytes.
abbrev pub Pieces : ℕ → List (List ℕ) → Type 0
Pieces n [] = Unit {0}
Pieces n (c ∷ cs) = (0 < length c) × (length c ≤ n) × Pieces n cs

-- What is left of a stream holds no whole packet, so it is shorter than the longest one.
pub frame-none-length : (q : List ℕ) → frame q ≡ none → length q < 65535
unfolding frame
frame-none-length q e = ground (arith, little_endian-lt q)

pub Framed-rest : {q rest : List ℕ} {ps : List (List ℕ)} → Framed q ps rest → frame rest ≡ none
Framed-rest (stop e) = e
Framed-rest (cut e f) = Framed-rest f

-- The cut of a stream, taken apart at the end of a piece.
abbrev pub Parts : List ℕ → List ℕ → List (List ℕ) → List ℕ → Type 0
Parts q r ps rest =
    (ps' : List (List ℕ)) × (ps'' : List (List ℕ)) × (mid : List ℕ) × Framed q ps' mid
    × Framed (mid ++ r) ps'' rest
    × (ps ≡ ps' ++ ps'')

pub Framed-Parts :
    {t rest : List ℕ} {ps : List (List ℕ)} (q r : List ℕ)
    → Framed t ps rest
    → t ≡ q ++ r
    → Parts q r ps rest
Framed-Parts {t} q r (stop e) same = elim (Option-cases (frame q)) [
  | inl none_yet ↦ ([], [], q, stop none_yet, subst (λ x. Framed x [] t) same (stop e), refl)
  | inr ((p, q'), whole) ↦ absurd (cc (frame-append q r whole, same))
]
Framed-Parts {rest = rest} q r (cut {p = p} {ps = ps} e f) same = elim (Option-cases (frame q)) [
  | inl none_yet ↦
      ([], p ∷ ps, q, stop none_yet, subst (λ x. Framed x (p ∷ ps) rest) same (cut e f), refl)
  | inr ((p', q'), whole) ↦
      let (ps', ps'', mid, first, second, split) =
        Framed-Parts q' r f (cc (frame-append q r whole, same, e)) in
      (
        p' ∷ ps',
        ps'',
        mid,
        cut whole first,
        second,
        ap₂ ◌∷◌ (cc (frame-append q r whole, same, e)) split,
      )
]

-- A stream with no whole packet is not cut.
pub nothing_to_cut :
    {q rest : List ℕ} {ps : List (List ℕ)}
    → frame q ≡ none
    → Framed q ps rest
    → (ps ≡ []) × (q ≡ rest)
nothing_to_cut e (stop e') = (refl, refl)
nothing_to_cut e (cut e' f) = absurd (cc)

module _ (s : Session) (c : List ℕ) (v : IsValid s.recv_buffer) where
  -- A receive that fits goes behind what is there.
  pub completed_recv_lem :
      0 < length c
      → length c < 2 ^ 31
      → length (contents s.recv_buffer) + length c < s.recv_buffer.buf_size
      → let s' = completed_recv (length c) c s in
        IsValid s'.recv_buffer
        × (contents s'.recv_buffer ≡ contents s.recv_buffer ++ c)
        × (s'.recv_buffer.buf_size ≡ s.recv_buffer.buf_size)
        × (delivered s'.out ≡ delivered s.out)
  unfolding completed_recv Fifo.put
  completed_recv_lem some_bytes small fits =
      let (valid, e, same) = put_data_refines c (length c) v (omega arith) in
      ground (arith, valid, e, same, take_all (length c) c)

module _ (on_dispatch : Session → List ℕ → Callback) (returns : Returns on_dispatch) where
  -- One receive and its processing.
  one_piece :
      (fuel : ℕ) (s : Session) (c : List ℕ) {ps : List (List ℕ)} {mid : List ℕ}
      → IsValid s.recv_buffer
      → 0 < length c
      → length c < 2 ^ 31
      → length (contents s.recv_buffer) + length c < s.recv_buffer.buf_size
      → Framed (contents s.recv_buffer ++ c) ps mid
      → length ps < fuel
      → (s' : Session) × (process_completion on_dispatch fuel (completed_recv (length c) c s)
          ≡ some s')
        × IsValid s'.recv_buffer
        × (contents s'.recv_buffer ≡ mid)
        × (s'.recv_buffer.buf_size ≡ s.recv_buffer.buf_size)
        × (delivered s'.out ≡ delivered s.out ++ ps)
  unfolding process_completion
  one_piece fuel s c {ps} {mid} v some_bytes small fits f enough =
      let (valid, held, same, quiet) = completed_recv_lem s c v some_bytes small fits in
      let (d, ran, k) =
        drain-Delivers on_dispatch returns f fuel 0 (completed_recv (length c) c s) enough valid
          held in
      let (kept, out) = finish_lem d k.no_error in
      (
        finish d,
        rw (ran, process_completion) refl,
        subst IsValid (sym kept) k.valid,
        ap contents kept ∙ k.left,
        ap (λ x. x.buf_size) kept ∙ k.same_size ∙ same,
        out ∙ k.packets ∙ ap (λ x. x ++ ps) quiet,
      )

  -- A stream that arrives in any non-empty pieces of at most `n` bytes, each processed before the
  -- next one comes, is delivered as the packets that the whole stream holds, each once and in
  -- order; what is left is the start of the next packet. Here the receive buffer is empty or holds
  -- the start of a packet, and has room for the longest packet and a piece; the callback does not
  -- throw, and the loop may take one round more than there are packets.
  pub stream_delivers :
      (fuel n : ℕ) (pieces : List (List ℕ)) (s : Session) {ps : List (List ℕ)} {rest : List ℕ}
      → IsValid s.recv_buffer
      → 65535 + n ≤ s.recv_buffer.buf_size
      → frame (contents s.recv_buffer) ≡ none
      → Pieces n pieces
      → Framed (contents s.recv_buffer ++ concat pieces) ps rest
      → length ps < fuel
      → (s' : Session) × (receive_all on_dispatch fuel pieces s ≡ some s')
        × (delivered s'.out ≡ delivered s.out ++ ps)
        × (contents s'.recv_buffer ≡ rest)
  unfolding receive_all
  stream_delivers fuel n [] s {ps} {rest} v large partial small f enough =
      let (none_left, left) =
        nothing_to_cut partial (subst (λ x. Framed x ps rest) (append-nil _) f) in
      (s, refl, sym (ap (λ x. delivered s.out ++ x) none_left ∙ append-nil _), left)
  stream_delivers fuel n (c ∷ cs) s {ps} {rest} v large partial small f enough =
      let (ps', ps'', mid, first, others, split) =
        Framed-Parts (contents s.recv_buffer ++ c) (concat cs) f
          (sym (append_assoc (contents s.recv_buffer) c (concat cs))) in
      let total = ap length split ∙ length-append ps' ps'' in
      let (s', ran, valid, held, same, quiet) =
        one_piece fuel s c v small.0 (omega (arith, v, small, large))
          (omega (arith, small, large, frame-none-length (contents s.recv_buffer) partial)) first
          (omega (arith, total, enough)) in
      let (s'', ran', quiet', left) =
        stream_delivers fuel n cs s' valid (omega (arith, same, large))
          (ap frame held ∙ Framed-rest first) small.2
          (subst (λ x. Framed (x ++ concat cs) ps'' rest) (sym held) others)
          (omega (arith, total, enough)) in
      (
        s'',
        rw (ran, receive_all) ran',
        quiet'
            ∙ ap (λ x. x ++ ps'') quiet
            ∙ append_assoc (delivered s.out) ps' ps''
            ∙ ap (λ x. delivered s.out ++ x) (sym split),
        left,
      )
