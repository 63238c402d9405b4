-- ===== src/Session/Deliver.antt =====
-- The packet loop of Session.cpp, `UnmarshallRaw` and `OnDispatch` until no packet is complete,
-- against the packets of the received stream.
use rio_network.Base.{
  ℕ, zero, suc, ◌+◌, ◌<◌, ◌≡◌, refl, sym, ap, ◌∙◌, false, none, some, List, [], ◌∷◌, ◌++◌,
  append_assoc, append-nil, arith, length, subst,
}
use rio_network.Ring.{Ring}
use rio_network.Ring.Contents.{IsValid, contents}
use rio_network.Session.{Session, dispatched}
use rio_network.Session.Recv.{nothing, packet, unmarshall}
use rio_network.Session.Process.{Callback, Drained, dispatch, drain}
use rio_network.Session.Untouched.{delivered, perform_all-Untouched}
use rio_network.Session.Frames.{frame, Framed, stop, cut}
use rio_network.Session.Unmarshall.{unmarshall_lem, Cuts}

-- The callback never ends by an exception.
abbrev pub Returns : (Session → List ℕ → Callback) → Type 0
Returns on_dispatch = (s : Session) (p : List ℕ) → (on_dispatch s p).throws ≡ false

-- A header of length 0 is a complete packet of no bytes.
frame_empty : (q : List ℕ) → frame (0 ∷ 0 ∷ q) ≡ some ([], 0 ∷ 0 ∷ q)
unfolding frame
frame_empty q = ground arith

-- What the loop leaves of a session whose stream held the packets `ps` and then `rest`.
pub record Delivers (s : Session) (count : ℕ) (ps : List (List ℕ)) (rest : List ℕ) (d : Drained)
    : Type 0 where
  pub no_error : d.has_error ≡ false
  pub counted : d.count ≡ count + length ps
  pub packets : delivered d.session.out ≡ delivered s.out ++ ps
  pub left : contents d.session.recv_buffer ≡ rest
  pub valid : IsValid d.session.recv_buffer
  pub same_size : d.session.recv_buffer.buf_size ≡ s.recv_buffer.buf_size

module _ (on_dispatch : Session → List ℕ → Callback) (returns : Returns on_dispatch) where
  pub drain-stop :
      (fuel count : ℕ) (s : Session)
      → unmarshall s.recv_buffer ≡ nothing
      → drain on_dispatch (suc fuel) count s
        ≡ some (record { session = s; has_error = false; count = count })
  unfolding drain
  drain-stop fuel count s e = rw (e, drain)

  drain-zero : (count : ℕ) (s : Session) → drain on_dispatch 0 count s ≡ none
  unfolding drain
  drain-zero count s = refl

  pub drain-cut :
      (fuel count : ℕ) (s : Session) {p : List ℕ} {ring : Ring}
      → unmarshall s.recv_buffer ≡ packet p ring
      → drain on_dispatch (suc fuel) count s
        ≡ drain on_dispatch fuel
            (count + 1)
            (dispatch on_dispatch p (record s { recv_buffer = ring })).0
  unfolding drain dispatch
  drain-cut fuel count s {p} {ring} e =
      rw (e, drain, returns (record s { recv_buffer = ring; out = dispatched p ∷ s.out }) p)

  pub dispatch_lem :
      (p : List ℕ) (s : Session)
      → let s' = (dispatch on_dispatch p s).0 in
        (s'.recv_buffer ≡ s.recv_buffer) × (delivered s'.out ≡ delivered s.out ++ (p ∷ []))
  unfolding dispatch
  dispatch_lem p s =
      let u = perform_all-Untouched _ (record s { out = dispatched p ∷ s.out }) in
      (u.buffer, u.packets)

  -- Of a valid receive buffer that holds the packets `ps` and the start `rest` of another, the
  -- loop ends within one round more than there are packets, has dispatched exactly those packets
  -- in their order, and leaves exactly `rest`, whatever the callback sends, flushes or disconnects. The
  -- callback does not throw, and it does not call `ProcessPacket` itself.
  pub drain-Delivers :
      {q rest : List ℕ} {ps : List (List ℕ)}
      → Framed q ps rest
      → (fuel count : ℕ) (s : Session) → length ps < fuel
      → IsValid s.recv_buffer
      → contents s.recv_buffer ≡ q
      → (d : Drained) × (drain on_dispatch fuel count s ≡ some d) × Delivers s count ps rest d
  drain-Delivers f zero count s h v e = absurd (omega arith)
  drain-Delivers (stop no_packet) (suc fuel) count s h v e =
      let u =
        subst (λ o. Cuts s.recv_buffer o (unmarshall s.recv_buffer)) (ap frame e ∙ no_packet)
          (unmarshall_lem v) in
      (
        record { session = s; has_error = false; count = count },
        drain-stop fuel count s u,
        record {
          no_error = refl;
          counted = omega arith;
          packets = sym (append-nil (delivered s.out));
          left = e;
          valid = v;
          same_size = refl;
        },
      )
  drain-Delivers (cut {p = p} {ps = ps} first others) (suc fuel) count s h v e =
      let (ring, eq, valid, held, same) =
        subst (λ o. Cuts s.recv_buffer o (unmarshall s.recv_buffer)) (ap frame e ∙ first)
          (unmarshall_lem v) in
      let s' = (dispatch on_dispatch p (record s { recv_buffer = ring })).0 in
      let (kept, more) = dispatch_lem p (record s { recv_buffer = ring }) in
      let (d, ran, k) =
        drain-Delivers others fuel (count + 1) s' (omega arith) (subst IsValid (sym kept) valid)
          (ap contents kept ∙ held) in
      (
        d,
        drain-cut fuel count s eq ∙ ran,
        record {
          no_error = k.no_error;
          counted = omega (arith, k.counted);
          packets = k.packets ∙ ap (λ x. x ++ ps) more ∙ append_assoc (delivered s.out) (p ∷ []) ps;
          left = k.left;
          valid = k.valid;
          same_size = k.same_size ∙ ap (λ r. r.buf_size) kept ∙ same;
        },
      )

  -- With a header of length 0 at the head of a valid receive buffer, and a callback that does not
  -- throw, the loop has not ended after any number of rounds.
  pub drain_empty_packet :
      (q : List ℕ) (fuel count : ℕ) (s : Session)
      → IsValid s.recv_buffer
      → contents s.recv_buffer ≡ 0 ∷ 0 ∷ q
      → drain on_dispatch fuel count s ≡ none
  drain_empty_packet q zero count s v e = drain-zero count s
  drain_empty_packet q (suc fuel) count s v e =
      let (ring, eq, valid, held, same) =
        subst (λ o. Cuts s.recv_buffer o (unmarshall s.recv_buffer)) (ap frame e ∙ frame_empty q)
          (unmarshall_lem v) in
      let (kept, more) = dispatch_lem [] (record s { recv_buffer = ring }) in
      drain-cut fuel count s eq
      ∙ drain_empty_packet q fuel (count + 1) _ (subst IsValid (sym kept) valid)
          (ap contents kept ∙ held)
