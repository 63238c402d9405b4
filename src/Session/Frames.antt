-- ===== src/Session/Frames.antt =====
-- The packet format of Session.cpp on plain lists of bytes: two bytes of length, which count
-- themselves, and the payload.
use rio_network.Base.{
  ℕ, ◌≤◌, ◌<◌, ◌≡◌, refl, ap, ◌∙◌, Option, none, some, List, [], ◌∷◌, ◌++◌, append_assoc, arith,
  ltb, if◌then◌else◌, length, take, drop, length-append, take-append_of_le, drop-append_of_le,
  take_all, drop_all,
}
use rio_network.Session.Recv.{little_endian}

-- The first packet of a stream and what follows it, once all its bytes are there.
unfoldable pub frame : List ℕ → Option (List ℕ × List ℕ)
frame q =
    if ltb (length q) 2
    then none
    else (if ltb (length q) (little_endian q)
        then none
        else some (take (little_endian q) q, drop (little_endian q) q))

-- The stream `q` is cut into these packets, and `rest` is the start of the next one.
pub data Framed : List ℕ → List (List ℕ) → List ℕ → Type 0 where
  stop : {q : List ℕ} → frame q ≡ none → Framed q [] q
  cut :
      {q q' p rest : List ℕ} {ps : List (List ℕ)}
      → frame q ≡ some (p, q')
      → Framed q' ps rest
      → Framed q (p ∷ ps) rest

-- A packet as a sender builds it: its first two bytes are its length.
pub record IsPacket (p : List ℕ) : Type 0 where
  pub header : little_endian p ≡ length p
  pub enough : 2 ≤ length p

abbrev pub AllPackets : List (List ℕ) → Type 0
AllPackets [] = Unit {0}
AllPackets (p ∷ ps) = IsPacket p × AllPackets ps

abbrev pub concat : List (List ℕ) → List ℕ
concat [] = []
concat (p ∷ ps) = p ++ concat ps

pub little_endian-append : (q r : List ℕ) → 2 ≤ length q → little_endian (q ++ r) ≡ little_endian q
little_endian-append [] r h = absurd (omega arith)
little_endian-append (a ∷ []) r h = absurd (omega arith)
little_endian-append (a ∷ b ∷ q) r h = refl

pub little_endian-take : (q : List ℕ) → 2 ≤ length q → little_endian (take 2 q) ≡ little_endian q
little_endian-take [] h = absurd (omega arith)
little_endian-take (a ∷ []) h = absurd (omega arith)
little_endian-take (a ∷ b ∷ q) h = refl

pub little_endian-lt : (q : List ℕ) → little_endian q < 65536
little_endian-lt [] = omega arith
little_endian-lt (a ∷ []) = omega arith
little_endian-lt (a ∷ b ∷ q) = omega arith

-- More bytes behind a complete packet do not change it.
pub frame-append :
    (q r : List ℕ) {p q' : List ℕ} → frame q ≡ some (p, q') → frame (q ++ r) ≡ some (p, q' ++ r)
unfolding frame
frame-append q r {p} {q'} e = ground (
  arith,
  length-append q r,
  little_endian-append q r,
  take-append_of_le (little_endian q) q r,
  drop-append_of_le (little_endian q) q r,
)

-- A packet at the head of the stream is the first one.
pub frame_packet : (p r : List ℕ) → IsPacket p → frame (p ++ r) ≡ some (p, r)
unfolding frame
frame_packet p r k =
    let whole : little_endian p ≡ length p = k.header in
    ground (
      arith,
      k,
      length-append p r,
      little_endian-append p r k.enough,
      take-append_of_le (little_endian p) p r,
      drop-append_of_le (little_endian p) p r,
      take_all (little_endian p) p,
      drop_all (little_endian p) p,
    )

-- Packets one behind the other, and the start of another, are cut where they were joined.
pub Framed-concat :
    (ps : List (List ℕ)) (rest : List ℕ)
    → AllPackets ps
    → frame rest ≡ none
    → Framed (concat ps ++ rest) ps rest
Framed-concat [] rest h e = stop e
Framed-concat (p ∷ ps) rest h e =
    cut (ap frame (append_assoc p (concat ps) rest) ∙ frame_packet p (concat ps ++ rest) h.0)
      (Framed-concat ps rest h.1 e)

-- A stream may be cut piece by piece: what one piece leaves goes before the next.
pub Framed-append :
    {q rest rest' : List ℕ} {ps ps' : List (List ℕ)} (r : List ℕ)
    → Framed q ps rest
    → Framed (rest ++ r) ps' rest'
    → Framed (q ++ r) (ps ++ ps') rest'
Framed-append r (stop e) d = d
Framed-append {q} r (cut e c) d = cut (frame-append q r e) (Framed-append r c d)
