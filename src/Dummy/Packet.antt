-- ===== src/Dummy/Packet.antt =====
-- NetLibExample/Packet/Packet.h: the packed structs as bytes, in the order of a little-endian machine.
-- A `char` and an `int` are their bit patterns.
use rio_network.Base.{
  ℕ, ◌+◌, ◌*◌, ◌/◌, ◌%◌, ◌^◌, ◌<◌, ◌≡◌, ap, ap₂, ◌∙◌, List, [], ◌∷◌, ◌++◌, arith, length, take,
  drop, length-append, take-append_of_le, drop-append_of_ge, take_all, append_assoc, ◌-◌,
}
use rio_network.Session.Frames.{IsPacket}

abbrev pub id_ask_chat_msg : ℕ
id_ask_chat_msg = 1

abbrev pub id_ans_chat_msg : ℕ
id_ans_chat_msg = 2

abbrev pub id_ans_chat_msg1 : ℕ
id_ans_chat_msg1 = 3

-- `std::size(m_Msg)`, and the size of each of the three structs
abbrev pub message_size : ℕ
message_size = 100

abbrev pub sizeof_chat_msg : ℕ
sizeof_chat_msg = 107

-- The members of `ask_chat_msg`, `ans_chat_msg` and `ans_chat_msg1` behind the header.
pub record ChatMsg : Type 0 where
  pub message : List ℕ
  pub no : ℕ

abbrev pub chat_msg : List ℕ → ℕ → ChatMsg
chat_msg text n = record { message = text; no = n }

abbrev pub int_bytes : ℕ → List ℕ
int_bytes n = n % 256 ∷ n / 256 % 256 ∷ n / 65536 % 256 ∷ n / 16777216 % 256 ∷ []

abbrev pub bytes_int : List ℕ → ℕ
bytes_int (a ∷ b ∷ c ∷ d ∷ _) = a + 256 * b + 65536 * c + 16777216 * d
bytes_int _ = 0

-- A struct with this id, as its constructor and the sender fill it.
unfoldable pub encode : ℕ → ChatMsg → List ℕ
encode id m = sizeof_chat_msg % 256 ∷ sizeof_chat_msg / 256 ∷ id ∷ (m.message ++ int_bytes m.no)

-- `((Packet*)Data)->ID`
abbrev pub packet_id : List ℕ → ℕ
packet_id (_ ∷ _ ∷ id ∷ _) = id
packet_id _ = 0

-- The members as a `reinterpret_cast` of the bytes from the packet on reads them.
unfoldable pub decode : List ℕ → ChatMsg
decode bytes = record {
  message = take message_size (drop 3 bytes);
  no = bytes_int (drop (3 + message_size) bytes);
}

-- A message of 100 bytes, and a number of 32 bits.
pub record IsChatMsg (m : ChatMsg) : Type 0 where
  pub full : length m.message ≡ 100
  pub small : m.no < 2 ^ 32

bytes_int-int_bytes : (n : ℕ) (rest : List ℕ) → n < 2 ^ 32 → bytes_int (int_bytes n ++ rest) ≡ n
bytes_int-int_bytes n rest h = omega arith

-- A struct that was sent is read back, whatever stands behind it in memory.
pub decode-encode :
    (id : ℕ) (m : ChatMsg) (behind : List ℕ) → IsChatMsg m → decode (encode id m ++ behind) ≡ m
unfolding encode decode
decode-encode id m behind k =
    let rest = int_bytes m.no ++ behind in
    let none_left : 100 - length m.message ≡ 0 = omega (arith, k.full) in
    ap₂ chat_msg
      (ap (take 100) (append_assoc m.message (int_bytes m.no) behind)
        ∙ take-append_of_le 100 m.message rest (omega (arith, k.full))
        ∙ take_all 100 m.message (omega (arith, k.full)))
      (ap (λ l. bytes_int (drop 100 l)) (append_assoc m.message (int_bytes m.no) behind)
        ∙ ap bytes_int (drop-append_of_ge 100 m.message rest (omega (arith, k.full)))
        ∙ ap (λ x. bytes_int (drop x rest)) none_left
        ∙ bytes_int-int_bytes m.no behind k.small)

pub encode-IsPacket : (id : ℕ) (m : ChatMsg) → IsChatMsg m → IsPacket (encode id m)
unfolding encode
encode-IsPacket id m k = record {
  header = omega (arith, length-append m.message (int_bytes m.no), k.full);
  enough = omega arith;
}
