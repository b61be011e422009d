-- ===== src/Slip/Codec.antt =====
-- Packets on a serial line, as vp/src/platform/common/slip.cpp encodes and decodes them. The buffer of
-- `write_data` is a list with the last byte first, and a packet that is written to the network device
-- joins the list of those that were sent, the last one first; a failing system call is not modelled.
use symex_vp.Common.{ℕ, ◌==◌, ◌&&◌, if◌then◌else◌, List, [], ◌∷◌, ◌++◌}

abbrev pub slip_end : ℕ
slip_end = 0xc0

abbrev pub slip_esc : ℕ
slip_esc = 0xdb

abbrev pub slip_esc_end : ℕ
slip_esc_end = 0xdc

abbrev pub slip_esc_esc : ℕ
slip_esc_esc = 0xdd

-- The bytes that `handle_input` pushes for one byte of a packet, and for a packet.
unfoldable pub encode_byte : ℕ → List ℕ
encode_byte b =
    if b == slip_end
    then slip_esc ∷ slip_esc_end ∷ []
    else (if b == slip_esc then slip_esc ∷ slip_esc_esc ∷ [] else b ∷ [])

unfoldable pub handle_input : List ℕ → List ℕ
handle_input [] = slip_end ∷ []
handle_input (b ∷ packet) = encode_byte b ++ handle_input packet

pub record Slip : Type 0 where
  pub sndbuf : List ℕ
  pub sent : List (List ℕ)

-- The bytes of the buffer in their order.
unfoldable pub reverse_onto : List ℕ → List ℕ → List ℕ
reverse_onto [] ys = ys
reverse_onto (x ∷ xs) ys = reverse_onto xs (x ∷ ys)

unfoldable pub send_packet : Slip → Slip
send_packet s = record { sndbuf = []; sent = reverse_onto s.sndbuf [] ∷ s.sent }

unfoldable pub write_data : ℕ → Slip → Slip
write_data data_byte s = elim s.sndbuf [
  | [] ↦ (if data_byte == slip_end then s else record s { sndbuf = data_byte ∷ [] })
  | last ∷ before ↦
      (if data_byte == slip_end
        then send_packet s
        else (if (last == slip_esc) && (data_byte == slip_esc_end)
            then record s { sndbuf = slip_end ∷ before }
            else (if (last == slip_esc) && (data_byte == slip_esc_esc)
                then record s { sndbuf = slip_esc ∷ before }
                else record s { sndbuf = data_byte ∷ last ∷ before })))
]

-- The bytes of a transmission, one call of `write_data` for each.
unfoldable pub receive : List ℕ → Slip → Slip
receive [] s = s
receive (b ∷ bytes) s = receive bytes (write_data b s)
