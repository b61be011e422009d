-- ===== src/Slip/Examples.antt =====
-- The round trip at a concrete packet, and a packet that the decoder changes.
use symex_vp.Common.{◌≡◌, refl, [], ◌∷◌}
use symex_vp.Slip.Codec.{handle_input, receive, encode_byte, write_data, send_packet, reverse_onto}
use symex_vp.Slip.RoundTrip.{is_clean, receive-handle_input}

receive-handle_input_example :
    receive (handle_input (0xc0 ∷ 0xdb ∷ 7 ∷ [])) (record { sndbuf = []; sent = [] })
    ≡ record { sndbuf = []; sent = (0xc0 ∷ 0xdb ∷ 7 ∷ []) ∷ [] }
unfolding is_clean
receive-handle_input_example = receive-handle_input (0xc0 ∷ 0xdb ∷ 7 ∷ []) [] (λ e. cc) refl

-- The packet ESC, ESC_END arrives as END.
escape_twice :
    receive (handle_input (0xdb ∷ 0xdc ∷ [])) (record { sndbuf = []; sent = [] })
    ≡ record { sndbuf = []; sent = (0xc0 ∷ []) ∷ [] }
unfolding receive handle_input encode_byte write_data send_packet reverse_onto
escape_twice = refl
