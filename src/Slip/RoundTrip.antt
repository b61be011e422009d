-- ===== src/Slip/RoundTrip.antt =====
-- What the decoder makes of an encoded packet.
use symex_vp.Common.{
  ℕ, ◌≡◌, refl, sym, ap, ◌∙◌, Bool, true, false, not, ◌==◌, ◌&&◌, ◌||◌, if_cases, List, [], ◌∷◌,
  ◌++◌, arith, ==→eq, ◌≢◌,
}
use symex_vp.Slip.Codec.{
  slip_end, slip_esc, slip_esc_end, slip_esc_esc, encode_byte, handle_input, Slip, reverse_onto,
  send_packet, write_data, receive,
}

-- The byte would be taken for the second half of an escape: it follows an `ESC` of the packet.
abbrev pub clash : List ℕ → ℕ → Bool
clash [] b = false
clash (last ∷ before) b = (last == slip_esc) && ((b == slip_esc_end) || (b == slip_esc_esc))

-- No byte of the packet clashes with the byte before it.
unfoldable pub is_clean : List ℕ → List ℕ → Bool
is_clean before [] = true
is_clean before (b ∷ packet) = not (clash before b) && is_clean (b ∷ before) packet

reverse_onto_twice : (xs acc : List ℕ) → reverse_onto (reverse_onto xs acc) [] ≡ reverse_onto acc xs
unfolding reverse_onto
reverse_onto_twice [] acc = refl
reverse_onto_twice (x ∷ xs) acc = reverse_onto_twice xs (x ∷ acc)

receive-append : (xs ys : List ℕ) (s : Slip) → receive (xs ++ ys) s ≡ receive ys (receive xs s)
unfolding receive
receive-append [] ys s = refl
receive-append (x ∷ xs) ys s = receive-append xs ys (write_data x s)

abbrev state : List ℕ → List (List ℕ) → Slip
state buf sent = record { sndbuf = buf; sent = sent }

abbrev Becomes : Slip → Slip → Type 0
Becomes t s = s ≡ t

write-push :
    (x : ℕ) (buf : List ℕ) (sent : List (List ℕ))
    → (x == slip_end) ≡ false
    → clash buf x ≡ false
    → write_data x (state buf sent) ≡ state (x ∷ buf) sent
unfolding write_data
write-push x [] sent e h =
    if_cases (Becomes (state (x ∷ []) sent)) (x == slip_end) _ _
      (λ e'. absurd (ground (arith, e, e'))) (λ _. refl)
write-push x (last ∷ before) sent e h =
    if_cases (Becomes (state (x ∷ last ∷ before) sent)) (x == slip_end) _ _
      (λ e'. absurd (ground (arith, e, e')))
      (λ _.
        if_cases (Becomes (state (x ∷ last ∷ before) sent))
          ((last == slip_esc) && (x == slip_esc_end)) _ _ (λ c. absurd (ground (arith, c, h)))
          (λ _.
            if_cases (Becomes (state (x ∷ last ∷ before) sent))
              ((last == slip_esc) && (x == slip_esc_esc)) _ _ (λ c. absurd (ground (arith, c, h)))
              (λ _. refl)))

clash_esc : (buf : List ℕ) → clash buf slip_esc ≡ false
clash_esc [] = refl
clash_esc (last ∷ before) = ground arith

-- The encoding of a byte that does not clash adds the byte to the buffer.
receive-encode_byte :
    (b : ℕ) (buf : List ℕ) (sent : List (List ℕ))
    → clash buf b ≡ false
    → receive (encode_byte b) (record { sndbuf = buf; sent = sent })
      ≡ record { sndbuf = b ∷ buf; sent = sent }
unfolding receive encode_byte write_data
receive-encode_byte b buf sent h =
    if_cases (λ bytes. receive bytes (state buf sent) ≡ state (b ∷ buf) sent) (b == slip_end) _ _
      (λ e.
        ap (write_data slip_esc_end) (write-push slip_esc buf sent refl (clash_esc buf))
        ∙ ap (λ x. state (x ∷ buf) sent) (sym (==→eq b slip_end e)))
      (λ no_end.
        if_cases (λ bytes. receive bytes (state buf sent) ≡ state (b ∷ buf) sent) (b == slip_esc) _
          _
          (λ e.
            ap (write_data slip_esc_esc) (write-push slip_esc buf sent refl (clash_esc buf))
            ∙ ap (λ x. state (x ∷ buf) sent) (sym (==→eq b slip_esc e)))
          (λ _. write-push b buf sent no_end h))

receive_packet :
    (packet buf : List ℕ) (sent : List (List ℕ))
    → is_clean buf packet ≡ true
    → receive (handle_input packet) (state buf sent)
      ≡ write_data slip_end (state (reverse_onto packet buf) sent)
unfolding receive handle_input is_clean reverse_onto
receive_packet [] buf sent h = refl
receive_packet (b ∷ packet) buf sent h =
    receive-append (encode_byte b) (handle_input packet) (state buf sent)
    ∙ ap (receive (handle_input packet)) (receive-encode_byte b buf sent (ground (arith, h)))
    ∙ receive_packet packet (b ∷ buf) sent (ground (arith, h))

ended_lem :
    (packet : List ℕ) (buf : List ℕ) (sent : List (List ℕ))
    → reverse_onto buf [] ≡ packet
    → packet ≢ []
    → write_data slip_end (state buf sent) ≡ state [] (packet ∷ sent)
unfolding write_data send_packet reverse_onto
ended_lem packet [] sent e some_bytes = absurd (some_bytes (sym e))
ended_lem packet (x ∷ xs) sent e some_bytes = ap (λ p. state [] (p ∷ sent)) e

-- A nonempty packet in which no `ESC` is followed by the byte `ESC_END` or `ESC_ESC`, encoded and
-- decoded byte by byte, is sent once and whole, and leaves the decoder as it was.
pub receive-handle_input :
    (packet : List ℕ) (sent : List (List ℕ))
    → packet ≢ []
    → is_clean [] packet ≡ true
    → receive (handle_input packet) (record { sndbuf = []; sent = sent })
      ≡ record { sndbuf = []; sent = packet ∷ sent }
unfolding reverse_onto
receive-handle_input packet sent some_bytes clean =
    receive_packet packet [] sent clean
    ∙ ended_lem packet (reverse_onto packet []) sent (reverse_onto_twice packet []) some_bytes
