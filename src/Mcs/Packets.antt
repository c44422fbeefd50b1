-- ===== src/Mcs/Packets.antt =====
-- The requests of the connection sequence, byte for byte.
use rdesktop.Common.{ℕ, ◌≡◌, refl}
use rdesktop.Common.{List, [], ◌∷◌, ◌++◌, ok}
use rdesktop.Stream.{s_alloc, s_push_layer, s_pop_layer, s_mark_end, out_uint8, out_uint8a, poke}
use rdesktop.Stream.{out_uint16_be}
use rdesktop.Stream.{be16}
use rdesktop.Tcp.{tcp_init}
use rdesktop.Iso.{iso_init, iso_send}
use rdesktop.Iso.Frame.{data_header}
use rdesktop.Mcs.{Link, mcs_out_per_integer}
use rdesktop.Mcs.Connect.{mcs_send_edrq, mcs_send_aurq, mcs_send_cjrq}

-- Erect domain, attach user, and the join of a channel by a user.
abbrev pub edrq_bytes : List ℕ
edrq_bytes = data_header 12 ++ (4 ∷ 1 ∷ 1 ∷ 1 ∷ 1 ∷ [])

abbrev pub aurq_bytes : List ℕ
aurq_bytes = data_header 8 ++ (40 ∷ [])

abbrev pub cjrq_bytes : ℕ → ℕ → List ℕ
cjrq_bytes user id = data_header 12 ++ (56 ∷ (be16 user ++ be16 id))

-- The link with one more packet handed over.
abbrev pub sent : List ℕ → Link → Link
sent p k = record k { outgoing = k.outgoing ++ (p ∷ []) }

pub mcs_send_edrq-bytes : (k : Link) → mcs_send_edrq k ≡ ok (sent edrq_bytes k)
unfolding mcs_send_edrq mcs_out_per_integer iso_init iso_send tcp_init s_alloc s_push_layer
    s_pop_layer s_mark_end out_uint8 out_uint16_be out_uint8a poke
mcs_send_edrq-bytes k = refl

pub mcs_send_aurq-bytes : (k : Link) → mcs_send_aurq k ≡ ok (sent aurq_bytes k)
unfolding mcs_send_aurq iso_init iso_send tcp_init s_alloc s_push_layer s_pop_layer s_mark_end
    out_uint8 out_uint16_be out_uint8a poke
mcs_send_aurq-bytes k = refl

pub mcs_send_cjrq-bytes :
    (id : ℕ) (k : Link) → mcs_send_cjrq id k ≡ ok (sent (cjrq_bytes k.g_mcs_userid id) k)
unfolding mcs_send_cjrq iso_init iso_send tcp_init s_alloc s_push_layer s_pop_layer s_mark_end
    out_uint8 out_uint16_be out_uint8a poke
mcs_send_cjrq-bytes id k = refl
