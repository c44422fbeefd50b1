-- ===== src/Dvc/Null.antt =====
-- What data for the id 0 runs into while a slot of the table is free.
use rdesktop.Common.{ℕ, ◌≡◌, ◌≢◌, refl, List, [], ◌∷◌, ◌++◌, some, exit, undefined, All}
use mathlib.Core.Path.{subst, sym}
use rdesktop.Stream.{Stream}
use rdesktop.Stream.Read.{Reads, in_uint8-cons}
use rdesktop.Secure.{Security}
use rdesktop.Channels.{Numbers}
use rdesktop.Dvc.{Slot, Dvc, dvc_process_pdu, dvc_process_data_pdu, dvc_in_channelid, dispatch}
use rdesktop.Dvc.{dvc_channels_get_by_id, find, has_id, free_slot}
use rdesktop.Dvc.Lookup.{==-differs}

-- The search for the id 0 stops at the first free slot, if no slot before it has that id.
finds_free :
    (pre post : List Slot)
    → All (λ c. c.channel_id ≢ 0) pre
    → find (has_id 0) (pre ++ (free_slot ∷ post)) ≡ some free_slot
unfolding find
finds_free [] post apart = refl
finds_free (c ∷ pre) post (off, apart) =
    rw (==-differs c.channel_id 0 off) (finds_free pre post apart)

get_by_id-free :
    (pre post channels : List Slot)
    → channels ≡ pre ++ (free_slot ∷ post)
    → All (λ c. c.channel_id ≢ 0) pre
    → dvc_channels_get_by_id 0 channels ≡ some free_slot
unfolding dvc_channels_get_by_id
get_by_id-free pre post channels e apart =
    subst (λ t. find (has_id 0) t ≡ some free_slot) (sym e)
      (unfold find in finds_free pre post apart)

-- While a slot is free and no slot before it has the id 0, a data packet with the one-byte id 0 ends in
-- a call of NULL, whatever the packet and the other slots hold.
pub dvc_process_pdu-free_slot :
    (n : Numbers) (c : Security) (d : Dvc) (pre post : List Slot) (xs : List ℕ) {s : Stream}
    → d.channels ≡ pre ++ (free_slot ∷ post)
    → All (λ c. c.channel_id ≢ 0) pre
    → Reads s (0x30 ∷ 0 ∷ xs)
    → dvc_process_pdu n c s d ≡ exit undefined
unfolding dvc_process_pdu dvc_process_data_pdu dvc_in_channelid dispatch
dvc_process_pdu-free_slot n c d pre post xs {s} table apart r =
    let header = in_uint8-cons 0x30 r in
    let channelid = in_uint8-cons 0 header.1 in
    rw (header.0, channelid.0, get_by_id-free pre post d.channels table apart) refl
