-- ===== src/Dvc/Tests.antt =====
-- The theorems on dynamic channels at the table after `dvc_init`.
use rdesktop.Common.{ℕ, List, [], ◌∷◌, none, some, exit, undefined, false, true, arith, refl, ◌≡◌}
use rdesktop.Common.{◌≢◌, inl, inr, replicate}
use rdesktop.Stream.{Stream}
use rdesktop.Stream.Read.{Reads}
use rdesktop.Secure.{Security}
use rdesktop.Channels.{numbers, no_stream}
use rdesktop.Dvc.{Slot, Dvc, find, is_found, has_hash, has_id, utils_djb2_hash}
use rdesktop.Dvc.{
  dvc_channels_exists, dvc_channels_get_id, dvc_channels_get_by_id, dvc_channels_add,
}
use rdesktop.Dvc.{dvc_channels_set_id, dvc_channels_register, dvc_channels_remove_by_id, free_slot}
use rdesktop.Dvc.{invalid_channel, dvc_process_pdu}
use rdesktop.Dvc.Lookup.{register-set_id-get_by_id}
use rdesktop.Dvc.Distinct.{IsDistinct, table-IsDistinct}
use rdesktop.Dvc.Null.{dvc_process_pdu-free_slot}

-- "a" and "b"
abbrev a : List ℕ
a = 97 ∷ 0 ∷ []

abbrev b : List ℕ
b = 98 ∷ 0 ∷ []

abbrev table : List Slot
table = replicate 20 free_slot

abbrev one : List Slot
one = record { hash = 177670; channel_id = 7; handler = 1 } ∷ replicate 19 free_slot

hash_a : utils_djb2_hash a ≡ 177670
unfolding utils_djb2_hash
hash_a = refl

differ : utils_djb2_hash b ≢ utils_djb2_hash a
unfolding utils_djb2_hash
differ = λ e. absurd (omega (arith, e))

present : dvc_channels_exists a one ≡ true
unfolding dvc_channels_exists find utils_djb2_hash
present = refl

absent : dvc_channels_exists a table ≡ false
unfolding dvc_channels_exists find utils_djb2_hash
absent = refl

free : is_found (find (has_hash 0) table) ≡ true
unfolding find
free = refl

unused : is_found (find (has_id 9) table) ≡ false
unfolding find
unused = refl

register-set_id-get_by_id_example :
    (cs1 : List Slot) × (cs2 : List Slot) × (dvc_channels_register a 1 table ≡ (true, cs1))
    × (dvc_channels_get_id a cs1 ≡ invalid_channel)
    × (dvc_channels_set_id a 9 cs1 ≡ (true, cs2))
    × (dvc_channels_get_id a cs2 ≡ 9)
    × (dvc_channels_get_by_id 9 cs2
        ≡ some (record { hash = utils_djb2_hash a; channel_id = 9; handler = 1 }))
register-set_id-get_by_id_example =
    register-set_id-get_by_id a 1 9 table absent free unused (λ e. absurd (omega (arith, e)))

abbrev pair : List Slot
pair = record { hash = 177670; channel_id = 7; handler = 1 } ∷ free_slot ∷ []

pair-IsDistinct : IsDistinct pair
pair-IsDistinct = (inr ((λ e. absurd (omega (arith, e))), tt), (inl refl, tt))

table-IsDistinct_example :
    IsDistinct (dvc_channels_add b 2 8 pair).1
    × IsDistinct (dvc_channels_set_id b 8 pair).1
    × IsDistinct (dvc_channels_remove_by_id 8 pair).1
table-IsDistinct_example = table-IsDistinct b 2 8 pair pair-IsDistinct

-- A data packet for the id 0, before any channel is registered.
abbrev data_packet : Stream
data_packet = record { buf = 0x30 ∷ 0 ∷ 65 ∷ []; p = 0; end = 3; size = 3; hdr = λ _. none }

data_packet-Reads : Reads data_packet (0x30 ∷ 0 ∷ 65 ∷ [])
data_packet-Reads = record { valid = omega arith; inside = omega arith; rest = refl }

abbrev security : Security
security = record {
  g_licence_issued = true;
  g_licence_error_result = false;
  g_encryption = false;
  sec_sign = λ bytes. replicate 8 0;
  sec_encrypt = λ bytes. bytes;
}

abbrev dvc : Dvc
dvc = record {
  channels = one;
  link = record {
    g_mcs_userid = 0;
    tcp = record {
      g_in = no_stream;
      network_error = false;
      ssl_initialized = false;
      incoming = [];
    };
    outgoing = [];
  };
  dvc_channel = record { mcs_id = 1004; name = []; flags = 0; inbox = no_stream; process = 1 };
  vc_chunk_size = 1600;
}

dvc_process_pdu-free_slot_example :
    dvc_process_pdu numbers security data_packet dvc ≡ exit undefined
dvc_process_pdu-free_slot_example =
    dvc_process_pdu-free_slot numbers security dvc
      (record { hash = 177670; channel_id = 7; handler = 1 } ∷ []) (replicate 18 free_slot)
      (65 ∷ []) refl (λ e. absurd (omega (arith, e)), tt) data_packet-Reads
