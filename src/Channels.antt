-- ===== src/Channels.antt =====
-- channels.c: the static virtual channels. The flags of a chunk and the size of the table are arguments
-- of the definitions, and `numbers` are their values. The callback of a channel is known by its number.
pub mod Chunks
pub mod Dispatch
pub mod Finish
pub mod Ends
mod Tests
use rdesktop.Common.{ℕ, zero, suc, ◌+◌, ◌-◌, ◌^◌, Bool, true, false, ◌&&◌, leb, ltb, ◌==◌, min, u16}
use rdesktop.Common.{
  if◌then◌else◌, List, [], ◌∷◌, ◌++◌, Option, none, some, bit_and, bit_or, has_bit, length,
}
use rdesktop.Common.{take, u32, Result, ok, exit, ◌>>=◌, ◌>>◌, forever}
use rdesktop.Stream.{Stream, channel_hdr, s_push_layer, s_pop_layer, s_remaining, s_check_end}
use rdesktop.Stream.{in_uint8s, in_uint32_le, out_uint32_le, out_uint8stream, s_mark_end, s_realloc}
use rdesktop.Stream.{s_reset, s_seek, s_alloc}
use rdesktop.Mcs.{Link, mcs_global_channel}
use rdesktop.Secure.{Security, sec_encrypt_flag, sec_init, sec_send_to_channel}

-- `CHANNEL_OPTION_SHOW_PROTOCOL`
abbrev pub option_show_protocol : ℕ
option_show_protocol = 0x00200000

-- `CHANNEL_FLAG_FIRST`, `CHANNEL_FLAG_LAST`, `CHANNEL_FLAG_SHOW_PROTOCOL` and `MAX_CHANNELS`.
pub record Numbers : Type 0 where
  pub flag_first : ℕ
  pub flag_last : ℕ
  pub flag_show_protocol : ℕ
  pub max_channels : ℕ

abbrev pub numbers : Numbers
numbers = record {
  flag_first = 0x01;
  flag_last = 0x02;
  flag_show_protocol = 0x10;
  max_channels = 12;
}

-- `VCHANNEL`; a callback is known by its number. `inbox` is `in`.
pub record Channel : Type 0 where
  pub mcs_id : ℕ
  pub name : List ℕ
  pub flags : ℕ
  pub inbox : Stream
  pub process : ℕ

-- `g_channels` up to `g_num_channels`.
abbrev pub Table : Type 0
Table = List Channel

-- A stream of zeroes, as static memory is.
abbrev pub no_stream : Stream
no_stream = record { buf = []; p = 0; end = 0; size = 0; hdr = λ _. none }

-- Whether there is a fifth version of RDP, and then the channel at its place in the table.
unfoldable pub channel_register :
    Numbers → (rdp_v5 : Bool) → (name : List ℕ) → (flags process : ℕ) → Table → Option ℕ × Table
channel_register n rdp_v5 name flags process table =
    if rdp_v5
    then (if leb n.max_channels (length table) then (none, table) else (
      some (length table),
      table
          ++ (record {
            mcs_id = u16 (mcs_global_channel + 1 + length table);
            name = take 8 name;
            flags = flags;
            inbox = no_stream;
            process = process;
          }
              ∷ []),
    ))
    else (none, table)

abbrev pub encrypt_flags : Security → ℕ
encrypt_flags c = if c.g_encryption then sec_encrypt_flag else 0

unfoldable pub channel_init : Security → ℕ → Stream
unfolding sec_init
channel_init c length = s_push_layer channel_hdr 8 (sec_init c (encrypt_flags c) (length + 8))

-- The flags of a chunk of `this` bytes, with `remaining` bytes of `length` still to send.
unfoldable pub chunk_flags : Numbers → Channel → (length remaining this : ℕ) → ℕ
chunk_flags n ch length remaining this =
    let first = if length == remaining then n.flag_first else 0 in
    let last = if remaining == this then bit_or first n.flag_last else first in
    if has_bit ch.flags option_show_protocol then bit_or last n.flag_show_protocol else last

-- `(flags & (FIRST | LAST)) == (FIRST | LAST)`: the data is one chunk.
unfoldable pub is_inplace : Numbers → ℕ → Bool
is_inplace n flags =
    bit_and flags (bit_or n.flag_first n.flag_last) == bit_or n.flag_first n.flag_last

-- The stream of the data afterwards, and the link. In place, its bytes in front of the data are those
-- from before the layers below wrote their headers there, and the pointer is at the end.
unfoldable pub channel_send_chunk :
    Numbers → Security → (vc_chunk_size : ℕ) → Channel → ℕ → Stream → Link → Result (Stream × Link)
unfolding chunk_flags is_inplace
channel_send_chunk n c vc_chunk_size ch length s k = do
  let this = u32 (min (s_remaining s) vc_chunk_size)
  let flags = chunk_flags n ch length (s_remaining s) this
  if is_inplace n flags
      then (do
        s1 ← s_pop_layer channel_hdr s
        s2 ← out_uint32_le s1 length
        s3 ← out_uint32_le s2 flags
        k1 ← sec_send_to_channel c s3 (encrypt_flags c) ch.mcs_id k
        s4 ← in_uint8s s3 (s_remaining s3)
        ok (s4, k1))
      else (do
        let chunk = sec_init c (encrypt_flags c) (this + 8)
        c1 ← out_uint32_le chunk length
        c2 ← out_uint32_le c1 flags
        (c3, s1) ← out_uint8stream c2 s this
        k1 ← sec_send_to_channel c (s_mark_end c3) (encrypt_flags c) ch.mcs_id k
        ok (s1, k1))

-- `while (!s_check_end(s))`, with one round for each unit of fuel.
send_loop :
    Numbers → Security → ℕ → Channel → ℕ → (fuel : ℕ) → Stream → Link → Result (Stream × Link)
unfolding channel_send_chunk
send_loop n c vc ch length zero s k = if s_check_end s then ok (s, k) else exit forever
send_loop n c vc ch length (suc fuel) s k =
    let rest = (do
      (s', k') ← channel_send_chunk n c vc ch length s k
      send_loop n c vc ch length fuel s' k') in
    if s_check_end s then ok (s, k) else rest

-- The fuel is the number of bytes. A round that sends none leaves the stream as it is, and then the
-- loop never ends.
unfoldable pub channel_send :
    Numbers → Security → (vc_chunk_size : ℕ) → Stream → Channel → Link → Result (Stream × Link)
unfolding send_loop
channel_send n c vc s ch k = do
  s1 ← s_pop_layer channel_hdr s
  s2 ← in_uint8s s1 8
  let length = u32 (s_remaining s2)
  send_loop n c vc ch length length s2 k

-- A channel's part of a message: the stream for its callback, if the message is whole.
unfoldable pub defragment :
    Numbers → (length flags : ℕ) → Channel → Stream → Result (Option Stream × Channel)
defragment n length flags ch s =
    if has_bit flags n.flag_first && has_bit flags n.flag_last then ok (some s, ch) else (do
      let into =
          if has_bit flags n.flag_first then s_reset (s_realloc ch.inbox length) else ch.inbox
      (into, s1) ← out_uint8stream into s (u32 (s_remaining s))
      if has_bit flags n.flag_last
          then (do whole ← s_seek (s_mark_end into) 0; ok (some whole, record ch { inbox = whole }))
          else ok (none, record ch { inbox = into }))

-- A call of `process`: the callback, and its stream.
abbrev pub Call : Type 0
Call = ℕ × Stream

-- The callback of a channel on a whole message.
abbrev pub call_of : Channel → Option Stream → Option Call
call_of ch none = none
call_of ch (some t) = some (ch.process, t)

-- The channel with the number, and what the table becomes.
unfoldable pub process_in :
    Numbers
    → (length flags : ℕ) → Stream
    → ℕ
    → (before table : Table) → Result (Option Call × Table)
unfolding defragment
process_in n length flags s id before [] = ok (none, before)
process_in n length flags s id before (ch ∷ table) =
    let rest = process_in n length flags s id (before ++ (ch ∷ [])) table in
    if ch.mcs_id == id
    then (do
      (whole, ch') ← defragment n length flags ch s
      ok (call_of ch whole, before ++ (ch' ∷ table)))
    else rest

unfoldable pub is_registered : ℕ → Table → Bool
is_registered id [] = false
is_registered id (ch ∷ table) = if ch.mcs_id == id then true else is_registered id table

-- The callback to run on what was received, and the table before it runs.
unfoldable pub channel_process : Numbers → Stream → ℕ → Table → Result (Option Call × Table)
unfolding process_in is_registered
channel_process n s id table =
    if is_registered id table
    then (do
      (length, s1) ← in_uint32_le s
      (flags, s2) ← in_uint32_le s1
      process_in n length flags s2 id [] table)
    else ok (none, table)
