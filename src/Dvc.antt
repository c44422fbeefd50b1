-- ===== src/Dvc.antt =====
-- dvc.c: the dynamic virtual channels, and the hash of utils.c that names them. A handler is known
-- by its number; 0 is NULL. A slot of zeroes is free.
pub mod Slots
pub mod Lookup
pub mod Distinct
pub mod Null
mod Tests
use rdesktop.Common.{
  ℕ, zero, suc, ◌+◌, ◌*◌, ◌/◌, ◌%◌, ◌^◌, Bool, true, false, not, ◌==◌, u8, u16, u32,
}
use rdesktop.Common.{if◌then◌else◌, List, [], ◌∷◌, Option, none, some, replicate}
use rdesktop.Common.{Result, ok, exit, undefined, guard, ◌>>=◌, ◌>>◌}
use rdesktop.Stream.{Stream, in_uint8, in_uint8s, in_uint16_le, in_uint32_le, out_uint8}
use rdesktop.Stream.{out_uint16_le, out_uint32_le, out_stream, s_mark_end, s_length}
use rdesktop.Stream.Text.{in_ansi_string}
use rdesktop.Mcs.{Link}
use rdesktop.Secure.{Security}
use rdesktop.Channels.{Numbers, Channel, Table, channel_init, channel_send, channel_register}

-- `utils_djb2_hash`, on the bytes before the terminator.
hash_loop : ℕ → List ℕ → ℕ
hash_loop hash [] = hash
hash_loop hash (c ∷ cs) =
    if u8 c == 0 then hash else hash_loop (u32 (u32 (hash * 32) + hash + u8 c)) cs

unfoldable pub utils_djb2_hash : List ℕ → ℕ
unfolding hash_loop
utils_djb2_hash str = hash_loop 5381 str

unfoldable pub is_terminated : List ℕ → Bool
is_terminated [] = false
is_terminated (c ∷ cs) = if c == 0 then true else is_terminated cs

abbrev pub invalid_channel : ℕ
invalid_channel = 0xffffffff

-- `dvc_channel_t`
pub record Slot : Type 0 where
  pub hash : ℕ
  pub channel_id : ℕ
  pub handler : ℕ

abbrev pub free_slot : Slot
free_slot = record { hash = 0; channel_id = 0; handler = 0 }

abbrev pub max_dvc_channels : ℕ
max_dvc_channels = 20

-- The first slot that passes a test.
unfoldable pub find : (Slot → Bool) → List Slot → Option Slot
find test [] = none
find test (c ∷ cs) = if test c then some c else find test cs

-- The first slot that passes a test is replaced.
unfoldable pub update : (Slot → Bool) → (Slot → Slot) → List Slot → Option (List Slot)
update test change [] = none
update test change (c ∷ cs) =
    let rest = update test change cs in
    if test c then some (change c ∷ cs) else elim rest [ none ↦ none | some cs' ↦ some (c ∷ cs') ]

abbrev pub has_hash : ℕ → Slot → Bool
has_hash hash c = c.hash == hash

abbrev pub has_id : ℕ → Slot → Bool
has_id id c = c.channel_id == id

abbrev pub is_found : Option Slot → Bool
is_found (some c) = true
is_found none = false

unfoldable pub dvc_channels_exists : List ℕ → List Slot → Bool
unfolding find
dvc_channels_exists name cs = is_found (find (has_hash (utils_djb2_hash name)) cs)

unfoldable pub dvc_channels_get_by_id : ℕ → List Slot → Option Slot
unfolding find
dvc_channels_get_by_id id cs = find (has_id id) cs

unfoldable pub dvc_channels_get_id : List ℕ → List Slot → ℕ
unfolding find
dvc_channels_get_id name cs = elim (find (has_hash (utils_djb2_hash name)) cs) [
  | some c ↦ c.channel_id
  | none ↦ invalid_channel
]

-- The answer, and the table.
abbrev pub updated : List Slot → Option (List Slot) → Bool × List Slot
updated cs (some cs') = (true, cs')
updated cs none = (false, cs)

unfoldable pub dvc_channels_remove_by_id : ℕ → List Slot → Bool × List Slot
unfolding update
dvc_channels_remove_by_id id cs = updated cs (update (has_id id) (λ c. free_slot) cs)

unfoldable pub dvc_channels_add : List ℕ → (handler channel_id : ℕ) → List Slot → Bool × List Slot
unfolding update dvc_channels_exists
dvc_channels_add name handler channel_id cs =
    if dvc_channels_exists name cs
    then (false, cs)
    else updated cs (
        update (has_hash 0)
          (λ c. record { hash = utils_djb2_hash name; channel_id = channel_id; handler = handler })
          cs)

-- The answer is whether 0 is returned, and not -1.
unfoldable pub dvc_channels_set_id : List ℕ → ℕ → List Slot → Bool × List Slot
unfolding update
dvc_channels_set_id name channel_id cs =
    updated cs
      (update (has_hash (utils_djb2_hash name)) (λ c. record c { channel_id = channel_id }) cs)

unfoldable pub dvc_channels_is_available : List ℕ → List Slot → Bool
unfolding find
dvc_channels_is_available name cs = elim (find (has_hash (utils_djb2_hash name)) cs) [
  | some c ↦ not (c.channel_id == invalid_channel)
  | none ↦ false
]

unfoldable pub dvc_channels_register : List ℕ → ℕ → List Slot → Bool × List Slot
unfolding dvc_channels_add
dvc_channels_register name handler cs = dvc_channels_add name handler invalid_channel cs

-- `dvc_hdr_t`: the fields of the byte, lowest first.
abbrev pub cbid : ℕ → ℕ
cbid hdr = hdr % 4

abbrev pub cmd : ℕ → ℕ
cmd hdr = hdr / 16 % 16

-- The bytes of the channel id in a packet.
unfoldable pub id_length : ℕ → ℕ → ℕ
id_length hdr channelid =
    if channelid == invalid_channel
    then 0
    else (if cbid hdr == 0
        then 1
        else (if cbid hdr == 1 then 2 else (if cbid hdr == 2 then 4 else 0)))

unfoldable pub out_channelid : ℕ → ℕ → Stream → Result Stream
out_channelid hdr channelid s =
    if channelid == invalid_channel
    then ok s
    else (if cbid hdr == 0
        then out_uint8 s channelid
        else (if cbid hdr == 1
            then out_uint16_le s channelid
            else (if cbid hdr == 2 then out_uint32_le s channelid else ok s)))

unfoldable pub dvc_init_packet : Security → (hdr channelid length : ℕ) → Result Stream
unfolding id_length out_channelid
dvc_init_packet c hdr channelid length = do
  s ← out_uint8 (channel_init c (length + 1 + id_length hdr channelid)) hdr
  out_channelid hdr channelid s

unfoldable pub dvc_in_channelid : Stream → ℕ → Result (ℕ × Stream)
dvc_in_channelid s hdr =
    if cbid hdr == 0
    then in_uint8 s
    else (if cbid hdr == 1
        then in_uint16_le s
        else (if cbid hdr == 2 then in_uint32_le s else ok (invalid_channel, s)))

-- What the functions below share: the table, the link, and the static channel that carries all.
pub record Dvc : Type 0 where
  pub channels : List Slot
  pub link : Link
  pub dvc_channel : Channel
  pub vc_chunk_size : ℕ

abbrev pub drdynvc : List ℕ
drdynvc = 100 ∷ 114 ∷ 100 ∷ 121 ∷ 110 ∷ 118 ∷ 99 ∷ []

-- The table of dynamic channels, and the static channel with `process` for `dvc_process_pdu`: the
-- answer, the two tables and the place of the channel.
unfoldable pub dvc_init :
    Numbers → (rdp_v5 : Bool) → (process : ℕ) → Table → Bool × Option ℕ × Table × List Slot
dvc_init n rdp_v5 process statics =
    let (dvc_channel, table) = channel_register n rdp_v5 drdynvc 0xc0000000 process statics in
    (
      elim dvc_channel [ none ↦ false | some at ↦ true ],
      dvc_channel,
      table,
      replicate max_dvc_channels free_slot,
    )

-- The handler to run and its stream; a call of NULL is undefined.
unfoldable pub dispatch : Option Slot → Stream → Dvc → Result (Option (ℕ × Stream) × Dvc)
dispatch none s d = ok (none, d)
dispatch (some ch) s d = if ch.handler == 0 then exit undefined else ok (some (ch.handler, s), d)

module _ (n : Numbers) (c : Security) where
  -- `channel_send(s, dvc_channel)` after `s_mark_end(s)`.
  send_marked : Stream → Dvc → Result Dvc
  send_marked s d = do
    (done, k) ← channel_send n c d.vc_chunk_size (s_mark_end s) d.dvc_channel d.link
    ok (record d { link = k })

  unfoldable pub dvc_send : List ℕ → Stream → Dvc → Result Dvc
  unfolding send_marked dvc_channels_get_id dvc_init_packet
  dvc_send name s d =
      let channel_id = dvc_channels_get_id name d.channels in
      if channel_id == invalid_channel then ok d else (do
        ls ← dvc_init_packet c 0x32 channel_id (s_length s)
        ls' ← out_stream ls s
        send_marked ls' d)

  dvc_send_capabilities_response : Dvc → Result Dvc
  unfolding send_marked dvc_init_packet
  dvc_send_capabilities_response d = do
    s ← dvc_init_packet c 0x50 invalid_channel 3
    s ← out_uint8 s 0
    s ← out_uint16_le s 1
    send_marked s d

  dvc_process_caps_pdu : Stream → Dvc → Result Dvc
  unfolding dvc_send_capabilities_response
  dvc_process_caps_pdu s d = do
    s1 ← in_uint8s s 1
    (version, s2) ← in_uint16_le s1
    dvc_send_capabilities_response d

  dvc_send_create_response : Bool → (hdr channelid : ℕ) → Dvc → Result Dvc
  unfolding send_marked dvc_init_packet
  dvc_send_create_response success hdr channelid d = do
    s ← dvc_init_packet c hdr channelid 4
    s ← out_uint32_le s (if success then 0 else 0xffffffff)
    send_marked s d

  -- Without a terminator the hash reads on, past what was stored of the name.
  unfoldable pub dvc_process_create_pdu : Stream → ℕ → Dvc → Result Dvc
  unfolding is_terminated dvc_in_channelid dvc_channels_exists dvc_channels_set_id
      dvc_send_create_response
  dvc_process_create_pdu s hdr d = do
    (channelid, s1) ← dvc_in_channelid s hdr
    (count, name, s2) ← in_ansi_string s1 512
    guard (is_terminated name) undefined
    if dvc_channels_exists name d.channels
        then dvc_send_create_response true hdr channelid
            (record d { channels = (dvc_channels_set_id name channelid d.channels).1 })
        else dvc_send_create_response false hdr channelid d

  unfoldable pub dvc_process_data_pdu : Stream → ℕ → Dvc → Result (Option (ℕ × Stream) × Dvc)
  unfolding dvc_in_channelid dispatch
  dvc_process_data_pdu s hdr d = do
    (channelid, s1) ← dvc_in_channelid s hdr
    dispatch (dvc_channels_get_by_id channelid d.channels) s1 d

  unfoldable pub dvc_process_close_pdu : Stream → ℕ → Dvc → Result Dvc
  unfolding dvc_in_channelid dvc_channels_remove_by_id
  dvc_process_close_pdu s hdr d = do
    (channelid, s1) ← dvc_in_channelid s hdr
    ok (record d { channels = (dvc_channels_remove_by_id channelid d.channels).1 })

  unfoldable pub dvc_process_pdu : Stream → Dvc → Result (Option (ℕ × Stream) × Dvc)
  unfolding dvc_process_caps_pdu dvc_process_create_pdu dvc_process_data_pdu dvc_process_close_pdu
  dvc_process_pdu s d = do
    (hdr, s1) ← in_uint8 s
    if cmd hdr == 5
        then (do d1 ← dvc_process_caps_pdu s1 d; ok (none, d1))
        else (if cmd hdr == 1
            then (do d1 ← dvc_process_create_pdu s1 hdr d; ok (none, d1))
            else (if cmd hdr == 3
                then dvc_process_data_pdu s1 hdr d
                else (if cmd hdr == 4
                    then (do d1 ← dvc_process_close_pdu s1 hdr d; ok (none, d1))
                    else ok (none, d))))
