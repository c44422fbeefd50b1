-- ===== src/Channels/Dispatch.antt =====
-- Which channel a message goes to.
use rdesktop.Common.{ℕ, ◌^◌, ◌<◌, ◌≡◌, ◌≢◌, refl, ap, ◌∙◌, arith, true, false, ◌==◌}
use rdesktop.Common.{List, [], ◌∷◌, ◌++◌, All, Option, none, ok, if◌then◌else◌}
use mathlib.Core.List.{append_assoc}
use rdesktop.Stream.{Stream, le_bytes}
use rdesktop.Stream.Read.{Reads, advance, in_uint32_le-append}
use rdesktop.Channels.{Numbers, Channel, Table, call_of, defragment, process_in, is_registered}
use rdesktop.Channels.{channel_process}

-- No channel of a table has the number.
abbrev pub IsApart : ℕ → Table → Type 0
IsApart id = All (λ ch. ch.mcs_id ≢ id)

is_registered-found :
    (id : ℕ) (pre : Table) (ch : Channel) (post : Table)
    → ch.mcs_id ≡ id
    → is_registered id (pre ++ (ch ∷ post)) ≡ true
unfolding is_registered
is_registered-found id [] ch post same =
    let at : (ch.mcs_id == id) ≡ true = ground arith in rw at refl
is_registered-found id (d ∷ pre) ch post same =
    elim (d.mcs_id == id)
      as (λ b. (if b then true else is_registered id (pre ++ (ch ∷ post))) ≡ true) [
        | true ↦ refl
        | false ↦ is_registered-found id pre ch post same
      ]

is_registered-missing : (id : ℕ) (table : Table) → IsApart id table → is_registered id table ≡ false
unfolding is_registered
is_registered-missing id [] apart = refl
is_registered-missing id (d ∷ table) (off, apart) =
    let past : (d.mcs_id == id) ≡ false = ground arith in
    rw past (is_registered-missing id table apart)

module _ (n : Numbers) (len flags : ℕ) (s : Stream) (id : ℕ) (ch : Channel) (post : Table) where
  process_in-found :
      (before pre : Table) {whole : Option Stream} {ch' : Channel}
      → IsApart id pre
      → ch.mcs_id ≡ id
      → defragment n len flags ch s ≡ ok (whole, ch')
      → process_in n len flags s id before (pre ++ (ch ∷ post))
        ≡ ok (call_of ch whole, before ++ (pre ++ (ch' ∷ post)))
  unfolding process_in
  process_in-found before [] {whole} {ch'} apart same e =
      let at : (ch.mcs_id == id) ≡ true = ground arith in rw (at, e) refl
  process_in-found before (d ∷ pre) {whole} {ch'} (off, apart) same e =
      let past : (d.mcs_id == id) ≡ false = ground arith in
      rw past (
        process_in-found (before ++ (d ∷ [])) pre apart same e
        ∙ ap (λ t. ok (call_of ch whole, t)) (append_assoc before (d ∷ []) (pre ++ (ch' ∷ post))))

-- A message for a number: where no channel of the table has it, nothing is called and the table
-- stays; where one has it and none before, `channel_process` takes the length and the flags off the
-- message, does with the rest and this channel what `defragment` does, calls the callback of this
-- channel on a whole message only, and leaves every other channel as it was.
pub channel_process_lem :
    (n : Numbers) (id len flags : ℕ) {s : Stream} {xs : List ℕ} (pre : Table) (ch : Channel)
    (post : Table) {whole : Option Stream} {ch' : Channel}
    → len < 2 ^ 32
    → flags < 2 ^ 32
    → Reads s (le_bytes 4 len ++ (le_bytes 4 flags ++ xs))
    → IsApart id pre
    → ch.mcs_id ≡ id
    → defragment n len flags ch (advance (advance s 4) 4) ≡ ok (whole, ch')
    → (channel_process n s id (pre ++ (ch ∷ post)) ≡ ok (call_of ch whole, pre ++ (ch' ∷ post)))
      × (channel_process n s id pre ≡ ok (none, pre))
unfolding channel_process
channel_process_lem n id len flags {s} {xs} pre ch post small small' r apart same e =
    let a = in_uint32_le-append len small r in
    let b = in_uint32_le-append flags small' a.1 in
    (
      rw (is_registered-found id pre ch post same, a.0, b.0)
          (process_in-found n len flags (advance (advance s 4) 4) id ch post [] pre apart same e),
      rw (is_registered-missing id pre apart) refl,
    )
