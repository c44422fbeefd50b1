-- ===== src/Fastpath.antt =====
-- rdp5.c: the updates of the fast path, their decompression and the joining of their fragments. What
-- the updates do to the screen is left to the handlers of rdp.c, orders.c and the window system, which
-- are parameters.
pub mod Fragments
mod Tests
use rdesktop.Common.{
  ℕ, zero, suc, ◌+◌, ◌/◌, ◌%◌, ◌^◌, Bool, true, false, not, if◌then◌else◌, ◌==◌, List, [], ◌∷◌,
  ◌++◌,
}
use rdesktop.Common.{
  Option, none, some, leb, has_bit, u16, Result, ok, exit, undefined, forever, ◌>>=◌, ◌>>◌,
}
use rdesktop.Stream.{
  Stream, rdp_hdr, in_uint8, in_uint8a, in_uint8s, in_uint16_le, out_uint8a, out_uint8stream,
}
use rdesktop.Stream.{
  s_alloc, s_realloc, s_reset, s_mark_end, s_seek, s_push_layer, s_check_end, s_remaining,
}
use rdesktop.Mppc.{Rdpcomp, Expanded, mppc_expand, dict_size}

-- `U` is the state behind the handlers, which return the stream where they left it.
pub record Handlers (U : Type 0) : Type 0 where
  pub process_orders : ℕ → Stream → U → Result (Stream × U)
  pub process_bitmap_updates : Stream → U → Result (Stream × U)
  pub process_palette : Stream → U → Result (Stream × U)
  pub ui_set_null_cursor : U → U
  pub set_default_pointer : U → U
  pub ui_move_pointer : ℕ → ℕ → U → U
  pub process_colour_pointer_pdu : Stream → U → Result (Stream × U)
  pub process_cached_pointer_pdu : Stream → U → Result (Stream × U)
  pub process_new_pointer_pdu : Stream → U → Result (Stream × U)
  pub ui_begin_update : U → U
  pub ui_end_update : U → U

-- `g_mppc_dict` with its stream `ns`, `assembled`, and the state behind the handlers.
pub record Fastpath (U : Type 0) : Type 0 where
  pub comp : Rdpcomp
  pub ns : Stream
  pub assembled : ℕ → Option Stream
  pub ui : U

abbrev pub multifragment_max_size : ℕ
multifragment_max_size = 65535

module _ {U : Type 0} (h : Handlers U) where
  unfoldable pub process_ts_fp_update_by_code : Stream → (code : ℕ) → U → Result (Stream × U)
  process_ts_fp_update_by_code s code u =
      let orders = (do (count, s1) ← in_uint16_le s; h.process_orders count s1 u) in
      let bitmap = (do s1 ← in_uint8s s 2; h.process_bitmap_updates s1 u) in
      let palette = (do s1 ← in_uint8s s 2; h.process_palette s1 u) in
      let position = (do
        (x, s1) ← in_uint16_le s
        (y, s2) ← in_uint16_le s1
        ok (s2, h.ui_move_pointer x y u)) in
      if code == 0x0
      then orders
      else (if code == 0x1
          then bitmap
          else (if code == 0x2
              then palette
              else (if code == 0x3
                  then ok (s, u)
                  else (if code == 0x5
                      then ok (s, h.ui_set_null_cursor u)
                      else (if code == 0x6
                          then ok (s, h.set_default_pointer u)
                          else (if code == 0x8
                              then position
                              else (if code == 0x9
                                  then h.process_colour_pointer_pdu s u
                                  else (if code == 0xa
                                      then h.process_cached_pointer_pdu s u
                                      else (if code == 0xb
                                          then h.process_new_pointer_pdu s u
                                          else ok (s, u))))))))))

  -- `memcpy` from the history.
  unfoldable pub history : (ℕ → ℕ) → (roff rlen : ℕ) → List ℕ
  history hist roff zero = []
  history hist roff (suc rlen) = hist roff ∷ history hist (roff + 1) rlen

  -- The expanded data as a stream, in `ns`.
  unfoldable pub expanded_stream : Expanded → Stream → Result Stream
  expanded_stream e ns =
      if leb (e.roff + e.rlen) dict_size
      then (do
        n1 ← out_uint8a (s_reset (s_realloc ns e.rlen)) (history e.comp.hist e.roff e.rlen)
        n2 ← s_seek (s_mark_end n1) 0
        ok (s_push_layer rdp_hdr 0 n2))
      else exit undefined

  -- An update that is compressed: the length and the stream of its data. Where the decompression
  -- fails, the session goes on with what it left.
  unfoldable pub expand_update :
      Stream → (length_ ctype : ℕ) → Fastpath U → Result (ℕ × Stream × Fastpath U)
  expand_update s length_ ctype f = do
    (buf, s1) ← in_uint8a s length_
    elim (mppc_expand buf length_ ctype f.comp) [
      | none ↦ exit undefined
      | some e ↦ (do
        ns ← expanded_stream e f.ns
        ok (u16 e.rlen, ns, record f { comp = e.comp; ns = ns }))
    ]

  abbrev pub set_assembled : ℕ → Stream → Fastpath U → Fastpath U
  set_assembled code s f = record f { assembled = λ c. if c == code then some s else f.assembled c }

  abbrev pub allocated : Option Stream → Stream
  allocated none = s_alloc multifragment_max_size
  allocated (some s) = s

  -- A fragment that goes into `into`, with `frag / 16`: 1 for the last one, 2 for the first and 3 for
  -- another one. The stream it came in is returned where it was left.
  unfoldable pub join :
      (into : Stream) (code frag length_ : ℕ) → Stream → Fastpath U → Result (Stream × Fastpath U)
  join into code frag length_ ts f = do
    (joined, ts1) ← out_uint8stream (if frag == 2 then s_reset into else into) ts length_
    let last = (do
      whole ← s_seek (s_mark_end joined) 0
      (used, ui) ← process_ts_fp_update_by_code whole code f.ui
      ok (ts1, set_assembled code used (record f { ui = ui })))
    if frag == 1 then last else ok (ts1, set_assembled code joined f)

  unfoldable pub fragment :
      (code frag length_ : ℕ) → Stream → Fastpath U → Result (Stream × Fastpath U)
  fragment code frag length_ ts f = join (allocated (f.assembled code)) code frag length_ ts f

  -- The data of an update.
  unfoldable pub update_data :
      (code frag length_ : ℕ) → Stream → Fastpath U → Result (Stream × Fastpath U)
  update_data code frag length_ ts f =
      if frag == 0
      then (do
        (used, ui) ← process_ts_fp_update_by_code ts code f.ui
        ok (used, record f { ui = ui }))
      else fragment code frag length_ ts f

  -- The data of an update that is compressed or not. Compressed data are left in `ns`.
  unfoldable pub update_or_expand :
      (code frag length_ ctype : ℕ) → Stream → Fastpath U → Result (Fastpath U)
  update_or_expand code frag length_ ctype s f =
      let compressed = (do
        (size, ns, f1) ← expand_update s length_ ctype f
        (used, f2) ← update_data code frag size ns f1
        ok (record f2 { ns = used })) in
      let plain = (do (used, f1) ← update_data code frag length_ s f; ok f1) in
      if has_bit ctype 0x20 then compressed else plain

  -- One update: the type of compression keeps its value from one to the next. The pointer is set to the
  -- next update wherever the data were left.
  unfoldable pub fp_update : Stream → (ctype : ℕ) → Fastpath U → Result (Stream × ℕ × Fastpath U)
  fp_update s ctype0 f = do
    (hdr, s1) ← in_uint8 s
    (ctype, s2) ← if has_bit hdr 0x80 then in_uint8 s1 else ok (ctype0, s1)
    (length_, s3) ← in_uint16_le s2
    f1 ← update_or_expand (hdr % 16) (hdr / 16 % 4) length_ ctype s3 f
    s4 ← s_seek s3 (s3.p + length_)
    ok (s4, ctype, f1)

  -- `while (!s_check_end(s))`, with one round for each unit of fuel.
  unfoldable pub fp_loop : (fuel : ℕ) → Stream → (ctype : ℕ) → Fastpath U → Result (Fastpath U)
  fp_loop zero s ctype f = if s_check_end s then ok f else exit forever
  fp_loop (suc fuel) s ctype f =
      let rest = (do (s1, ctype1, f1) ← fp_update s ctype f; fp_loop fuel s1 ctype1 f1) in
      if s_check_end s then ok f else rest

  -- The fuel is the number of bytes, of which each update takes three at least.
  unfoldable pub process_ts_fp_updates : Stream → Fastpath U → Result (Fastpath U)
  process_ts_fp_updates s f = do
    f1 ← fp_loop (s_remaining s) s 0 (record f { ui = h.ui_begin_update f.ui })
    ok (record f1 { ui = h.ui_end_update f1.ui })
