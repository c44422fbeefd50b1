-- ===== src/Tcp.antt =====
-- The transfer loops of tcp.c: `tcp_init`, `tcp_send` and `tcp_recv`. What the socket or the TLS
-- session answers to each call is an event of a list, so that every order of partial transfers,
-- interruptions and failures is covered; where the list ends, the loop is still waiting.
pub mod Receive
pub mod Send
mod Tests
use rdesktop.Common.{
  ℕ, zero, suc, ◌+◌, ◌-◌, Bool, true, false, leb, if◌then◌else◌, length, take, drop,
}
use rdesktop.Common.{Option, none, some, List, [], ◌∷◌, ◌++◌, Result, ok, exit, ◌>>=◌, ◌>>◌, min}
use rdesktop.Stream.{Stream, s_alloc, s_realloc, s_reset, s_seek, s_assert_w, s_length, poke, peek}
use rdesktop.Stream.{in_uint8a, s_check_end, s_remaining}

-- What a call of `recv` or `gnutls_record_recv` finds: a byte and more, of which it takes as many as were
-- asked for, no bytes yet, the end of the stream, or a fatal error. `leave` is a request to end
-- the main loop, seen by `ui_select` before the call.
pub data Incoming : Type 0 where
  got : ℕ → List ℕ → Incoming
  again closed fatal leave : Incoming

-- How `tcp_recv` ends: with all bytes, with NULL, or not yet.
pub data Status : Type 0 where
  done null waiting : Status

-- `g_in`, `g_network_error`, whether TLS is on, and the events to come.
pub record Tcp : Type 0 where
  pub g_in : Stream
  pub network_error : Bool
  pub ssl_initialized : Bool
  pub incoming : List Incoming

unfoldable pub tcp_init : ℕ → Stream
unfolding s_alloc
tcp_init maxlen = s_alloc maxlen

-- `out_uint8p` reserves `n` bytes behind the data, and the pointer goes back.
reserve : Stream → ℕ → Result Stream
reserve s n = do
  s1 ← s_seek s (s_length s)
  s_assert_w s1 n
  s_seek (record s1 { p = s1.p + n }) s.p

-- The bytes go to where was reserved, and `s->end` moves over them.
store : Stream → List ℕ → Result Stream
store s bs = do
  s1 ← poke (record s { p = s.end }) bs
  ok (record s1 { p = s.p; end = s.end + length bs })

-- What of a chunk was not asked for stays with the socket.
left_over : List ℕ → List Incoming → List Incoming
left_over [] events = events
left_over (b ∷ bs) events = got b bs ∷ events

-- `while (length > 0)`, with the stream that is read into.
recv_loop : Tcp → List Incoming → ℕ → Stream → Result (Status × Stream × Tcp)
recv_loop t events zero s = ok (done, s, record t { g_in = s; incoming = events })
recv_loop t [] (suc n) s = ok (waiting, s, record t { g_in = s; incoming = [] })
recv_loop t (leave ∷ events) (suc n) s = ok (null, s, record t { g_in = s; incoming = events })
recv_loop t (again ∷ events) (suc n) s = do s' ← reserve s (suc n); recv_loop t events (suc n) s'
recv_loop t (fatal ∷ events) (suc n) s = do
  s' ← reserve s (suc n)
  ok (null, s', record t { g_in = s'; incoming = events; network_error = true })
recv_loop t (closed ∷ events) (suc n) s =
    let rest = (do s' ← reserve s (suc n); recv_loop t events (suc n) s') in
    if t.ssl_initialized
    then rest
    else (do s' ← reserve s (suc n); ok (null, s', record t { g_in = s'; incoming = events }))
recv_loop t (got b bs ∷ events) (suc n) s =
    let rest = (do
      s' ← reserve s (suc n)
      s'' ← store s' (b ∷ bs)
      recv_loop t events (n - length bs) s'') in
    if leb (length bs) n then rest else (do
      s' ← reserve s (suc n)
      s'' ← store s' (b ∷ take n bs)
      ok (done, s'', record t { g_in = s''; incoming = left_over (drop n bs) events }))

-- `none` is the call with NULL, which starts on `g_in` anew; a stream that is passed is `g_in`.
unfoldable pub tcp_recv : Option Stream → ℕ → Tcp → Result (Status × Stream × Tcp)
unfolding recv_loop reserve store left_over
tcp_recv s n t = if t.network_error then ok (null, t.g_in, t) else elim s [
  | none ↦ recv_loop t t.incoming n (s_reset (s_realloc t.g_in n))
  | some s' ↦ recv_loop t t.incoming n (s_realloc s' (s_length s' + n))
]

-- What a call of `send` or `gnutls_record_send` answers: the bytes it took, at least one (the number
-- is one less), that it would block, or a fatal error.
pub data Outgoing : Type 0 where
  sent : ℕ → Outgoing
  blocks broken : Outgoing

-- One round of the loop that is not over: the bytes at the pointer, of which `n` go out.
send_some : Stream → ℕ → Result (List ℕ × Stream)
send_some s n = do
  (bytes, s1) ← in_uint8a s (s_remaining s)
  s2 ← s_seek s1 (s.p + min n (length bytes))
  ok (take n bytes, s2)

-- `while (!s_check_end(s))`: the status, the bytes that went out so far, and the stream.
send_loop : List Outgoing → List ℕ → Stream → Result (Status × List ℕ × Stream)
send_loop [] wire s = ok (if s_check_end s then done else waiting, wire, s)
send_loop (sent n ∷ events) wire s =
    let rest = (do (bytes, s') ← send_some s (suc n); send_loop events (wire ++ bytes) s') in
    if s_check_end s then ok (done, wire, s) else rest
send_loop (blocks ∷ events) wire s =
    let rest = (do (bytes, s') ← send_some s 0; send_loop events (wire ++ bytes) s') in
    if s_check_end s then ok (done, wire, s) else rest
send_loop (broken ∷ events) wire s =
    if s_check_end s
    then ok (done, wire, s)
    else (do (bytes, s1) ← in_uint8a s (s_remaining s); ok (null, wire, s1))

-- What goes out on the wire for a stream, `null` where the network fails.
unfoldable pub tcp_send : Bool → List Outgoing → Stream → Result (Status × List ℕ × Stream)
unfolding send_loop send_some
tcp_send network_error events s =
    if network_error then ok (null, [], s) else (do s' ← s_seek s 0; send_loop events [] s')
