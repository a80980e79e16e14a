-- ===== src/Counter/Conn.antt =====
-- common/counter/conn.go and xraytraffic.go: what a counted connection, of a stream or of packets, adds to
-- the two words of its user. A call comes with what the inner connection did: its bytes, and whether its
-- error was nil.
use v2bx_outbound.Base.{
  ℕ, ◌+◌, ◌<◌, ◌≡◌, arith, Bool, ◌&&◌, List, [], ◌∷◌, add_int, slt, int_mod, int_half,
  if◌then◌else◌,
}
use v2bx_outbound.Counter.{TrafficStorage}

-- The methods of ConnCounter and PacketConnCounter that move bytes; the last two are the functions that
-- UnwrapReader, UnwrapWriter and their packet twins give out.
pub data Call : Type 0 where
  read write : ℕ → Bool → Call
  read_buffer write_buffer : ℕ → Bool → Call
  read_packet write_packet : ℕ → Bool → Call
  read_func write_func : ℕ → Call

abbrev pub add_up : ℕ → TrafficStorage → TrafficStorage
add_up n s = record s { up_counter = add_int s.up_counter n }

abbrev pub add_down : ℕ → TrafficStorage → TrafficStorage
add_down n s = record s { down_counter = add_int s.down_counter n }

unfoldable pub count_call : Call → TrafficStorage → TrafficStorage
count_call (read n ok) s = add_up n s
count_call (write n ok) s = add_down n s
count_call (read_buffer n ok) s = if ok && slt 0 n then add_up n s else s
count_call (write_buffer n ok) s = if ok && slt 0 n then add_down n s else s
count_call (read_packet n ok) s = if ok then add_up n s else s
count_call (write_packet n ok) s = if ok && slt 0 n then add_down n s else s
count_call (read_func n) s = add_up n s
count_call (write_func n) s = add_down n s

unfoldable pub count_calls : List Call → TrafficStorage → TrafficStorage
count_calls [] s = s
count_calls (c ∷ calls) s = count_calls calls (count_call c s)

-- The bytes of a call in each direction; Read and Write count those of a failed call too.
abbrev pub moved : Call → ℕ × ℕ
moved (read n ok) = (n, 0)
moved (write n ok) = (0, n)
moved (read_buffer n ok) = (if ok then n else 0, 0)
moved (write_buffer n ok) = (0, if ok then n else 0)
moved (read_packet n ok) = (if ok then n else 0, 0)
moved (write_packet n ok) = (0, if ok then n else 0)
moved (read_func n) = (n, 0)
moved (write_func n) = (0, n)

abbrev pub moved_up : List Call → ℕ
moved_up [] = 0
moved_up (c ∷ calls) = (moved c).0 + moved_up calls

abbrev pub moved_down : List Call → ℕ
moved_down [] = 0
moved_down (c ∷ calls) = (moved c).1 + moved_down calls

-- No call moves 2^63 bytes.
abbrev pub AreSmall : List Call → Type 0
AreSmall [] = Unit
AreSmall (c ∷ calls) = ((moved c).0 < int_half) × ((moved c).1 < int_half) × AreSmall calls

count_call-moved :
    (c : Call) (s : TrafficStorage)
    → (moved c).0 < int_half
    → (moved c).1 < int_half
    → s.up_counter < int_mod
    → s.down_counter < int_mod
    → ((count_call c s).up_counter ≡ add_int s.up_counter (moved c).0)
      × ((count_call c s).down_counter ≡ add_int s.down_counter (moved c).1)
unfolding count_call
count_call-moved (read n ok) s h k u d = ground arith
count_call-moved (write n ok) s h k u d = ground arith
count_call-moved (read_buffer n ok) s h k u d = ground arith
count_call-moved (write_buffer n ok) s h k u d = ground arith
count_call-moved (read_packet n ok) s h k u d = ground arith
count_call-moved (write_packet n ok) s h k u d = ground arith
count_call-moved (read_func n) s h k u d = ground arith
count_call-moved (write_func n) s h k u d = ground arith

-- Over any calls the words grow by the bytes that were moved in each direction, with wrap-around.
pub count_calls-moved :
    (calls : List Call) (s : TrafficStorage)
    → AreSmall calls
    → s.up_counter < int_mod
    → s.down_counter < int_mod
    → let s' = count_calls calls s in
      (s'.up_counter ≡ add_int s.up_counter (moved_up calls))
      × (s'.down_counter ≡ add_int s.down_counter (moved_down calls))
unfolding count_calls
count_calls-moved [] s h u d = ground arith
count_calls-moved (c ∷ calls) s (h, k, rest) u d =
    let first = count_call-moved c s h k u d in
    let later =
      count_calls-moved calls (count_call c s) rest (omega (arith, first.0))
        (omega (arith, first.1)) in
    (omega (arith, first.0, later.0), omega (arith, first.1, later.1))

-- common/counter/xraytraffic.go: Value, Set and Add of the Xray core's view of one word; the last two
-- with what they return.
unfoldable pub xray_value : ℕ → ℕ
xray_value v = v

unfoldable pub xray_set : ℕ → ℕ → ℕ × ℕ
xray_set new_value v = (new_value, v)

unfoldable pub xray_add : ℕ → ℕ → ℕ × ℕ
xray_add delta v = (add_int v delta, add_int v delta)
