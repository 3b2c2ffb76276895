-- ===== src/Conn/Buffer.antt =====
-- The size of the read buffer over the reads of a connection.
use sara.Common.{ℕ, ◌+◌, ◌-◌, ◌/◌, ◌≤◌, ◌<◌, ◌≡◌, List, [], ◌∷◌, arith, length}
use sara.Decoder.{decode_packet}
use sara.Conn.{TcpSessionConn, Read, received, failed, recv_tcp, change_buff_len, max_buf_len}

abbrev pub InBounds : ℕ → Type 0
InBounds buff_len = (3 ≤ buff_len) × (buff_len ≤ 6825)

change_buff_len-InBounds :
    (buff_len n : ℕ) → InBounds buff_len → n ≤ buff_len → InBounds (change_buff_len buff_len n)
unfolding change_buff_len
change_buff_len-InBounds buff_len n b h = ground arith

change_buff_len_stuck :
    (buff_len n : ℕ) → buff_len ≡ 3 → n ≤ buff_len → change_buff_len buff_len n ≡ 3
unfolding change_buff_len
change_buff_len_stuck buff_len n e h = ground arith

-- A read of more than three quarters of `max_buf_len` bytes, but fewer than `max_buf_len`, makes a
-- buffer of `max_buf_len` bytes into one that is a quarter larger than the read.
pub change_buff_len_exceeds :
    (n : ℕ)
    → max_buf_len - max_buf_len / 4 < n
    → n < max_buf_len
    → change_buff_len max_buf_len n ≡ n + n / 4
unfolding change_buff_len
change_buff_len_exceeds n lo hi = ground arith

-- Each read fits the buffer that it was made with.
abbrev pub Fits : TcpSessionConn → List Read → Type 0
Fits conn [] = Unit {0}
Fits conn (failed e ∷ reads) = Unit {0}
Fits conn (received chunk ∷ reads) =
    (length chunk ≤ conn.buff_len)
    × Fits
        (record {
          part = (decode_packet chunk conn.part).1;
          buff_len = change_buff_len conn.buff_len (length chunk);
        })
        reads

recv_tcp_bounds :
    (conn : TcpSessionConn) (reads : List Read)
    → Fits conn reads
    → InBounds conn.buff_len
    → InBounds (recv_tcp conn reads).1.buff_len
      × (conn.buff_len ≡ 3 → (recv_tcp conn reads).1.buff_len ≡ 3)
unfolding recv_tcp
recv_tcp_bounds conn [] f b = (b, λ e. e)
recv_tcp_bounds conn (failed e ∷ reads) f b = (b, λ k. k)
recv_tcp_bounds conn (received chunk ∷ reads) f b =
    let next : TcpSessionConn = record {
      part = (decode_packet chunk conn.part).1;
      buff_len = change_buff_len conn.buff_len (length chunk);
    } in
    let (bound, stuck) =
      recv_tcp_bounds next reads f.1
        (change_buff_len-InBounds conn.buff_len (length chunk) b f.0) in
    (bound, λ e. stuck (change_buff_len_stuck conn.buff_len (length chunk) e f.0))

-- Over any reads that fit the buffer, a buffer of 3 to 6825 bytes stays one of 3 to 6825 bytes.
pub recv_tcp-InBounds :
    (conn : TcpSessionConn) (reads : List Read)
    → Fits conn reads
    → InBounds conn.buff_len
    → InBounds (recv_tcp conn reads).1.buff_len
recv_tcp-InBounds conn reads f b = (recv_tcp_bounds conn reads f b).0

-- A buffer that has shrunk to 3 bytes never grows again, whatever is read into it.
pub recv_tcp_stuck :
    (conn : TcpSessionConn) (reads : List Read)
    → Fits conn reads
    → conn.buff_len ≡ 3
    → (recv_tcp conn reads).1.buff_len ≡ 3
recv_tcp_stuck conn reads f e =
    (recv_tcp_bounds conn reads f (omega (arith, e), omega (arith, e))).1 e
