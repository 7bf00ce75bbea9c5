-- ===== src/Wire.antt =====
-- hds_udp/common/HDS_ReadCDR.h and HDS_WriteCDR.h, and the packet header of
-- hds_udp/connection/HDS_UDP_Connection.h. A packet is a list of bytes; an `int` or an
-- `unsigned int` is its 32-bit pattern, stored least byte first, as on x86.
pub mod Bytes
pub mod Addressing
use test_resend.Prelude.{ℕ, ◌+◌, ◌-◌, ◌/◌, ◌%◌, ◌*◌, List, get_or, set}
use test_resend.Prelude.Words.{u16}

-- `HDS_WriteCDR` and `HDS_ReaderCDR`: the buffer at `base_pos`, and `current_pos - base_pos`.
pub record Cdr : Type 0 where
  pub buf : List ℕ
  pub pos : ℕ

-- The constructors.
abbrev pub open_cdr : List ℕ → Cdr
open_cdr packet = record { buf = packet; pos = 0 }

-- `length()`
abbrev pub cdr_length : Cdr → ℕ
cdr_length c = c.pos

pub put_word : ℕ → ℕ → List ℕ → List ℕ
put_word p x buf =
    set (set (set (set buf p (x % 256)) (p + 1) (x / 256 % 256)) (p + 2) (x / 65536 % 256)) (p + 3)
      (x / 16777216 % 256)

pub get_word : ℕ → List ℕ → ℕ
get_word p buf =
    get_or buf p 0
    + get_or buf (p + 1) 0 * 256
    + get_or buf (p + 2) 0 * 65536
    + get_or buf (p + 3) 0 * 16777216

pub put_half : ℕ → ℕ → List ℕ → List ℕ
put_half p x buf = set (set buf p (x % 256)) (p + 1) (x / 256 % 256)

pub get_half : ℕ → List ℕ → ℕ
get_half p buf = get_or buf p 0 + get_or buf (p + 1) 0 * 256

-- `write_long` and `write_ulong` store the same pattern.
unfoldable pub write_ulong : ℕ → Cdr → Cdr
write_ulong x c = record { buf = put_word c.pos x c.buf; pos = c.pos + 4 }

-- `write_short` and `write_ushort`
unfoldable pub write_ushort : ℕ → Cdr → Cdr
write_ushort x c = record { buf = put_half c.pos x c.buf; pos = c.pos + 2 }

-- `write_char`
unfoldable pub write_char : ℕ → Cdr → Cdr
write_char x c = record { buf = set c.buf c.pos (x % 256); pos = c.pos + 1 }

-- `read_long` and `read_ulong`
unfoldable pub read_ulong : Cdr → ℕ × Cdr
read_ulong c = (get_word c.pos c.buf, record c { pos = c.pos + 4 })

-- `read_short` and `read_ushort`
unfoldable pub read_ushort : Cdr → ℕ × Cdr
read_ushort c = (get_half c.pos c.buf, record c { pos = c.pos + 2 })

-- `read_char`
unfoldable pub read_char : Cdr → ℕ × Cdr
read_char c = (get_or c.buf c.pos 0, record c { pos = c.pos + 1 })

-- `skip_long` and `skip_ulong`
unfoldable pub skip_long : Cdr → Cdr
skip_long c = record c { pos = c.pos + 4 }

-- The `_ID32` words of a `Connection_ID`.
pub record ConnectionId : Type 0 where
  pub id0 : ℕ
  pub id1 : ℕ

-- What `CONNECTION_FILL_HEADER` writes and `CONNECTION_UNFILL_HEADER` reads beside the type.
pub record Header : Type 0 where
  pub con_id : ConnectionId
  pub send_time : ℕ
  pub dt_note : ℕ

-- `CONNECTION_FILL_HEADER`
pub fill_header : ℕ → Header → Cdr → Cdr
unfolding write_ulong
fill_header msgtype h c = write_ulong h.dt_note (
    write_ulong h.send_time
      (write_ulong h.con_id.id0 (write_ulong h.con_id.id1 (write_ulong msgtype c))))

-- `CONNECTION_UNFILL_HEADER`; the reader that it leaves stands at `recv_data`.
pub unfill_header : Cdr → Header × Cdr
unfolding read_ulong skip_long
unfill_header c =
    let c0 = skip_long c in
    let (first, c1) = read_ulong c0 in
    let (second, c2) = read_ulong c1 in
    let (send_time, c3) = read_ulong c2 in
    let (dt_note, c4) = read_ulong c3 in
    (
      record {
        con_id = record { id0 = first; id1 = second };
        send_time = send_time;
        dt_note = dt_note;
      },
      c4,
    )
