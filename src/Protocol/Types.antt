-- ===== src/Protocol/Types.antt =====
-- crates/ceky-protocol/src/types.rs: message types, flags, headers and frames, with the constants of
-- crates/ceky-protocol/src/lib.rs. A `Bytes` or `Vec<u8>` is the list of its bytes.
pub mod Laws
mod Tests
use ceky_p2p.Common.{
  ℕ, ◌+◌, ◌*◌, ◌%◌, ◌^◌, bit_and, bit_or, Bool, true, not, Option, none, some, List, [], ◌==◌,
  if◌then◌else◌, length,
}

abbrev pub magic_bytes : ℕ
magic_bytes = 0xCE4B

abbrev pub protocol_version : ℕ
protocol_version = 1

abbrev pub header_size : ℕ
header_size = 21

abbrev pub max_payload_size : ℕ
max_payload_size = 16 * 1024 * 1024

-- `data_message` is `Data`.
pub data MessageType : Type 0 where
  handshake ping pong disconnect find_node find_node_resp store store_resp find_value : MessageType
  find_value_resp data_message data_ack credit_update file_offer file_accept file_reject :
      MessageType
  file_chunk file_chunk_ack file_complete file_cancel nat_probe nat_probe_resp hole_punch :
      MessageType
  hole_punch_resp relay_request relay_data : MessageType

unfoldable pub as_byte : MessageType → ℕ
as_byte handshake = 0x01
as_byte ping = 0x02
as_byte pong = 0x03
as_byte disconnect = 0x04
as_byte find_node = 0x10
as_byte find_node_resp = 0x11
as_byte store = 0x12
as_byte store_resp = 0x13
as_byte find_value = 0x14
as_byte find_value_resp = 0x15
as_byte data_message = 0x20
as_byte data_ack = 0x21
as_byte credit_update = 0x22
as_byte file_offer = 0x23
as_byte file_accept = 0x24
as_byte file_reject = 0x25
as_byte file_chunk = 0x26
as_byte file_chunk_ack = 0x27
as_byte file_complete = 0x28
as_byte file_cancel = 0x29
as_byte nat_probe = 0x30
as_byte nat_probe_resp = 0x31
as_byte hole_punch = 0x32
as_byte hole_punch_resp = 0x33
as_byte relay_request = 0x34
as_byte relay_data = 0x35

unfoldable pub from_byte : ℕ → Option MessageType
from_byte b =
    if b == 0x01
    then some handshake
    else (if b == 0x02
        then some ping
        else (if b == 0x03
            then some pong
            else (if b == 0x04
                then some disconnect
                else (if b == 0x10
                    then some find_node
                    else (if b == 0x11
                        then some find_node_resp
                        else (if b == 0x12
                            then some store
                            else (if b == 0x13
                                then some store_resp
                                else (if b == 0x14
                                    then some find_value
                                    else (if b == 0x15
                                        then some find_value_resp
                                        else (if b == 0x20
                                            then some data_message
                                            else (if b == 0x21
                                                then some data_ack
                                                else (if b == 0x22
                                                    then some credit_update
                                                    else (if b == 0x23
                                                        then some file_offer
                                                        else (if b == 0x24
                                                            then some file_accept
                                                            else (if b == 0x25
                                                            then some file_reject
                                                            else (if b == 0x26
                                                            then some file_chunk
                                                            else (if b == 0x27
                                                            then some file_chunk_ack
                                                            else (if b == 0x28
                                                            then some file_complete
                                                            else (if b == 0x29
                                                            then some file_cancel
                                                            else (if b == 0x30
                                                            then some nat_probe
                                                            else (if b == 0x31
                                                            then some nat_probe_resp
                                                            else (if b == 0x32
                                                            then some hole_punch
                                                            else (if b == 0x33
                                                            then some hole_punch_resp
                                                            else (if b == 0x34
                                                            then some relay_request
                                                            else (if b == 0x35
                                                            then some relay_data
                                                            else none)))))))))))))))))))))))))

-- The bits of the flags: 0 encrypted, 1 compressed, 2 fragmented, 3 priority.
pub record Flags : Type 0 where
  pub bits : ℕ

abbrev pub flag_encrypted : ℕ
flag_encrypted = 0b0000_0001

abbrev pub flag_compressed : ℕ
flag_compressed = 0b0000_0010

abbrev pub flag_fragmented : ℕ
flag_fragmented = 0b0000_0100

abbrev pub flag_priority : ℕ
flag_priority = 0b0000_1000

abbrev pub empty_flags : Flags
empty_flags = record { bits = 0 }

has_flag : Flags → ℕ → Bool
has_flag f mask = not (bit_and f.bits mask == 0)

with_flag : Flags → ℕ → Flags
with_flag f mask = record { bits = bit_or f.bits mask }

pub is_encrypted : Flags → Bool
unfolding has_flag
is_encrypted f = has_flag f flag_encrypted

pub is_compressed : Flags → Bool
unfolding has_flag
is_compressed f = has_flag f flag_compressed

pub is_fragmented : Flags → Bool
unfolding has_flag
is_fragmented f = has_flag f flag_fragmented

pub is_priority : Flags → Bool
unfolding has_flag
is_priority f = has_flag f flag_priority

pub with_encrypted : Flags → Flags
unfolding with_flag
with_encrypted f = with_flag f flag_encrypted

pub with_compressed : Flags → Flags
unfolding with_flag
with_compressed f = with_flag f flag_compressed

pub with_fragmented : Flags → Flags
unfolding with_flag
with_fragmented f = with_flag f flag_fragmented

pub with_priority : Flags → Flags
unfolding with_flag
with_priority f = with_flag f flag_priority

pub record FrameHeader : Type 0 where
  pub magic : ℕ
  pub version : ℕ
  pub msg_type : MessageType
  pub flags : Flags
  pub payload_len : ℕ
  pub request_id : ℕ
  pub checksum : ℕ

pub record Frame : Type 0 where
  pub header : FrameHeader
  pub payload : List ℕ

-- `Frame::new`; the length of the payload is cut to a u32.
unfoldable pub new_frame : MessageType → Flags → ℕ → List ℕ → Frame
new_frame msg_type flags request_id payload = record {
  header = record {
    magic = magic_bytes;
    version = protocol_version;
    msg_type = msg_type;
    flags = flags;
    payload_len = length payload % 2 ^ 32;
    request_id = request_id;
    checksum = 0;
  };
  payload = payload;
}

unfoldable pub simple_frame : MessageType → ℕ → Frame
unfolding new_frame
simple_frame msg_type request_id = new_frame msg_type empty_flags request_id []

unfoldable pub wire_size : Frame → ℕ
wire_size f = header_size + length f.payload
