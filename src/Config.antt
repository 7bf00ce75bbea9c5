-- ===== src/Config.antt =====
-- hds_udp/config/HDS_UDP_Kernel_Config.h: the constants that the transport is compiled with.
use test_resend.Prelude.{ℕ, ◌^◌}

abbrev pub max_udp_packet_size : ℕ
max_udp_packet_size = 1472

abbrev pub packet_max_header_length : ℕ
packet_max_header_length = 20

-- `MAX_UDP_PACKET_SIZE-HDS_UDP_PACKET_MAX_HEADER_LENGTH`
abbrev pub packet_max_data_length : ℕ
packet_max_data_length = 1452

abbrev pub connection_mark_bits : ℕ
connection_mark_bits = 20

abbrev pub max_connection_count : ℕ
max_connection_count = 2 ^ 20

-- The size in bytes of the bitmap for selective repeat.
abbrev pub recv_bitmap_size : ℕ
recv_bitmap_size = 384

abbrev pub small_file_max_size : ℕ
small_file_max_size = 23232

abbrev pub default_ssthresh_size : ℕ
default_ssthresh_size = 92928

abbrev pub connection_default_rto : ℕ
connection_default_rto = 3000

abbrev pub connection_max_suspend_time : ℕ
connection_max_suspend_time = 1000

abbrev pub reset_reaction_time : ℕ
reset_reaction_time = 2000

abbrev pub recv_ack_timer : ℕ
recv_ack_timer = 200

abbrev pub recver_succ_timer : ℕ
recver_succ_timer = 100

abbrev pub connection_recv_check_dead_time : ℕ
connection_recv_check_dead_time = 75000

abbrev pub connection_send_try_time : ℕ
connection_send_try_time = 7

abbrev pub connection_min_rto : ℕ
connection_min_rto = 1000

abbrev pub connection_max_rto : ℕ
connection_max_rto = 8000
