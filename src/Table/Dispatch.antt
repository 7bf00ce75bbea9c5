-- ===== src/Table/Dispatch.antt =====
-- The first word of a packet, and `connection::filter_data` of
-- hds_udp/connection/HDS_UDP_Connection.cpp, which picks the handler by it.
use test_resend.Prelude.{ℕ, ◌≢◌, ◌==◌, if◌then◌else◌}
use test_resend.Connection.{
  MsgType, simple_file_require, simple_file_data, simple_file_ack, simple_file_rejected,
  simple_file_require_duplicate, complex_file_require, complex_file_data, complex_file_ack,
  complex_file_rejected, complex_file_sack, complex_file_require_duplicate, msg_reset,
}

-- The numbers of hds_udp/config/HDS_UDP_Kernel_Config.h.
unfoldable pub word_of : MsgType → ℕ
word_of simple_file_require = 115
word_of simple_file_data = 116
word_of simple_file_ack = 117
word_of simple_file_rejected = 118
word_of simple_file_require_duplicate = 119
word_of complex_file_require = 100
word_of complex_file_data = 101
word_of complex_file_ack = 102
word_of complex_file_rejected = 103
word_of complex_file_sack = 104
word_of complex_file_require_duplicate = 105
word_of msg_reset = 106

-- The function that a packet goes to; any other word is a message of the application.
pub data Handler : Type 0 where
  to_start_recver to_network_data to_require_duplicate to_connection_reset to_application : Handler

unfoldable pub filter_data : ℕ → Handler
filter_data word =
    if word == 115
    then to_start_recver
    else if word == 100
    then to_start_recver
    else if word == 117
    then to_network_data
    else if word == 116
    then to_network_data
    else if word == 102
    then to_network_data
    else if word == 101
    then to_network_data
    else if word == 104
    then to_network_data
    else if word == 119
    then to_require_duplicate
    else if word == 105
    then to_require_duplicate
    else if word == 106
    then to_connection_reset
    else if word == 118
    then to_connection_reset
    else if word == 103
    then to_connection_reset
    else to_application

-- A packet of the transport itself is never taken for a message of the application.
filter_data-word_of : (type : MsgType) → filter_data (word_of type) ≢ to_application
unfolding filter_data word_of
filter_data-word_of simple_file_require e = cc
filter_data-word_of simple_file_data e = cc
filter_data-word_of simple_file_ack e = cc
filter_data-word_of simple_file_rejected e = cc
filter_data-word_of simple_file_require_duplicate e = cc
filter_data-word_of complex_file_require e = cc
filter_data-word_of complex_file_data e = cc
filter_data-word_of complex_file_ack e = cc
filter_data-word_of complex_file_rejected e = cc
filter_data-word_of complex_file_sack e = cc
filter_data-word_of complex_file_require_duplicate e = cc
filter_data-word_of msg_reset e = cc
