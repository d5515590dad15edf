-- ===== src/Server/SendBuffer/Tests.antt =====
-- Runs of the send buffer, and its theorems at concrete inputs.
use newth.Prelude.{◌+◌, ◌≡◌, refl, ◌⊎◌, some, none, [], ◌∷◌, ◌++◌, codes, length, arith}
use newth.Platform.Stream.{fread, fwrite, platform_memory_stream_new, platform_memory_stream_seek}
use newth.Platform.Socket.{Net, Reply, answer, send}
use newth.Server.SendBuffer.{
  SendBuffer, soc_buf_err_fail, send_buffer_new, send_buffer_flush, send_buffer_write_data,
  send_buffer_printf,
}
use newth.Server.SendBuffer.Order.{
  pending, IsValid, Writes, send_buffer_flush_lem, send_buffer_write_data_lem,
}
use newth.Server.SendBuffer.Drain.{send_buffer_flush_drains}

-- Five bytes in the stream, the first of them sent.
abbrev half_sent : SendBuffer
half_sent = record {
  idx = 1;
  buffer = some (record { contents = codes "abcde"; pos = 5 });
  client_socket = 3;
  options = 0;
}

abbrev slow : Net
slow = record { replies = Reply.room 3 ∷ Reply.room 2 ∷ []; wire = codes "a" }

abbrev open_socket : Net
open_socket = record { replies = Reply.room 9 ∷ Reply.room 9 ∷ []; wire = codes "a" }

flush_in_part : (send_buffer_flush 2 half_sent slow).2.wire ≡ codes "abcde"
unfolding send_buffer_flush fread send answer platform_memory_stream_seek
flush_in_part = refl

write_in_part :
    pending (send_buffer_write_data (send_buffer_new 3 0) (codes "hello") slow).1 ≡ codes "lo"
unfolding send_buffer_write_data send answer platform_memory_stream_new fwrite send_buffer_new
write_in_part = refl

printf_past_the_end : send_buffer_printf (send_buffer_new 3 0) 5 (codes "hello") slow ≡ none
unfolding send_buffer_printf send_buffer_new
printf_past_the_end = refl

half_sent-IsValid : IsValid half_sent
half_sent-IsValid = omega arith

send_buffer_flush_lem_example :
    let (n, self', net') = send_buffer_flush 2 half_sent slow in
    (net'.wire ++ pending self' ≡ codes "abcde")
    × IsValid self'
    × (((self'.options ≡ 0) × (length net'.wire ≡ 1 + n))
        ⊎ ((self'.options ≡ soc_buf_err_fail) × (n ≡ 0)))
send_buffer_flush_lem_example =
    send_buffer_flush_lem 2 (omega arith) half_sent slow half_sent-IsValid

send_buffer_write_data_lem_example :
    Writes (codes "abcde") (codes "fg") 0 (send_buffer_write_data half_sent (codes "fg") slow)
send_buffer_write_data_lem_example =
    send_buffer_write_data_lem half_sent (codes "fg") slow half_sent-IsValid

send_buffer_flush_drains_example :
    let (n, self', net') = send_buffer_flush 2 half_sent open_socket in
    (self'.buffer ≡ none) × (net'.wire ≡ codes "abcde")
send_buffer_flush_drains_example =
    send_buffer_flush_drains 2 (omega arith) half_sent open_socket half_sent-IsValid (omega arith)
      (omega arith)
