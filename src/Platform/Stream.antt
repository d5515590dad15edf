-- ===== src/Platform/Stream.antt =====
-- The memory streams of src/platform/platform.c: a temporary `FILE`, with the calls of <stdio.h>
-- that the send buffer makes on it. A write to a temporary file is taken to succeed.
use newth.Prelude.{ℕ, ◌+◌, ◌-◌, [], ◌++◌, Bytes, length, take, drop}

pub record Stream : Type 0 where
  pub contents : Bytes
  pub pos : ℕ

-- The offset and origin of a seek. The program seeks back from the current place, never forward.
pub data Seek : Type 0 where
  from_start : ℕ → Seek
  back_from_current : ℕ → Seek
  from_end : Seek

unfoldable pub platform_memory_stream_new : Stream
platform_memory_stream_new = record { contents = []; pos = 0 }

unfoldable pub platform_memory_stream_seek : Stream → Seek → Stream
platform_memory_stream_seek s (Seek.from_start n) = record s { pos = n }
platform_memory_stream_seek s (Seek.back_from_current n) = record s { pos = s.pos - n }
platform_memory_stream_seek s Seek.from_end = record s { pos = length s.contents }

unfoldable pub platform_memory_stream_tell : Stream → ℕ
platform_memory_stream_tell s = s.pos

-- `fread(data, 1, n, stream)`
unfoldable pub fread : ℕ → Stream → Bytes × Stream
fread n s = let got = take n (drop s.pos s.contents) in (got, record s { pos = s.pos + length got })

-- `fwrite(data, 1, len, stream)`
unfoldable pub fwrite : Bytes → Stream → Stream
fwrite bytes s = record {
  contents = take s.pos s.contents ++ (bytes ++ drop (s.pos + length bytes) s.contents);
  pos = s.pos + length bytes;
}
