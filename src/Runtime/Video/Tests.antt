-- ===== src/Runtime/Video/Tests.antt =====
-- icd_runtime/video.py: runs of `encode` and `decode` on a frame of two datagrams.
use hil_simulation.Common.{◌≡◌, refl, none, some, List, [], ◌∷◌, length, get_elem?, replicate}
use hil_simulation.Common.Bytes.{Bytes}
use hil_simulation.Common.Result.{ok, err}
use hil_simulation.Runtime.Wire.Layout.{Checksums}
use hil_simulation.Runtime.Video.{
  VideoHeader, VideoRules, h264, validate_header, validate_frame, packet, packets_from, encode,
  decode,
}
use hil_simulation.Runtime.Video.Packets.{
  IsFrozen, fragment_at, encode_video_total, decode-encode_video,
}

abbrev rules : VideoRules
rules = record {
  chunk_bytes = 1152;
  max_datagram_bytes = 1200;
  max_frame_bytes = 2097152;
  max_fragments = 1821;
  queue_frames = 4;
  reassembly_timeout_ms = 100;
}

abbrev checksums : Checksums
checksums = record { crc_hqx = λ bytes. 0; binascii_crc32 = λ bytes. 0xcbf43926 }

rules-IsFrozen : IsFrozen rules
rules-IsFrozen = record { chunk = refl; datagram = refl; frame = refl; fragments = refl }

abbrev header : VideoHeader
header = record {
  session_id = 5;
  stream_numeric_id = 2;
  frame_index = 0;
  capture_step = 40;
  pts_us = 40_000;
  codec = h264;
}

-- 1200 bytes.
abbrev picture : Bytes
picture = 0 ∷ 0 ∷ 1 ∷ replicate 1197 9

picture_valid : validate_frame rules picture header ≡ ok tt
unfolding validate_frame validate_header
picture_valid = refl

encode_video_total_example :
    (packets : List Bytes) × (encode rules checksums picture header ≡ ok packets)
    × (length packets ≡ 2)
encode_video_total_example =
    encode_video_total rules checksums rules-IsFrozen picture header picture_valid

abbrev packets : List Bytes
packets = elim (encode rules checksums picture header) [ ok ps ↦ ps | err code ↦ [] ]

picture_encodes : encode rules checksums picture header ≡ ok packets
unfolding encode validate_frame validate_header packets_from packet
picture_encodes = refl

abbrev second : Bytes
second = elim (get_elem? packets 1) [ some p ↦ p | none ↦ [] ]

second_there : get_elem? packets 1 ≡ some second
unfolding encode validate_frame validate_header packets_from packet
second_there = refl

decode-encode_video_example :
    decode rules checksums second ≡ ok (fragment_at rules checksums rules-IsFrozen picture header 1)
decode-encode_video_example =
    decode-encode_video rules checksums rules-IsFrozen picture header 1 picture_encodes second_there
