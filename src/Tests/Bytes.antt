-- ===== src/Tests/Bytes.antt =====
-- A buffer that has to move and to grow.
use pika_panlei.Base.{◌+◌, ◌≤◌, ◌≡◌, some, ◌++◌, length, take, drop, arith, codes}
use pika_panlei.Buffer.{UnboundedBuffer, max_buffer_size, push_data, peek_data}
use pika_panlei.Buffer.Queue.{IsSound, content, push_data-content, peek_data-content}

abbrev bytes : UnboundedBuffer
bytes = record { read_pos = 1; write_pos = 3; buffer = codes "abcd" }

sound : IsSound bytes
sound = record { ordered = omega arith; in_buffer = omega arith }

small : 3 + length (content bytes) ≤ max_buffer_size
unfolding content
small = omega arith

push_data-content_example :
    (b' : UnboundedBuffer) × (push_data (codes "xyz") bytes ≡ some (3, b'))
    × (content b' ≡ content bytes ++ codes "xyz")
    × IsSound b'
push_data-content_example = push_data-content (codes "xyz") bytes sound small

peek_data-content_example :
    ((peek_data 1 bytes).0 ≡ take 1 (content bytes))
    × (content (peek_data 1 bytes).1 ≡ drop 1 (content bytes))
    × IsSound (peek_data 1 bytes).1
peek_data-content_example = peek_data-content 1 bytes sound
