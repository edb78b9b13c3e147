-- ===== src/Buffer.antt =====
-- `UnboundedBuffer` of src/net/unbounded_buffer.h and src/net/unbounded_buffer.cc, to which replies
-- are appended. (`Shrink` asserts a property of `capacity()`, which the C++ library leaves open, and
-- is left out. The sum of a size and an offset is below 2^64.)
pub mod Queue
use pika_panlei.Base.{
  ℕ, zero, suc, ◌+◌, ◌-◌, ◌/◌, ◌^◌, Bool, true, false, ◌&&◌, ◌||◌, not, Option, none, some, List,
  [], ◌∷◌, ◌++◌, PString, length, take, drop, replicate, ltb, leb, ◌==◌, if◌then◌else◌,
}

pub record UnboundedBuffer : Type 0 where
  pub read_pos : ℕ
  pub write_pos : ℕ
  pub buffer : List ℕ

abbrev pub max_buffer_size : ℕ
max_buffer_size = (2 ^ 64 - 1) / 2

abbrev pub readable_size : UnboundedBuffer → ℕ
readable_size b = b.write_pos - b.read_pos

abbrev pub writable_size : UnboundedBuffer → ℕ
writable_size b = length b.buffer - b.write_pos

-- The loop of `assureSpace`: the new size of the vector. The fuel bounds the rounds.
unfoldable pub grow : ℕ → ℕ → ℕ → ℕ → ℕ → ℕ
grow zero n_size read write max_size = max_size
grow (suc fuel) n_size read write max_size =
    let next = if ltb max_size 64 then 64 else max_size + max_size / 2 in
    let rest = grow fuel n_size read write next in
    if leb n_size (max_size - write + read)
    then max_size
    else if not (ltb max_size 64) && ltb max_buffer_size max_size
    then max_size
    else rest

-- `buffer_.resize` to a size that is not smaller.
unfoldable pub enlarge : ℕ → List ℕ → List ℕ
enlarge n bs = bs ++ replicate (n - length bs) 0

-- The `memmove` to the front.
unfoldable pub compact : UnboundedBuffer → UnboundedBuffer
compact b =
    if ltb 0 b.read_pos
    then record {
      read_pos = 0;
      write_pos = readable_size b;
      buffer = take (readable_size b) (drop b.read_pos b.buffer) ++ drop (readable_size b) b.buffer;
    }
    else b

unfoldable pub assure_space : ℕ → UnboundedBuffer → UnboundedBuffer
unfolding grow enlarge compact
assure_space n_size b =
    if leb n_size (writable_size b)
    then b
    else compact (record b {
      buffer = enlarge (grow n_size n_size b.read_pos b.write_pos (length b.buffer)) b.buffer;
    })

-- `memcpy` to a position.
unfoldable pub overwrite : ℕ → PString → List ℕ → List ℕ
overwrite i p_data bs = take i bs ++ (p_data ++ drop (i + length p_data) bs)

-- How many bytes were written; `none` for the failed assertion. A null pointer is empty data.
unfoldable pub push_data_at : PString → ℕ → UnboundedBuffer → Option (ℕ × UnboundedBuffer)
unfolding assure_space overwrite
push_data_at p_data offset b =
    let b' = assure_space (length p_data + offset) b in
    if length p_data == 0 || readable_size b == max_buffer_size
    then some (0, b)
    else if ltb (writable_size b') (length p_data + offset)
    then none
    else some
        (length p_data, record b' { buffer = overwrite (b'.write_pos + offset) p_data b'.buffer })

unfoldable pub push_data : PString → UnboundedBuffer → Option (ℕ × UnboundedBuffer)
unfolding push_data_at
push_data p_data b = elim (push_data_at p_data 0 b) [
  | none ↦ none
  | some (n, b') ↦ some (n, record b' { write_pos = b'.write_pos + n })
]

-- The bytes that are copied out.
unfoldable pub peek_data_at : ℕ → ℕ → UnboundedBuffer → PString
peek_data_at n_size offset b =
    let data_size = readable_size b in
    if n_size == 0 || leb data_size offset
    then []
    else take (if ltb data_size (n_size + offset) then data_size - offset else n_size)
        (drop (b.read_pos + offset) b.buffer)

unfoldable pub peek_data : ℕ → UnboundedBuffer → PString × UnboundedBuffer
unfolding peek_data_at
peek_data n_size b =
    let p_data = peek_data_at n_size 0 b in
    (p_data, record b { read_pos = b.read_pos + length p_data })

unfoldable pub clear : UnboundedBuffer → UnboundedBuffer
clear b = record b { read_pos = 0; write_pos = 0 }
