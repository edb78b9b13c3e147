-- ===== src/Buffer/Queue.antt =====
-- The buffer as a queue of bytes.
mod Space
unfoldable pub use Space.{content}
pub use Space.{IsSound}
use pika_panlei.Base.{
  ℕ, zero, suc, ◌+◌, ◌-◌, ◌≤◌, min, ◌≡◌, refl, sym, ap, ap₂, ◌∙◌, inl, inr, false, ◌||◌, some, List,
  [], ◌∷◌, ◌++◌, PString, length, take, drop, ltb, leb, le→ltb, ◌==◌, if◌then◌else◌, arith,
  length-append, length-take, length-drop, take-append, drop-append_le, take-drop, drop-drop,
  append_assoc, append-nil, Bool-cases,
}
use pika_panlei.Buffer.{
  UnboundedBuffer, max_buffer_size, readable_size, writable_size, assure_space, overwrite,
  push_data_at, push_data, peek_data_at, peek_data,
}
use Space.{length-content, assure_space-Assured}

-- The bytes that are written behind the content are appended to it.
content-overwrite :
    (p_data : PString) (b : UnboundedBuffer)
    → IsSound b
    → length p_data ≤ writable_size b
    → content (record b {
      write_pos = b.write_pos + length p_data;
      buffer = overwrite b.write_pos p_data b.buffer;
    })
      ≡ content b ++ p_data
unfolding content overwrite
content-overwrite p_data b v h =
    let w = b.write_pos in
    let front = take w b.buffer in
    let rest = drop (w + length p_data) b.buffer in
    let size : length front ≡ w = omega (arith, length-take w b.buffer, v.in_buffer) in
    let n : w + length p_data ≡ length (front ++ p_data) =
      omega (arith, size, length-append front p_data) in
    take-drop b.read_pos (w + length p_data) (front ++ (p_data ++ rest))
    ∙ ap (drop b.read_pos)
        (ap₂ take n (sym (append_assoc front p_data rest)) ∙ take-append (front ++ p_data) rest)
    ∙ drop-append_le b.read_pos front p_data (omega (arith, size, v.ordered))
    ∙ ap (λ t. t ++ p_data) (sym (take-drop b.read_pos w b.buffer))

length-overwrite :
    (i : ℕ) (p_data : PString) (bs : List ℕ)
    → i + length p_data ≤ length bs
    → length (overwrite i p_data bs) ≡ length bs
unfolding overwrite
length-overwrite i p_data bs h = omega (
  arith,
  length-append (take i bs) (p_data ++ drop (i + length p_data) bs),
  length-append p_data (drop (i + length p_data) bs),
  length-take i bs,
  length-drop (i + length p_data) bs,
)

push_into :
    (x : ℕ) (xs : PString) (b : UnboundedBuffer)
    → IsSound b
    → suc (length xs) + readable_size b ≤ max_buffer_size
    → push_data (x ∷ xs) b
      ≡ some (
        suc (length xs),
        record (assure_space (suc (length xs)) b) {
          write_pos = (assure_space (suc (length xs)) b).write_pos + suc (length xs);
          buffer =
              overwrite
                (assure_space (suc (length xs)) b).write_pos
                (x ∷ xs)
                (assure_space (suc (length xs)) b).buffer;
        },
      )
unfolding push_data push_data_at
push_into x xs b v h =
    let n = suc (length xs) in
    let e : n + 0 ≡ n = omega arith in
    let f : (n == 0 || readable_size b == max_buffer_size) ≡ false = ground arith in
    let g : ltb (writable_size (assure_space n b)) n ≡ false =
      le→ltb (writable_size (assure_space n b)) n (assure_space-Assured n b v h).room in
    let i : (assure_space n b).write_pos + 0 ≡ (assure_space n b).write_pos = omega arith in
    rw (e, f, g, i, push_data, push_data_at) refl

push_nothing : (b : UnboundedBuffer) → push_data [] b ≡ some (0, b)
unfolding push_data push_data_at
push_nothing b =
    let e : b.write_pos + 0 ≡ b.write_pos = omega arith in
    ap (λ w. some (0, record b { write_pos = w })) e

-- On a buffer whose positions are in order and in the vector, and as long as the content with the
-- new bytes is within MAX_BUFFER_SIZE, `PushData` does not fail its assertion, appends the bytes to
-- the content, returns how many there are, and keeps the positions in order.
pub push_data-content :
    (p_data : PString) (b : UnboundedBuffer)
    → IsSound b
    → length p_data + length (content b) ≤ max_buffer_size
    → (b' : UnboundedBuffer) × (push_data p_data b ≡ some (length p_data, b'))
      × (content b' ≡ content b ++ p_data)
      × IsSound b'
push_data-content [] b v h = (b, push_nothing b, sym (append-nil (content b)), v)
push_data-content (x ∷ xs) b v h =
    let n = suc (length xs) in
    let le : n + readable_size b ≤ max_buffer_size = omega (arith, h, length-content b v) in
    let a = assure_space-Assured n b v le in
    let b₁ = assure_space n b in
    let in_room : b₁.write_pos + n ≤ length b₁.buffer = omega (arith, a.room, a.sound.in_buffer) in
    (
      _,
      push_into x xs b v le,
      content-overwrite (x ∷ xs) b₁ a.sound a.room ∙ ap (λ t. t ++ (x ∷ xs)) a.same,
      record {
        ordered = omega (arith, a.sound.ordered);
        in_buffer =
            omega (arith, length-overwrite b₁.write_pos (x ∷ xs) b₁.buffer in_room, in_room);
      },
    )

take-take : (n d : ℕ) (l : PString) → take n (take d l) ≡ take (min n d) l
take-take zero d l = let e : min 0 d ≡ 0 = omega arith in rw e refl
take-take (suc n) zero l = let e : min (suc n) 0 ≡ 0 = omega arith in rw e refl
take-take (suc n) (suc d) [] =
    let e : min (suc n) (suc d) ≡ suc (min n d) = omega arith in rw e refl
take-take (suc n) (suc d) (x ∷ l) =
    let e : min (suc n) (suc d) ≡ suc (min n d) = omega arith in rw e (ap (◌∷◌ x) (take-take n d l))

drop-min : (n : ℕ) (t : PString) → drop (min n (length t)) t ≡ drop n t
drop-min zero t = let e : min 0 (length t) ≡ 0 = omega arith in rw e refl
drop-min (suc n) [] = let e : min (suc n) 0 ≡ 0 = omega arith in rw e refl
drop-min (suc n) (x ∷ t) =
    let e : min (suc n) (suc (length t)) ≡ suc (min n (length t)) = omega arith in
    rw e (drop-min n t)

peek_data_at_lem :
    (n : ℕ) (b : UnboundedBuffer)
    → peek_data_at n 0 b ≡ take (min n (readable_size b)) (drop b.read_pos b.buffer)
unfolding peek_data_at
peek_data_at_lem n b =
    let d = readable_size b in
    elim (Bool-cases (n == 0 || leb d 0)) [
      | inl e ↦
          let z : 0 ≡ min n d = ground arith in rw e (ap (λ k. take k (drop b.read_pos b.buffer)) z)
      | inr e ↦
          let m : (if ltb d (n + 0) then d - 0 else n) ≡ min n d = ground arith in
          let r : b.read_pos + 0 ≡ b.read_pos = omega arith in
          rw e (ap₂ (λ k i. take k (drop i b.buffer)) m r)
    ]

length-peek_data_at :
    (n : ℕ) (b : UnboundedBuffer)
    → IsSound b
    → length (peek_data_at n 0 b) ≡ min n (readable_size b)
length-peek_data_at n b v = omega (
  arith,
  ap length (peek_data_at_lem n b),
  length-take (min n (readable_size b)) (drop b.read_pos b.buffer),
  length-drop b.read_pos b.buffer,
  v.ordered,
  v.in_buffer,
)

content-skip :
    (m : ℕ) (b : UnboundedBuffer)
    → m ≤ readable_size b
    → content (record b { read_pos = b.read_pos + m }) ≡ drop m (content b)
unfolding content
content-skip m b h =
    let e : b.write_pos - (b.read_pos + m) ≡ readable_size b - m = omega arith in
    ap₂ take e (sym (drop-drop m b.read_pos b.buffer))
    ∙ take-drop m (readable_size b) (drop b.read_pos b.buffer)

-- On a buffer whose positions are in order and in the vector, `PeekData` takes the first bytes off
-- the content, as many as there are up to the size, and keeps the positions in order.
pub peek_data-content :
    (n_size : ℕ) (b : UnboundedBuffer)
    → IsSound b
    → ((peek_data n_size b).0 ≡ take n_size (content b))
      × (content (peek_data n_size b).1 ≡ drop n_size (content b))
      × IsSound (peek_data n_size b).1
unfolding peek_data content
peek_data-content n_size b v =
    let d = readable_size b in
    let len = length-peek_data_at n_size b v in
    let m : min n_size (length (content b)) ≡ min n_size d = omega (arith, length-content b v) in
    (
      peek_data_at_lem n_size b ∙ sym (take-take n_size d (drop b.read_pos b.buffer)),
      content-skip (length (peek_data_at n_size 0 b)) b (omega (arith, len))
          ∙ ap (λ k. drop k (content b)) (len ∙ sym m)
          ∙ drop-min n_size (content b),
      record { ordered = omega (arith, len, v.ordered); in_buffer = v.in_buffer },
    )
