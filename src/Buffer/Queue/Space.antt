-- ===== src/Buffer/Queue/Space.antt =====
-- The room that `assureSpace` makes, and the content that it keeps.
use pika_panlei.Base.{
  ℕ, zero, suc, ◌+◌, ◌-◌, ◌/◌, ◌≤◌, ◌≡◌, refl, ap, ◌∙◌, inl, inr, List, ◌++◌, PString, length, take,
  drop, replicate, ltb, leb, arith, length-append, length-take, length-drop, length-replicate,
  take-append_le, take-all, drop-append_le, Bool-cases,
}
use pika_panlei.Buffer.{
  UnboundedBuffer, max_buffer_size, readable_size, writable_size, grow, enlarge, compact,
  assure_space,
}

-- The bytes between the two positions.
unfoldable pub content : UnboundedBuffer → PString
content b = take (readable_size b) (drop b.read_pos b.buffer)

pub record IsSound (b : UnboundedBuffer) : Type 0 where
  pub ordered : b.read_pos ≤ b.write_pos
  pub in_buffer : b.write_pos ≤ length b.buffer

pub length-content : (b : UnboundedBuffer) → IsSound b → length (content b) ≡ readable_size b
unfolding content
length-content b v = omega (
  arith,
  length-take (readable_size b) (drop b.read_pos b.buffer),
  length-drop b.read_pos b.buffer,
  v.ordered,
  v.in_buffer,
)

-- The loop never makes the vector smaller, and with fuel for the bytes that are missing it makes
-- room for them.
grow_le : (fuel n r w size : ℕ) → size ≤ grow fuel n r w size
unfolding grow
grow_le zero n r w size = omega arith
grow_le (suc fuel) n r w size =
    ground (arith, grow_le fuel n r w 64, grow_le fuel n r w (size + size / 2))

grow_enough :
    (fuel n r w size : ℕ)
    → w ≤ size
    → n + w ≤ max_buffer_size + r
    → n + w ≤ size + r + fuel
    → n + w ≤ grow fuel n r w size + r
unfolding grow
grow_enough zero n r w size h m f = omega arith
grow_enough (suc fuel) n r w size h m f =
    ground (arith, grow_enough fuel n r w 64, grow_enough fuel n r w (size + size / 2))

length-enlarge : (n : ℕ) (bs : List ℕ) → length bs ≤ n → length (enlarge n bs) ≡ n
unfolding enlarge
length-enlarge n bs h = omega (
  arith,
  length-append bs (replicate (n - length bs) 0),
  length-replicate {A = ℕ} (n - length bs) 0,
)

-- A longer vector has the same content.
content-append :
    (b : UnboundedBuffer) (zs : List ℕ)
    → IsSound b
    → content (record b { buffer = b.buffer ++ zs }) ≡ content b
unfolding content
content-append b zs v =
    ap (take (readable_size b))
      (drop-append_le b.read_pos b.buffer zs (omega (arith, v.ordered, v.in_buffer)))
    ∙ take-append_le (readable_size b) (drop b.read_pos b.buffer) zs
        (omega (arith, length-drop b.read_pos b.buffer, v.ordered, v.in_buffer))

-- The move to the front keeps the content, and gives its place to the bytes behind it.
record Moved (b b' : UnboundedBuffer) : Type 0 where
  pub same : content b' ≡ content b
  pub sound : IsSound b'
  pub size : length b'.buffer ≡ length b.buffer
  pub room : b'.write_pos ≡ readable_size b

moved_content : (n : ℕ) (bs cs : List ℕ) → n ≤ length bs → take n (take n bs ++ cs) ≡ take n bs
moved_content n bs cs h =
    take-append_le n (take n bs) cs (omega (arith, length-take n bs))
    ∙ take-all n (take n bs) (omega (arith, length-take n bs))

minus_zero : (n : ℕ) → n - 0 ≡ n
minus_zero n = omega arith

compact-Moved : (b : UnboundedBuffer) → IsSound b → Moved b (compact b)
unfolding compact content
compact-Moved b v =
    let d = readable_size b in
    let long : length (drop b.read_pos b.buffer) ≡ length b.buffer - b.read_pos =
      length-drop b.read_pos b.buffer in
    let size : length (take d (drop b.read_pos b.buffer) ++ drop d b.buffer) ≡ length b.buffer =
      omega (
        arith,
        length-append (take d (drop b.read_pos b.buffer)) (drop d b.buffer),
        length-take d (drop b.read_pos b.buffer),
        long,
        length-drop d b.buffer,
        v.ordered,
        v.in_buffer,
      ) in
    elim (Bool-cases (ltb 0 b.read_pos)) [
      | inl h ↦ rw h (record {
        same =
            ap (λ k. take k (take d (drop b.read_pos b.buffer) ++ drop d b.buffer)) (minus_zero d)
            ∙ moved_content d (drop b.read_pos b.buffer) (drop d b.buffer)
                (omega (arith, long, v.ordered, v.in_buffer));
        sound = record {
          ordered = omega arith;
          in_buffer = omega (arith, size, v.ordered, v.in_buffer);
        };
        size = size;
        room = refl;
      })
      | inr h ↦ rw h (record { same = refl; sound = v; size = refl; room = ground arith })
    ]

-- What `assureSpace` leaves: the content, and room for the bytes.
pub record Assured (n : ℕ) (b b' : UnboundedBuffer) : Type 0 where
  pub same : content b' ≡ content b
  pub sound : IsSound b'
  pub room : n ≤ writable_size b'

abbrev enlarged : ℕ → UnboundedBuffer → UnboundedBuffer
enlarged n b = record b {
  buffer = enlarge (grow n n b.read_pos b.write_pos (length b.buffer)) b.buffer;
}

content-enlarged : (n : ℕ) (b : UnboundedBuffer) → IsSound b → content (enlarged n b) ≡ content b
unfolding enlarge
content-enlarged n b v = content-append b _ v

compacted :
    (n : ℕ) (b : UnboundedBuffer)
    → IsSound b
    → n + readable_size b ≤ max_buffer_size
    → Assured n b (compact (enlarged n b))
compacted n b v h =
    let size = grow n n b.read_pos b.write_pos (length b.buffer) in
    let le = grow_le n n b.read_pos b.write_pos (length b.buffer) in
    let long : length (enlarged n b).buffer ≡ size = length-enlarge size b.buffer le in
    let v' : IsSound (enlarged n b) = record {
      ordered = v.ordered;
      in_buffer = omega (arith, long, le, v.in_buffer);
    } in
    let m = compact-Moved (enlarged n b) v' in
    let enough =
      grow_enough n n b.read_pos b.write_pos (length b.buffer) v.in_buffer
        (omega (arith, h, v.ordered)) (omega (arith, v.in_buffer)) in
    record {
      same = m.same ∙ content-enlarged n b v;
      sound = m.sound;
      room = omega (arith, m.size, m.room, long, enough, v.ordered);
    }

pub assure_space-Assured :
    (n : ℕ) (b : UnboundedBuffer)
    → IsSound b
    → n + readable_size b ≤ max_buffer_size
    → Assured n b (assure_space n b)
unfolding assure_space
assure_space-Assured n b v h = elim (Bool-cases (leb n (writable_size b))) [
  | inl e ↦ rw e (record { same = refl; sound = v; room = ground arith })
  | inr e ↦ rw e (compacted n b v h)
]
