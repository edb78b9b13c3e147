-- ===== src/Tests/Dumps/Packing.antt =====
-- A compression that packs a text of one repeated byte into that byte.
use pika_panlei.Base.{
  ℕ, zero, suc, pos_part, ◌≤◌, ◌≡◌, refl, Bool, true, false, ◌&&◌, Option, none, some, [], ◌∷◌,
  PString, length, length-take, take, replicate, ◌==◌, if◌then◌else◌, arith,
}
use pika_panlei.Common.Number.Print.{print_nat}
use pika_panlei.Common.Number.Strtol.{strtol}
use pika_panlei.Tests.Ranks.{numbers}
use pika_panlei.Store.{is_empty}
use pika_panlei.Dump.{Codecs}
use pika_panlei.Dump.Packed.{IsLossless}
use pika_panlei.Dump.Objects.{IsBrief}

-- The text is this byte, repeated.
repeats : ℕ → PString → Bool
repeats b [] = true
repeats b (x ∷ xs) = x == b && repeats b xs

replicate-repeats : (b : ℕ) (xs : PString) → repeats b xs ≡ true → replicate (length xs) b ≡ xs
unfolding repeats
replicate-repeats b [] h = refl
replicate-repeats b (x ∷ xs) h = ground (arith, replicate-repeats b xs)

unfoldable pub pack_run : PString → ℕ → PString
unfolding repeats
pack_run [] n = []
pack_run (b ∷ bs) zero = []
pack_run (b ∷ bs) (suc n) = if repeats b bs then b ∷ [] else []

unfoldable pub unpack_run : PString → ℕ → Option PString
unpack_run [] n = none
unpack_run (b ∷ bs) n = some (replicate n b)

abbrev pub codecs : Codecs ℕ
codecs = record {
  doubles = numbers;
  is_nan = λ score. false;
  is_finite = λ score. true;
  print = λ score. take 6 (print_nat score);
  read = λ text. elim (strtol text) [ none ↦ 0 | some z ↦ pos_part z ];
  not_a_number = 0;
  infinity = 0;
  compress = pack_run;
  decompress = unpack_run;
  ziplist = λ text. none;
  intset = λ text. [];
  crc64 = length;
}

within : (str : PString) (n : ℕ) → length (codecs.compress str n) ≤ n
unfolding pack_run
within [] n = omega arith
within (b ∷ bs) zero = omega arith
within (b ∷ bs) (suc n) = ground arith

unpacks :
    (str : PString) (n : ℕ)
    → is_empty (codecs.compress str n) ≡ false
    → codecs.decompress (codecs.compress str n) (length str) ≡ some str
unfolding pack_run unpack_run
unpacks [] n h = cc h
unpacks (b ∷ bs) zero h = cc h
unpacks (b ∷ bs) (suc n) h = ground (arith, replicate-repeats b bs)

pub lossless : IsLossless codecs
lossless = record { within = within; unpacks = unpacks }

pub brief : IsBrief codecs
brief score = omega (arith, length-take 6 (print_nat score))
