-- ===== src/Tests/Dumps.antt =====
-- A dump file, with the compression of Tests/Dumps/Packing.antt.
mod Packing
use pika_panlei.Base.{
  ℕ, zero, suc, ◌<◌, pos, negsuc, ◌≡◌, ◌≢◌, refl, true, false, some, List, [], ◌∷◌, ◌++◌, PString,
  codes, replicate, get_or, All, str_eq, arith,
}
use pika_panlei.Base.Dict
use pika_panlei.Base.Dict.{Dict, is_some}
use pika_panlei.Common.Number.Print.{print_nat, print_int}
use pika_panlei.Common.Number.Strtol.{strtol}
use pika_panlei.Store.{Value, Object, Env, Store, db, expire_keys}
use pika_panlei.Store.View.{value_of, is_expired}
use pika_panlei.SortedSet.{SortedSet}
use pika_panlei.Tests.Ranks.{one_member}
use pika_panlei.Strings.{decoded}
use pika_panlei.Strings.Laws.{canonical}
use pika_panlei.SortedSet.{empty_set, add_member}
use pika_panlei.Dump.Stored.{IsReady}
use pika_panlei.Dump.Texts.{saved_text}
use pika_panlei.Dump.Replay.{time_of}
use pika_panlei.Dump.Input.{Reads}
use pika_panlei.Dump.Objects.{saved_value, load_object-save_object}
use pika_panlei.Dump.Number.{number2str, number2str-print_int}
use pika_panlei.Dump.Save.{save_lzf_string, save_object, type_byte}
use pika_panlei.Dump.Load.{load_object}
use pika_panlei.Dump.File.{unfinished, ended, save, load}
use pika_panlei.Dump.Ends.{load-ends}
use pika_panlei.Dump.Whole.{at_db}
use pika_panlei.Dump.Effects.{leave, leave-at_db}
use pika_panlei.Dump.Restart.{IsKeptEntry, IsPortable, IsBlank, load-save-Restores}
use Packing.{codecs, lossless, brief, pack_run}

-- Two databases. A key expires at 900, and a text is packed.
abbrev entry : Value (SortedSet ℕ) → Object (SortedSet ℕ)
entry v = record { lru = 1; value = v }

abbrev zeros : PString
zeros = replicate 24 b'z'

abbrev first_db : Dict (Object (SortedSet ℕ))
first_db =
    (codes "t", entry (Value.raw (codes "old")))
    ∷ (codes "h", entry (Value.hash ((codes "f", zeros) ∷ [])))
    ∷ []

abbrev second_db : Dict (Object (SortedSet ℕ))
second_db =
    (codes "n", entry (Value.int (negsuc 41)))
    ∷ (codes "l", entry (Value.list (codes "a" ∷ codes "300" ∷ [])))
    ∷ []

abbrev saved : Store (SortedSet ℕ)
saved = record {
  dbs = first_db ∷ second_db ∷ [];
  expired_dbs = ((codes "t", 900) ∷ []) ∷ [] ∷ [];
  wait_sync = [];
  dbno = 0;
  lruclock = 3;
}

abbrev blank : Store (SortedSet ℕ)
blank = record {
  dbs = [] ∷ [] ∷ [];
  expired_dbs = [] ∷ [] ∷ [];
  wait_sync = [];
  dbno = 0;
  lruclock = 5;
}

abbrev at_time : ℕ → Env (SortedSet ℕ)
at_time t = record { backends = []; now = t; saving = false }

saved-unique : (m : ℕ) → Dict.IsUnique (get_or saved.dbs m [])
unfolding Dict.lookup str_eq
saved-unique zero = (refl, (refl, tt))
saved-unique (suc zero) = (refl, (refl, tt))
saved-unique (suc (suc m)) = tt

kept_zeros : saved_text codecs zeros ≡ zeros
unfolding saved_text pack_run save_lzf_string canonical strtol
kept_zeros = refl

saved-entries : (m : ℕ) → All (IsKeptEntry codecs 800 (at_db m saved)) (get_or saved.dbs m [])
unfolding decoded saved_text time_of is_expired Dict.lookup str_eq pack_run canonical strtol
    print_int
saved-entries zero = (
  ((omega arith, omega arith), refl, refl, refl, omega arith),
  (
    (
      ((omega arith, (omega arith, ((omega arith, omega arith), tt)))),
      refl,
      ((refl, kept_zeros, tt), (refl, tt)),
      refl,
      omega arith,
    ),
    tt,
  ),
)
saved-entries (suc zero) = (
  ((omega arith, omega arith), refl, omega arith, refl, omega arith),
  (
    (
      (omega arith, (omega arith, (omega arith, (omega arith, tt)))),
      refl,
      (refl, (refl, tt)),
      refl,
      omega arith,
    ),
    tt,
  ),
)
saved-entries (suc (suc m)) = tt

saved-IsPortable : IsPortable codecs 800 saved
saved-IsPortable = record {
  selected = omega arith;
  few = omega arith;
  unique = saved-unique;
  entries = saved-entries;
}

nothing {ℓ} : {A : Type ℓ} (m : ℕ) → get_or {A = List A} ([] ∷ [] ∷ []) m [] ≡ []
nothing zero = refl
nothing (suc zero) = refl
nothing (suc (suc m)) = refl

blank-IsBlank : IsBlank codecs saved blank
blank-IsBlank = record {
  as_many = omega arith;
  as_many_expired = omega arith;
  no_values = nothing;
  no_times = nothing;
}

load-save-Restores_example :
    (file : PString) × (t' : Store (SortedSet ℕ)) × (save codecs (at_time 700) saved ≡ some file)
    × (load codecs (at_time 800) (some file) blank ≡ ended (pos 0) t')
    × ((n : ℕ) (key : PString)
        → n < 2
        → value_of (Dict.lookup key (db (at_db n t')))
          ≡ value_of (Dict.lookup key (db (at_db n saved))))
    × ((n : ℕ) (key : PString)
        → n < 2
        → is_some (Dict.lookup key (db (at_db n saved))) ≡ true
        → Dict.lookup key (expire_keys (at_db n t'))
          ≡ Dict.lookup key (expire_keys (at_db n saved)))
load-save-Restores_example =
    load-save-Restores codecs (at_time 700) (at_time 800) saved blank lossless brief (omega arith)
      saved-IsPortable blank-IsBlank

one_zset : saved_value codecs (Value.zset one_member) ≡ some (Value.zset one_member)
unfolding saved_value saved_text canonical strtol add_member Dict.lookup empty_set print_nat
    Dict.insert
one_zset = refl

abbrev zset_bytes : PString
zset_bytes = 1 ∷ 1 ∷ b'a' ∷ 1 ∷ b'7' ∷ []

one_zset_bytes : save_object codecs (Value.zset one_member) ≡ some zset_bytes
unfolding save_object strtol print_nat
one_zset_bytes = refl

load_object-save_object_example :
    Reads
      (load_object codecs (type_byte (Value.zset one_member)))
      zset_bytes
      (Value.zset one_member)
load_object-save_object_example =
    load_object-save_object codecs (Value.zset one_member) (Value.zset one_member) zset_bytes
      lossless brief (omega arith, (omega arith, tt)) one_zset one_zset_bytes

-- A database with a sorted set.
abbrev scored : Store (SortedSet ℕ)
scored = record {
  dbs = ((codes "z", entry (Value.zset one_member)) ∷ []) ∷ [];
  expired_dbs = [] ∷ [];
  wait_sync = [];
  dbno = 0;
  lruclock = 3;
}

abbrev at_last : Store (SortedSet ℕ)
at_last = record saved { dbno = 1 }

saved-IsReady : (m : ℕ) → IsReady codecs (at_time 700) (at_db m saved) (db (at_db m saved))
unfolding time_of is_expired Dict.lookup str_eq
saved-IsReady zero = (refl, refl, omega arith, (refl, refl, omega arith, tt))
saved-IsReady (suc zero) = (refl, refl, omega arith, (refl, refl, omega arith, tt))
saved-IsReady (suc (suc m)) = tt

leave-at_db_example : leave (at_time 700) saved ≡ some at_last
leave-at_db_example = leave-at_db codecs (at_time 700) saved (omega arith) saved-IsReady

number2str-print_int_example : number2str 16 (negsuc 41) ≡ some (print_int (negsuc 41))
unfolding print_int
number2str-print_int_example =
    number2str-print_int 16 (negsuc 41) (omega arith) (omega arith) (λ e. ground (arith, e))
