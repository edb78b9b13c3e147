-- ===== src/Dump/Load.antt =====
-- `PDBLoader` up to the objects. `none` stands for an assertion that fails and for a read behind the
-- end of the file.
use pika_panlei.Base.{
  ℕ, zero, suc, ◌+◌, ◌*◌, ◌/◌, ◌%◌, ◌^◌, ℤ, pos, Bool, true, false, not, Option, none, some, List,
  [], ◌∷◌, ◌++◌, PString, length, ltb, ◌==◌, if◌then◌else◌,
}
use mathlib.Core.Option
use pika_panlei.Base.Dict
use pika_panlei.Base.Dict.{Dict, is_some}
use pika_panlei.Base.Members
use pika_panlei.Base.Members.{Members}
use pika_panlei.Store.{Value}
use pika_panlei.Strings.{create_string, decoded}
use pika_panlei.SortedSet.{SortedSet, add_member, empty_set}
use pika_panlei.Dump.{Codecs, Element, text, number}
use pika_panlei.Dump.Number.{number2str}
use pika_panlei.Dump.Input.{
  Reader, pure, fail, ◌>>=◌, ◌>>◌, check, read_byte, read_word, peek, skip,
}

-- The bytes in the other order, by `ntohl`.
unfoldable pub ntohl : ℕ → ℕ
ntohl n = n % 256 * 2 ^ 24 + n / 256 % 256 * 2 ^ 16 + n / 2 ^ 16 % 256 * 256 + n / 2 ^ 24 % 256

-- The rest of `LoadLength` by the first byte. The result is `special` and the length.
unfoldable pub length_of : ℕ → Reader (Bool × ℕ)
unfolding read_byte read_word ntohl
length_of byte =
    if ltb byte 64
    then pure (false, byte)
    else if ltb byte 128
    then (do low ← read_byte; pure (false, byte % 64 * 256 + low))
    else if ltb byte 192
    then (do word ← read_word 4; pure (false, ntohl word))
    else pure (true, byte % 64)

unfoldable pub load_length : Reader (Bool × ℕ)
unfolding length_of read_byte
load_length = do byte ← read_byte; length_of byte

-- `LoadLength` and `assert(!special)`
unfoldable pub load_size : Reader ℕ
unfolding load_length
load_size = do (special, len) ← load_length; check (not special); pure len

unfoldable pub load_string : ℕ → Reader PString
unfolding peek skip
load_string len = do str ← peek len; skip (length str); pure str

-- `insert` of the C++ library, which keeps an entry that is there.
unfoldable pub insert_new : PString → PString → Dict PString → Dict PString
insert_new k v h = if is_some (Dict.lookup k h) then h else Dict.insert k v h

-- With the buffer of 16 bytes; `none` for a number of 16 characters, which is closed behind it.
unfoldable pub element_text : Element → Option PString
unfolding number2str
element_text (text str) = some str
element_text (number val) = number2str 16 val

unfoldable pub list_elements : List Element → Option (List PString)
unfolding element_text
list_elements [] = some []
list_elements (e ∷ es) = elim (element_text e) [
  | none ↦ none
  | some str ↦ Option.map (◌∷◌ str) (list_elements es)
]

-- `none` also where the assertion on the number of elements fails.
unfoldable pub hash_elements : List Element → Dict PString → Option (Dict PString)
unfolding element_text insert_new
hash_elements [] h = some h
hash_elements (k ∷ []) h = none
hash_elements (k ∷ v ∷ es) h = elim (element_text k) [
  | none ↦ none
  | some key ↦ elim (element_text v) [
    | none ↦ none
    | some val ↦ hash_elements es (insert_new key val h)
  ]
]

unfoldable pub number_texts : List ℤ → Members → Option Members
unfolding number2str
number_texts [] s = some s
number_texts (v ∷ vs) s = elim (number2str 64 v) [
  | none ↦ none
  | some str ↦ number_texts vs (Members.insert str s)
]

module _ {S : Type 0} (c : Codecs S) where
  -- The text stays empty, and the packed bytes are not skipped, where they cannot be unpacked.
  unfoldable pub unpack : ℕ → ℕ → Reader PString
  unfolding peek skip
  unpack raw_len packed_len = do
    packed ← peek packed_len
    elim (c.decompress packed raw_len) [
      | none ↦ pure []
      | some val ↦ (do skip (length packed); pure val)
    ]

  unfoldable pub load_lzf_string : Reader PString
  unfolding load_size unpack
  load_lzf_string = do packed_len ← load_size; raw_len ← load_size; unpack raw_len packed_len

  unfoldable pub load_special_string_object : ℕ → Reader (Value (SortedSet S))
  unfolding read_byte read_word load_lzf_string
  load_special_string_object zero = do val ← read_byte; pure (Value.int (pos val))
  load_special_string_object (suc zero) = do val ← read_word 2; pure (Value.int (pos val))
  load_special_string_object (suc (suc zero)) = do val ← read_word 4; pure (Value.int (pos val))
  load_special_string_object (suc (suc (suc zero))) = do
    str ← load_lzf_string
    pure (create_string str)
  load_special_string_object (suc (suc (suc (suc n)))) = fail

  -- The two cases of `loadGenericString` and of `kTypeString` behind the length. The loops of the
  -- collections repeat the first.
  unfoldable pub string_of :
      {B : Type 0} → (Value (SortedSet S) → B) → (PString → B) → Bool → ℕ → Reader B
  unfolding load_special_string_object load_string
  string_of g h true len = do obj ← load_special_string_object len; pure (g obj)
  string_of g h false len = do str ← load_string len; pure (h str)

  unfoldable pub load_generic_string : Reader PString
  unfolding load_length string_of
  load_generic_string = do p ← load_length; string_of decoded (λ str. str) p.0 p.1

  unfoldable pub load_string_object : Reader (Value (SortedSet S))
  unfolding load_length string_of
  load_string_object = do p ← load_length; string_of (λ obj. obj) create_string p.0 p.1

  -- 255, which is written for minus infinity, is read as infinity.
  unfoldable pub double_of : ℕ → Reader S
  unfolding peek skip
  double_of byte =
      if byte == 253
      then pure c.not_a_number
      else if byte == 254
      then pure c.infinity
      else if byte == 255
      then pure c.infinity
      else (do val ← peek byte; check (length val == byte); skip byte; pure (c.read val))

  unfoldable pub load_double_value : Reader S
  unfolding read_byte double_of
  load_double_value = do byte ← read_byte; double_of byte

  unfoldable pub load_list : ℕ → List PString → Reader (List PString)
  unfolding load_generic_string
  load_list zero l = pure l
  load_list (suc n) l = do elem ← load_generic_string; load_list n (l ++ elem ∷ [])

  unfoldable pub load_set : ℕ → Members → Reader Members
  unfolding load_generic_string
  load_set zero s = pure s
  load_set (suc n) s = do elem ← load_generic_string; load_set n (Members.insert elem s)

  unfoldable pub load_hash : ℕ → Dict PString → Reader (Dict PString)
  unfolding load_generic_string insert_new
  load_hash zero h = pure h
  load_hash (suc n) h = do
    key ← load_generic_string
    val ← load_generic_string
    load_hash n (insert_new key val h)

  -- `AddMember` of the score as a whole number.
  unfoldable pub add_loaded : PString → S → SortedSet S → Option (SortedSet S)
  add_loaded member score z =
      add_member c.doubles member (c.doubles.of_long (c.doubles.to_long score)) z

  abbrev pub or_fail : {A : Type 0} → Option A → Reader A
  or_fail none = fail
  or_fail (some a) = pure a

  unfoldable pub load_zset : ℕ → SortedSet S → Reader (SortedSet S)
  unfolding load_generic_string load_double_value add_loaded
  load_zset zero z = pure z
  load_zset (suc n) z = do
    member ← load_generic_string
    score ← load_double_value
    z' ← or_fail (add_loaded member score z)
    load_zset n z'

  -- `none` also where `Strtod` fails, which leaves the score without a value.
  unfoldable pub element_score : Element → Option S
  element_score (text str) = c.doubles.strtod str
  element_score (number val) = some (c.doubles.of_long val)

  unfoldable pub zset_elements : List Element → SortedSet S → Option (SortedSet S)
  unfolding element_text element_score
  zset_elements [] z = some z
  zset_elements (m ∷ []) z = none
  zset_elements (m ∷ s ∷ es) z = elim (element_score s) [
    | none ↦ none
    | some score ↦ elim (element_text m) [
      | none ↦ none
      | some member ↦ elim (add_member c.doubles member score z) [
        | none ↦ none
        | some z' ↦ zset_elements es z'
      ]
    ]
  ]

  -- The cases of `loadZipList` on the elements, by type.
  unfoldable pub elements_value : ℕ → List Element → Option (Value (SortedSet S))
  unfolding list_elements hash_elements zset_elements
  elements_value type es =
      if type == 10
      then Option.map Value.list (list_elements es)
      else if type == 13
      then Option.map Value.hash (hash_elements es [])
      else if type == 12
      then Option.map Value.zset (zset_elements es empty_set)
      else none

  unfoldable pub load_zip_list : ℕ → Reader (Value (SortedSet S))
  unfolding load_generic_string elements_value
  load_zip_list type = do
    zl ← load_generic_string
    es ← or_fail (c.ziplist zl)
    or_fail (elements_value type es)

  unfoldable pub load_intset : Reader (Value (SortedSet S))
  unfolding load_generic_string number_texts
  load_intset = do
    str ← load_generic_string
    s ← or_fail (number_texts (c.intset str) [])
    pure (Value.set s)

  -- The loop of `loadQuickList`. An empty text is passed over.
  unfoldable pub quick_elements : PString → Reader (List PString)
  unfolding list_elements
  quick_elements [] = pure []
  quick_elements zl = do es ← or_fail (c.ziplist zl); or_fail (list_elements es)

  unfoldable pub load_quick_list : ℕ → List PString → Reader (List PString)
  unfolding load_generic_string quick_elements
  load_quick_list zero l = pure l
  load_quick_list (suc n) l = do
    zl ← load_generic_string
    es ← quick_elements zl
    load_quick_list n (l ++ es)

  unfoldable pub load_object : ℕ → Reader (Value (SortedSet S))
  unfolding load_string_object load_list load_set load_hash load_zset load_zip_list load_intset
      load_quick_list load_size load_length
  load_object type =
      if type == 0
      then load_string_object
      else if type == 1
      then (do len ← load_size; l ← load_list len []; pure (Value.list l))
      else if type == 10
      then load_zip_list 10
      else if type == 2
      then (do len ← load_size; s ← load_set len []; pure (Value.set s))
      else if type == 11
      then load_intset
      else if type == 4
      then (do len ← load_size; h ← load_hash len []; pure (Value.hash h))
      else if type == 13
      then load_zip_list 13
      else if type == 3
      then (do len ← load_size; z ← load_zset len empty_set; pure (Value.zset z))
      else if type == 12
      then load_zip_list 12
      else if type == 14
      then (do (special, len) ← load_length; l ← load_quick_list len []; pure (Value.list l))
      else fail
