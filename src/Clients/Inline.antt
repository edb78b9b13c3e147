-- ===== src/Clients/Inline.antt =====
-- `processInlineCmd` of src/client.cc: a command in one line of words.
use pika_panlei.Base.{
  ℕ, ◌+◌, ◌-◌, ◌%◌, ◌^◌, ◌<◌, ℤ, pos, ◌≡◌, refl, sym, ap, ap₂, ◌∙◌, Bool, false, ◌&&◌, ◌||◌, List,
  [], ◌∷◌, ◌++◌, PString, All, crlf, length, length-append, append_assoc, append-nil, ◌==◌,
  if◌then◌else◌, arith,
}
use pika_panlei.Common.Number.{to_int32}
use pika_panlei.Store.{is_empty}

-- `isblank` in the C locale.
unfoldable pub is_blank : ℕ → Bool
is_blank c = c == b' ' || c == b'\t'

-- `if (!res.empty()) params.emplace_back(res)`
unfoldable pub flush : PString → List PString → List PString
flush [] params = params
flush (c ∷ res) params = params ++ (c ∷ res) ∷ []

-- The loop, from the index `i` on: how many bytes the line has, and its words.
unfoldable pub inline_loop : PString → PString → List PString → ℕ → ℕ × List PString
unfolding is_blank flush
inline_loop (a ∷ b ∷ rest) res params i =
    let blank = inline_loop (b ∷ rest) [] (flush res params) (i + 1) in
    let letter = inline_loop (b ∷ rest) (res ++ a ∷ []) params (i + 1) in
    if a == 13 && b == 10 then (i + 2, flush res params) else if is_blank a then blank else letter
inline_loop (a ∷ []) res params i = (0, params)
inline_loop [] res params i = (0, params)

-- Zero bytes stand for a line that is not complete. Their number is cut to an `int`.
unfoldable pub process_inline_cmd : PString → ℤ × List PString
unfolding inline_loop
process_inline_cmd buf =
    let (len, params) = inline_loop buf [] [] 0 in (to_int32 (len % 2 ^ 32), params)

-- A byte of a word.
abbrev pub IsLetter : ℕ → Type 0
IsLetter c = (is_blank c ≡ false) × ((c == 13) ≡ false)

-- A word that is not empty.
pub record IsWord (w : PString) : Type 0 where
  pub letters : All IsLetter w
  pub inside : is_empty w ≡ false

-- The words of a line, a blank between two.
unfoldable pub line : List PString → PString
line [] = []
line (w ∷ []) = w
line (w ∷ v ∷ ws) = w ++ b' ' ∷ line (v ∷ ws)

inline_loop-letter :
    (a c : ℕ) (rest res : PString) (params : List PString) (i : ℕ)
    → IsLetter a
    → inline_loop (a ∷ c ∷ rest) res params i
      ≡ inline_loop (c ∷ rest) (res ++ a ∷ []) params (i + 1)
unfolding inline_loop
inline_loop-letter a c rest res params i h = rw (h.0, h.1) refl

inline_loop-letters :
    (w : PString) (c : ℕ) (rest res : PString) (params : List PString) (i : ℕ)
    → All IsLetter w
    → inline_loop (w ++ c ∷ rest) res params i
      ≡ inline_loop (c ∷ rest) (res ++ w) params (i + length w)
inline_loop-letters [] c rest res params i h =
    ap₂ (λ r n. inline_loop (c ∷ rest) r params n) (sym (append-nil res)) (omega arith)
inline_loop-letters (a ∷ []) c rest res params i h =
    inline_loop-letter a c rest res params i h.0
    ∙ ap (inline_loop (c ∷ rest) (res ++ a ∷ []) params) (omega arith)
inline_loop-letters (a ∷ b ∷ w) c rest res params i h =
    inline_loop-letter a b (w ++ c ∷ rest) res params i h.0
    ∙ inline_loop-letters (b ∷ w) c rest (res ++ a ∷ []) params (i + 1) h.1
    ∙ ap₂ (λ r n. inline_loop (c ∷ rest) r params n) (append_assoc res (a ∷ []) (b ∷ w))
        (omega arith)

inline_loop-blank :
    (rest res : PString) (params : List PString) (i : ℕ)
    → is_empty rest ≡ false
    → inline_loop (b' ' ∷ rest) res params i ≡ inline_loop rest [] (flush res params) (i + 1)
unfolding inline_loop is_blank
inline_loop-blank [] res params i h = absurd (ground arith)
inline_loop-blank (c ∷ rest) res params i h = refl

line-inside :
    (w : PString) (ws : List PString) (tail : PString)
    → is_empty (line (w ∷ ws) ++ (crlf ++ tail)) ≡ false
unfolding line
line-inside [] [] tail = refl
line-inside (a ∷ w) [] tail = refl
line-inside [] (v ∷ ws) tail = refl
line-inside (a ∷ w) (v ∷ ws) tail = refl

flush-word :
    (w : PString) (params : List PString) → is_empty w ≡ false → flush w params ≡ params ++ w ∷ []
unfolding flush
flush-word [] params h = absurd (ground arith)
flush-word (c ∷ w) params h = refl

inline_loop-crlf :
    (tail res : PString) (params : List PString) (i : ℕ)
    → inline_loop (crlf ++ tail) res params i ≡ (i + 2, flush res params)
unfolding inline_loop
inline_loop-crlf tail res params i = refl

inline_loop-line :
    (ws : List PString) (tail : PString) (params : List PString) (i : ℕ)
    → All IsWord ws
    → inline_loop (line ws ++ (crlf ++ tail)) [] params i ≡ (i + length (line ws) + 2, params ++ ws)
unfolding line flush
inline_loop-line [] tail params i h =
    inline_loop-crlf tail [] params i ∙ ap₂ (λ n l. (n, l)) (omega arith) (sym (append-nil params))
inline_loop-line (w ∷ []) tail params i h =
    inline_loop-letters w 13 (10 ∷ tail) [] params i h.0.letters
    ∙ inline_loop-crlf tail w params (i + length w)
    ∙ ap (λ l. (i + length w + 2, l)) (flush-word w params h.0.inside)
inline_loop-line (w ∷ v ∷ ws) tail params i h =
    let rest = line (v ∷ ws) ++ (crlf ++ tail) in
    let whole : line (w ∷ v ∷ ws) ++ (crlf ++ tail) ≡ w ++ b' ' ∷ rest =
      append_assoc w (b' ' ∷ line (v ∷ ws)) (crlf ++ tail) in
    ap (λ buf. inline_loop buf [] params i) whole
    ∙ inline_loop-letters w b' ' rest [] params i h.0.letters
    ∙ inline_loop-blank rest w params (i + length w) (line-inside v ws tail)
    ∙ ap (λ l. inline_loop rest [] l (i + length w + 1)) (flush-word w params h.0.inside)
    ∙ inline_loop-line (v ∷ ws) tail (params ++ w ∷ []) (i + length w + 1) h.1
    ∙ ap₂ (λ n l. (n, l)) (omega (arith, length-append w (b' ' ∷ line (v ∷ ws))))
        (append_assoc params (w ∷ []) (v ∷ ws))

-- A line shorter than 2^31 - 2 bytes of words that are not empty and have no blank and no CR, with
-- one blank between two words and none behind the last, closed by CRLF, is read by
-- `processInlineCmd` to exactly these words, and the bytes behind the CRLF are left.
pub process_inline_cmd-line :
    (ws : List PString) (tail : PString)
    → length (line ws) < 2 ^ 31 - 2
    → All IsWord ws
    → process_inline_cmd (line ws ++ (crlf ++ tail)) ≡ (pos (length (line ws) + 2), ws)
unfolding process_inline_cmd
process_inline_cmd-line ws tail short h =
    let n = length (line ws) + 2 in
    let same : n % 2 ^ 32 ≡ n = omega arith in
    let positive : to_int32 n ≡ pos n = ground arith in
    ap (λ (p : ℕ × List PString). (to_int32 (p.0 % 2 ^ 32), p.1)) (inline_loop-line ws tail [] 0 h)
    ∙ ap (λ m. (to_int32 (m % 2 ^ 32), ws)) (omega arith)
    ∙ ap (λ z. (z, ws)) (ap to_int32 same ∙ positive)
