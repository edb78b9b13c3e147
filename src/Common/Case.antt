-- ===== src/Common/Case.antt =====
-- `strncasecmp` on a whole text, and `tolower`, in the C locale.
use pika_panlei.Base.{ℕ, ◌+◌, Bool, ◌&&◌, PString, str_eq, leb, if◌then◌else◌, map}

unfoldable pub to_lower : ℕ → ℕ
to_lower c = if leb b'A' c && leb c b'Z' then c + 32 else c

-- The text, in lower case, is the word. The word has no zero byte.
unfoldable pub is_word : PString → PString → Bool
unfolding to_lower
is_word text word = str_eq (map to_lower text) word
