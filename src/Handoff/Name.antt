-- ===== src/Handoff/Name.antt =====
-- handoff/handoff.go: ToolName.
use Prim.Native.Char.{Char, code}
use Prim.Native.String.{String, ◌++◌}
use agentturn.Base.{ℕ, zero, suc, ◌-◌, Bool, ◌&&◌, ◌||◌, leb, ltb, if◌then◌else◌}

abbrev char_at : ℕ → Char → String → Char
char_at n c String.[] = c
char_at zero c (String.◌∷◌ d s) = d
char_at (suc n) c (String.◌∷◌ d s) = char_at n c s

-- unicode.ToLower, of a character below 128.
abbrev pub to_lower : Char → Char
to_lower c =
    if leb b'A' (code c) && leb (code c) b'Z'
    then char_at (code c - b'A') c "abcdefghijklmnopqrstuvwxyz"
    else c

abbrev pub is_word : ℕ → Bool
is_word c = (leb b'a' c && leb c b'z') || (leb b'A' c && leb c b'Z') || (leb b'0' c && leb c b'9')

abbrev pub underscore : Char
underscore = "_"

abbrev pub tool_char : Char → Char
tool_char c = if ltb (code c) 127 && is_word (code c) then to_lower c else underscore

unfoldable pub tool_chars : String → String
tool_chars String.[] = String.[]
tool_chars (String.◌∷◌ c s) = String.◌∷◌ (tool_char c) (tool_chars s)

unfoldable pub tool_name : String → String
unfolding tool_chars
tool_name agent = "transfer_to_" ++ tool_chars agent
