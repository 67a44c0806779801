-- ===== src/Frontend/Tokens.antt =====
-- src/base/utils.cpp: `tokenize`, for a delimiter of one character. A text is the native `String`.
use Prim.Native.Char.{Char, code}
use Prim.Native.String.{String}
use aim_simulator.Base.{ℕ, Bool, true, false, List, [], ◌∷◌, ◌==◌, ◌&&◌, ◌||◌, leb, if◌then◌else◌}

-- `::isspace` in the C locale.
abbrev pub is_space : ℕ → Bool
is_space c = c == 32 || (leb 9 c && leb c 13)

abbrev pub is_empty : String → Bool
is_empty String.[] = true
is_empty (String.◌∷◌ c s) = false

-- A character before the first piece.
abbrev pub push_front : Char → List String → List String
push_front c [] = String.◌∷◌ c String.[] ∷ []
push_front c (t ∷ ts) = String.◌∷◌ c t ∷ ts

-- The pieces between the delimiters, the last one included.
unfoldable pub split : ℕ → String → List String
split d String.[] = String.[] ∷ []
split d (String.◌∷◌ c s) =
    let rest = split d s in if code c == d then String.[] ∷ rest else push_front c rest

-- `token.erase(std::remove_if(…, ::isspace), token.end())`.
unfoldable pub strip : String → String
strip String.[] = String.[]
strip (String.◌∷◌ c s) = let rest = strip s in if is_space (code c) then rest else String.◌∷◌ c rest

-- `if (token != "") tokens.push_back(token)`.
unfoldable pub keep_tokens : List String → List String
keep_tokens [] = []
keep_tokens (t ∷ ts) =
    let rest = keep_tokens ts in
    let token = strip t in if is_empty token then rest else token ∷ rest

unfoldable pub tokenize : ℕ → String → List String
tokenize d line = keep_tokens (split d line)
