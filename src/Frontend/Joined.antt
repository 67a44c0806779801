-- ===== src/Frontend/Joined.antt =====
-- `tokenize` of src/base/utils.cpp against the texts that a delimiter joins.
use Prim.Native.Char.{Char, code}
use Prim.Native.String.{String}
use aim_simulator.Base.{ℕ, ◌≡◌, refl, ap, ◌∙◌, true, false, List, [], ◌∷◌, ◌==◌, All, arith}
use aim_simulator.Frontend.Tokens.{
  is_space, is_empty, push_front, split, strip, keep_tokens, tokenize,
}

-- No character of a text is the delimiter or white space.
abbrev pub IsClean : ℕ → String → Type 0
IsClean d String.[] = Unit
IsClean d (String.◌∷◌ c s) = ((code c == d) ≡ false) × (is_space (code c) ≡ false) × IsClean d s

abbrev pub IsToken : ℕ → String → Type 0
IsToken d s = IsClean d s × (is_empty s ≡ false)

-- A text before another, with a delimiter between them.
abbrev pub before : Char → String → String → String
before d String.[] t = String.◌∷◌ d t
before d (String.◌∷◌ c s) t = String.◌∷◌ c (before d s t)

abbrev pub joined : Char → List String → String
joined d [] = String.[]
joined d (t ∷ []) = t
joined d (t ∷ u ∷ ts) = before d t (joined d (u ∷ ts))

code_self : (d : Char) → (code d == code d) ≡ true
code_self d = ground arith

split-before :
    (d : Char) (s t : String)
    → IsClean (code d) s
    → split (code d) (before d s t) ≡ s ∷ split (code d) t
unfolding split
split-before d String.[] t h = rw (code_self d) refl
split-before d (String.◌∷◌ c s) t h = rw (h.0) (ap (push_front c) (split-before d s t h.2))

split-clean : (d : ℕ) (s : String) → IsClean d s → split d s ≡ s ∷ []
unfolding split
split-clean d String.[] h = refl
split-clean d (String.◌∷◌ c s) h = rw (h.0) (ap (push_front c) (split-clean d s h.2))

strip-clean : (d : ℕ) (s : String) → IsClean d s → strip s ≡ s
unfolding strip
strip-clean d String.[] h = refl
strip-clean d (String.◌∷◌ c s) h = rw (h.1) (ap (String.◌∷◌ c) (strip-clean d s h.2))

keep_tokens-cons :
    (d : ℕ) (t : String) (ts : List String)
    → IsToken d t
    → keep_tokens (t ∷ ts) ≡ t ∷ keep_tokens ts
unfolding keep_tokens
keep_tokens-cons d t ts h = rw (strip-clean d t h.0, h.1) refl

-- Tokens that a delimiter joins are found again, in order: texts that are not empty and have neither
-- the delimiter nor white space in them.
pub tokenize-joined :
    (d : Char) (ts : List String) → All (IsToken (code d)) ts → tokenize (code d) (joined d ts) ≡ ts
unfolding tokenize
tokenize-joined d [] h = unfold split keep_tokens strip in refl
tokenize-joined d (t ∷ []) h =
    rw (split-clean (code d) t h.0.0)
      (keep_tokens-cons (code d) t [] h.0 ∙ unfold keep_tokens in refl)
tokenize-joined d (t ∷ u ∷ ts) h =
    rw (split-before d t (joined d (u ∷ ts)) h.0.0)
      (keep_tokens-cons (code d) t _ h.0 ∙ ap (λ l. t ∷ l) (tokenize-joined d (u ∷ ts) h.1))
