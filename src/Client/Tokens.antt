-- ===== src/Client/Tokens.antt =====
-- The names that `lookup` of lab2/src/client/fuseops.c finds in a path, and the buffers that it sends.
use stanford_cs240_sp21_labs.Base.{All, List, [], ap, arith, length, refl, take, ℕ, ◌++◌, ◌∙◌}
use stanford_cs240_sp21_labs.Base.{◌∷◌, ◌≡◌, ◌≢◌}
use stanford_cs240_sp21_labs.Base.Bytes.{Bytes, NoNul, c_str, terminated}
use stanford_cs240_sp21_labs.Client.Path.{grow, name_buffer, tokens}
use stanford_cs240_sp21_labs.Proto.{max_filename_buf, max_filename_length}
use stanford_cs240_sp21_labs.Server.Buffer.{c_str-copy_name, length-copy_name}

-- A file name: it is not empty and has no slash.
abbrev pub IsFileName : Bytes → Type 0
IsFileName [] = ⊥
IsFileName (b ∷ bs) = All (λ c. c ≢ b'/') (b ∷ bs)

-- The path of these names, each behind a slash.
abbrev pub spell : List Bytes → Bytes
spell [] = []
spell (name ∷ rest) = b'/' ∷ (name ++ spell rest)

grow_slash : (b : ℕ) (rest : Bytes) (ts : List Bytes) → grow b (b'/' ∷ rest) ts ≡ (b ∷ []) ∷ ts
grow_slash b rest [] = refl
grow_slash b rest (t ∷ ts) = refl

grow_name :
    (b c : ℕ) (rest t : Bytes) (ts : List Bytes)
    → c ≢ b'/'
    → grow b (c ∷ rest) (t ∷ ts) ≡ (b ∷ t) ∷ ts
grow_name b c rest t ts h = ground arith

tokens_step : (b : ℕ) (rest : Bytes) → b ≢ b'/' → tokens (b ∷ rest) ≡ grow b rest (tokens rest)
unfolding tokens
tokens_step b rest h = ground arith

-- A name at the start of a path is the first token, if the path ends behind it or a slash follows.
tokens-name :
    (b : ℕ) (name : Bytes) (rest : List Bytes)
    → IsFileName (b ∷ name)
    → tokens ((b ∷ name) ++ spell rest) ≡ (b ∷ name) ∷ tokens (spell rest)
tokens-name b [] [] h = tokens_step b [] h.0
tokens-name b [] (t ∷ rest) h =
    tokens_step b (spell (t ∷ rest)) h.0
    ∙ grow_slash b (t ++ spell rest) (tokens (spell (t ∷ rest)))
tokens-name b (c ∷ name) rest h =
    tokens_step b ((c ∷ name) ++ spell rest) h.0
    ∙ ap (grow b ((c ∷ name) ++ spell rest)) (tokens-name c name rest h.1)
    ∙ grow_name b c (name ++ spell rest) (c ∷ name) (tokens (spell rest)) h.1.0

pub tokens-spell : (names : List Bytes) → All IsFileName names → tokens (spell names) ≡ names
unfolding tokens
tokens-spell [] h = refl
tokens-spell ([] ∷ rest) h = absurd h.0
tokens-spell ((b ∷ name) ∷ rest) h =
    tokens-name b name rest h.0 ∙ ap (λ ts. (b ∷ name) ∷ ts) (tokens-spell rest h.1)

-- For a name without a NUL, the buffer is full, and what the server reads out of it is the name,
-- cut to 255 bytes, whatever lies behind the name in the client's memory.
pub name_buffer_lem :
    (memory : Bytes → Bytes) (name : Bytes)
    → NoNul name
    → (length (name_buffer memory name) ≡ max_filename_buf)
      × (c_str (name_buffer memory name) ≡ take max_filename_length name)
unfolding name_buffer
name_buffer_lem memory name h =
    (length-copy_name (terminated name ++ memory name), c_str-copy_name name (memory name) h)
