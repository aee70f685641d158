-- ===== src/Server/Buffer.antt =====
-- The buffer of 256 bytes in which a file name travels: `memset` and `memcpy` of 255 bytes, as
-- `handle_readdir` of lab2/src/server/handlers.c and the client's functions fill it.
use stanford_cs240_sp21_labs.Base.{[], arith, length, length-append, length-replicate}
use stanford_cs240_sp21_labs.Base.{length-take, refl, replicate, suc, take, true, zero, ℕ, ◌++◌}
use stanford_cs240_sp21_labs.Base.{◌-◌, ◌∷◌, ◌≡◌}
use stanford_cs240_sp21_labs.Base.Bytes.{Bytes, NoNul, c_str, ends_in_nul, terminated}
use stanford_cs240_sp21_labs.Proto.{max_filename_buf, max_filename_length}
use stanford_cs240_sp21_labs.Server.Readdir.{copy_name}

-- The NULs behind the copied bytes: at least one.
padding : Bytes → ℕ
padding front = max_filename_length - length front

copy_name-padding :
    (name : Bytes)
    → copy_name name
      ≡ take max_filename_length name ++ (0 ∷ replicate (padding (take max_filename_length name)) 0)
unfolding copy_name padding
copy_name-padding name =
    let front = take max_filename_length name in
    let room : max_filename_buf - length front ≡ suc (max_filename_length - length front) =
      omega (arith, length-take max_filename_length name) in
    rw room refl

pub length-copy_name : (name : Bytes) → length (copy_name name) ≡ max_filename_buf
unfolding copy_name
length-copy_name name =
    let front = take max_filename_length name in
    omega (
      arith,
      length-append front (replicate (max_filename_buf - length front) 0),
      length-replicate {A = ℕ} (max_filename_buf - length front) 0,
      length-take max_filename_length name,
    )

ends_in_nul-zeros : (k : ℕ) → ends_in_nul (0 ∷ replicate k 0) ≡ true
unfolding ends_in_nul
ends_in_nul-zeros zero = refl
ends_in_nul-zeros (suc k) = ends_in_nul-zeros k

ends_in_nul-append :
    (s : Bytes) (b : ℕ) (t : Bytes) → ends_in_nul (s ++ (b ∷ t)) ≡ ends_in_nul (b ∷ t)
unfolding ends_in_nul
ends_in_nul-append [] b t = refl
ends_in_nul-append (c ∷ []) b t = refl
ends_in_nul-append (c ∷ d ∷ s) b t = ends_in_nul-append (d ∷ s) b t

pub ends_in_nul-copy_name : (name : Bytes) → ends_in_nul (copy_name name) ≡ true
ends_in_nul-copy_name name =
    let front = take max_filename_length name in
    rw (copy_name-padding name, ends_in_nul-append front 0 (replicate (padding front) 0))
      (ends_in_nul-zeros (padding front))

-- The C string in a buffer that was cut out of a longer one.
c_str-take :
    (n : ℕ) (s memory zeros : Bytes)
    → NoNul s
    → c_str (take n (terminated s ++ memory) ++ (0 ∷ zeros)) ≡ take n s
unfolding c_str
c_str-take zero s memory zeros h = refl
c_str-take (suc n) [] memory zeros h = refl
c_str-take (suc n) (b ∷ s) memory zeros h = ground (arith, c_str-take n s memory zeros h.1)

-- The string that is read out of the buffer is the first 255 bytes of the one that was put in,
-- whatever lies behind that in memory.
pub c_str-copy_name :
    (s memory : Bytes)
    → NoNul s
    → c_str (copy_name (terminated s ++ memory)) ≡ take max_filename_length s
c_str-copy_name s memory h =
    rw (copy_name-padding (terminated s ++ memory)) (c_str-take max_filename_length s memory _ h)
