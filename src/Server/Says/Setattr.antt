-- ===== src/Server/Says/Setattr.antt =====
-- What a reply to SETATTR says (lab2/src/server/handlers.c).
use Prim.Native.Nat.{bit_or}
use stanford_cs240_sp21_labs.Base.{Bool, arith, false, refl, true, ℕ, ◌&&◌, ◌<◌, ◌≡◌}
use stanford_cs240_sp21_labs.Base.Bytes.{Bytes}
use stanford_cs240_sp21_labs.Base.Exec.{Sys, checked, fail, ok, pure}
use stanford_cs240_sp21_labs.Base.Exec.Post.{Post, Post-any, Post-bind, Post-mono}
use stanford_cs240_sp21_labs.Comm.{call}
use stanford_cs240_sp21_labs.Platform.{Platform}
use stanford_cs240_sp21_labs.Proto.{Rep, SetattrArgs, SnfsError, error_rep, setattr_rep}
use stanford_cs240_sp21_labs.Proto.{setattr_size, setgid, setmode, setsize, settimes, setuid}
use stanford_cs240_sp21_labs.Server.Says.{Says, Says-bind, Says-bind_of, Says-checked, Says-error}
use stanford_cs240_sp21_labs.Server.Says.{Says-given, Says-reply}
use stanford_cs240_sp21_labs.Server.Setattr.{flagged, handle_setattr, set_attribute}
use stanford_cs240_sp21_labs.Server.Setattr.{set_attributes}
use stanford_cs240_sp21_labs.World.{Server, World}

-- The bit in `n`, if it is set, is set in `which`.
abbrev IsAsked : ℕ → ℕ → ℕ → Type 0
IsAsked which n bit = (flagged n bit && flagged which bit) ≡ flagged n bit

-- An error, or a SETATTR reply with the bits of attributes, each of which was asked for.
abbrev pub IsSetattrAnswer : ℕ → Rep → Type 0
IsSetattrAnswer which (error_rep e) = Unit
IsSetattrAnswer which (setattr_rep n) =
    (n < 32)
    × (IsAsked which n setmode
        × (IsAsked which n setuid
            × (IsAsked which n setgid × (IsAsked which n setsize × IsAsked which n settimes))))
IsSetattrAnswer which _ = ⊥

abbrev with_bit : Bool → ℕ → ℕ → ℕ
with_bit true bit n = bit_or n bit
with_bit false bit n = n

abbrev pack : Bool → Bool → Bool → Bool → Bool → ℕ
pack m u g s t =
    with_bit t settimes
      (with_bit s setsize (with_bit g setgid (with_bit u setuid (with_bit m setmode 0))))

-- Each bit of a packed number is the one that was put in.
abbrev IsPacked : Bool → Bool → Bool → Bool → Bool → Type 0
IsPacked m u g s t =
    let n = pack m u g s t in
    (n < 32)
    × ((flagged n setmode ≡ m)
        × ((flagged n setuid ≡ u)
            × ((flagged n setgid ≡ g) × ((flagged n setsize ≡ s) × (flagged n settimes ≡ t)))))

pack-IsPacked : (m u g s t : Bool) → IsPacked m u g s t
unfolding flagged
pack-IsPacked m u g s t = ground arith

-- What one attribute does to the number: its bit is put in, if at all, only if it was wanted.
abbrev Put : Bool → ℕ → ℕ → ℕ → Type 0
Put wanted bit before n = (b : Bool) × ((n ≡ with_bit b bit before) × ((b && wanted) ≡ b))

pack-IsSetattrAnswer :
    (which a b c d n : ℕ)
    → Put (flagged which setmode) setmode 0 a
    → Put (flagged which setuid) setuid a b
    → Put (flagged which setgid) setgid b c
    → Put (flagged which setsize) setsize c d
    → Put (flagged which settimes) settimes d n
    → IsSetattrAnswer which (setattr_rep n)
pack-IsSetattrAnswer which a b c d n (m, (ea, km)) (u, (eb, ku)) (g, (ec, kg)) (s, (ed, ks))
      (t, (en, kt)) =
    let (small, (pm, (pu, (pg, (ps, pt))))) = pack-IsPacked m u g s t in
    let packed : n ≡ pack m u g s t = rw (en, ed, ec, eb, ea) refl in
    rw packed (small, (rw pm km, (rw pu ku, (rw pg kg, (rw ps ks, rw pt kt)))))

module _ {P : Platform} where
  result-Put :
      (wanted : Bool) (bit before : ℕ) (r : Sys (Unit {0})) (w : World P)
      → wanted ≡ true
      → Post
          (λ n _. Put wanted bit before n)
          (checked r (λ errno. pure before) (λ _. pure (bit_or before bit)) w)
  unfolding checked
  result-Put wanted bit before (ok a) w e = (true, (refl, e))
  result-Put wanted bit before (fail c) w e = (false, (refl, refl))

  set_attribute-Put :
      (wanted : Bool) (bit : ℕ) (call : Server P (Sys (Unit {0}))) (before : ℕ) (w : World P)
      → Post (λ n _. Put wanted bit before n) (set_attribute wanted bit call before w)
  unfolding set_attribute
  set_attribute-Put false bit call before w = (false, (refl, refl))
  set_attribute-Put true bit call before w =
      Post-bind (λ _ _. Unit) (λ n _. Put true bit before n) call _ w (Post-any (call w))
        (λ r t _. result-Put true bit before r t refl)

  set_attributes-IsSetattrAnswer :
      (path : Bytes) (args : SetattrArgs) (w : World P)
      → Post (λ n _. IsSetattrAnswer args.which (setattr_rep n)) (set_attributes path args w)
  unfolding set_attributes
  set_attributes-IsSetattrAnswer path args w =
      let Q : ℕ → Type 0 = λ n. IsSetattrAnswer args.which (setattr_rep n) in
      Post-bind _ (λ n _. Q n) _ _ w (set_attribute-Put (flagged args.which setmode) setmode _ 0 w)
        (λ a t1 pa.
          Post-bind _ (λ n _. Q n) _ _ t1
            (set_attribute-Put (flagged args.which setuid) setuid _ a t1)
            (λ b t2 pb.
              Post-bind _ (λ n _. Q n) _ _ t2
                (set_attribute-Put (flagged args.which setgid) setgid _ b t2)
                (λ c t3 pc.
                  Post-bind _ (λ n _. Q n) _ _ t3
                    (set_attribute-Put (flagged args.which setsize) setsize _ c t3)
                    (λ d t4 pd.
                      Post-mono (λ n _. Put (flagged args.which settimes) settimes d n) (λ n _. Q n)
                        _ (λ n t5 pn. pack-IsSetattrAnswer args.which a b c d n pa pb pc pd pn)
                        (set_attribute-Put (flagged args.which settimes) settimes _ d t4)))))

  -- A SETATTR handler that returns has answered by an error, or by a reply whose number has no other
  -- bits than those of attributes that were asked for.
  pub handle_setattr-Says :
      (sock : ℕ) (args : SetattrArgs)
      → Says (IsSetattrAnswer args.which) (handle_setattr {P = P} sock args)
  unfolding handle_setattr
  handle_setattr-Says sock args = Says-bind _ _ (λ found.
      Says-given found _ _ (Says-error sock SnfsError.enoent tt) (λ buffer. Says-bind _ _ (λ result.
        Says-checked result _ _ (λ errno. Says-error sock _ tt)
          (λ st _.
            Says-bind_of (λ n. IsSetattrAnswer args.which (setattr_rep n)) _ _
              (λ w. set_attributes-IsSetattrAnswer _ args w)
              (λ n q. Says-reply sock (setattr_rep n) setattr_size q)))))
