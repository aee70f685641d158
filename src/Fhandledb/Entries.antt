-- ===== src/Fhandledb/Entries.antt =====
-- The contents of the database as a function from keys to values, and the invariant that
-- lab2/src/server/fhandledb.c keeps: handles and names, paired both ways.
use mathlib.Core.Bool.{false≢true}
use mathlib.Core.Path.{fun_ext, subst}
use stanford_cs240_sp21_labs.Base.{Bool-cases, ap, arith, false, if◌then◌else◌, inl, inr, sym}
use stanford_cs240_sp21_labs.Base.{◌<◌, ◌∙◌, ◌≡◌, ◌≢◌, ◌⊎◌}
use stanford_cs240_sp21_labs.Base.Bytes.{Bytes, NoNul, bytes_eq, bytes_eq_iff, ends_in_nul}
use stanford_cs240_sp21_labs.Base.Bytes.{ends_in_nul-terminated, terminated, u64_mod}
use stanford_cs240_sp21_labs.Base.Exec.{Sys, fail, ok}
use stanford_cs240_sp21_labs.Fhandledb.{handle_key}
use stanford_cs240_sp21_labs.Platform.{db_notfound}
use stanford_cs240_sp21_labs.Proto.{Fhandle}

-- A key or value that is a handle: no name ends in another byte than NUL.
abbrev pub IsHandle : Bytes → Type 0
IsHandle b = (h : Fhandle) × (h < u64_mod) × (b ≡ handle_key h) × (ends_in_nul b ≡ false)

abbrev pub IsName : Bytes → Type 0
IsName b = (n : Bytes) × NoNul n × (b ≡ terminated n)

abbrev pub Entries : Type 0
Entries = Bytes → Sys Bytes

-- Each entry leads from a handle to a name or back, and its value is the key of its key.
pub record IsHandleDb (g : Entries) : Type 0 where
  pub kinds : (k v : Bytes) → g k ≡ ok v → (IsHandle k × IsName v) ⊎ (IsName k × IsHandle v)
  pub back : (k v : Bytes) → g k ≡ ok v → g v ≡ ok k

-- The entries after a pair is added, and after one is removed.
abbrev pub with_pair : Bytes → Bytes → Entries → Entries
with_pair a n g k = if bytes_eq n k then ok a else if bytes_eq a k then ok n else g k

abbrev pub without_pair : Bytes → Bytes → Entries → Entries
without_pair a n g k =
    if bytes_eq a k then fail db_notfound else if bytes_eq n k then fail db_notfound else g k

pub handle-ne-name : (a n : Bytes) → IsHandle a → IsName n → a ≢ n
handle-ne-name a n (h, _, _, e) (s, _, e') p =
    false≢true (sym e ∙ ap ends_in_nul (p ∙ e') ∙ ends_in_nul-terminated s)

-- The same entries, pointwise, keep the invariant.
pub IsHandleDb-of_same :
    (g g' : Entries) → ((k : Bytes) → g' k ≡ g k) → IsHandleDb g → IsHandleDb g'
IsHandleDb-of_same g g' e d = subst IsHandleDb (sym (fun_ext e)) d

-- Where an entry comes from after a pair is added.
with_pair_cases :
    (a n k v : Bytes) (g : Entries)
    → with_pair a n g k ≡ ok v
    → ((n ≡ k) × (a ≡ v)) ⊎ (((a ≡ k) × (n ≡ v)) ⊎ (g k ≡ ok v))
with_pair_cases a n k v g e = elim (Bool-cases (bytes_eq n k)) [
  | inl p ↦ inl ((bytes_eq_iff n k).0 p, ground arith)
  | inr p ↦ elim (Bool-cases (bytes_eq a k)) [
    | inl q ↦ inr (inl ((bytes_eq_iff a k).0 q, ground arith))
    | inr q ↦ inr (inr (ground arith))
  ]
]

module _ (a n : Bytes) (g : Entries) (d : IsHandleDb g) where
  kinds_of :
      (k v : Bytes)
      → IsHandle a
      → IsName n
      → ((n ≡ k) × (a ≡ v)) ⊎ (((a ≡ k) × (n ≡ v)) ⊎ (g k ≡ ok v))
      → (IsHandle k × IsName v) ⊎ (IsName k × IsHandle v)
  kinds_of k v ha hn (inl (p, q)) = inr (subst IsName p hn, subst IsHandle q ha)
  kinds_of k v ha hn (inr (inl (p, q))) = inl (subst IsHandle p ha, subst IsName q hn)
  kinds_of k v ha hn (inr (inr e)) = d.kinds k v e

  pub with_pair-IsHandleDb :
      IsHandle a
      → IsName n
      → g a ≡ fail db_notfound
      → g n ≡ fail db_notfound
      → IsHandleDb (with_pair a n g)
  with_pair-IsHandleDb ha hn ga gn = record {
    kinds = λ k v e. kinds_of k v ha hn (with_pair_cases a n k v g e);
    back = λ k v e.
        let ne : a ≢ n = handle-ne-name a n ha hn in
        ground (
          arith,
          d.back k v,
          bytes_eq_iff n k,
          bytes_eq_iff a k,
          bytes_eq_iff n v,
          bytes_eq_iff a v,
          bytes_eq_iff n a,
          bytes_eq_iff a a,
          bytes_eq_iff n n,
        );
  }

  pub without_pair-IsHandleDb : g n ≡ ok a → IsHandleDb (without_pair a n g)
  without_pair-IsHandleDb gn = record {
    kinds = λ k v e. d.kinds k v (ground arith);
    back = λ k v e. ground (
      arith,
      d.back k v,
      d.back n a gn,
      bytes_eq_iff n k,
      bytes_eq_iff a k,
      bytes_eq_iff n v,
      bytes_eq_iff a v,
    );
  }
