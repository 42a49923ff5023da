-- ===== src/Sniff/Extensions.antt =====
-- engine/src/sniff.rs: the loop over the extensions finds the name.
use aurora_vpn.Prelude.{
  ℕ, zero, suc, ◌+◌, ◌/◌, ◌%◌, ◌^◌, ◌≤◌, ◌<◌, ◌≡◌, refl, sym, ap, ◌∙◌, Bool, true, false, some,
  List, [], ◌∷◌, ◌++◌, append_assoc, append-nil, arith, leb, ◌==◌, length, get_elem?, length-append,
  nat_eq, list_eq, pair_eq, All, to_be, u16_be, slice?,
}
use mathlib.Core.Path.{subst}
use aurora_vpn.Prelude.Slices.{get_elem?-append, append_cons, slice?-append}
use aurora_vpn.Target.{to_lower}
use aurora_vpn.Sniff.{u16_at, valid_host, name_in, find_name}

abbrev pub ext : ℕ → List ℕ → List ℕ
ext kind bytes = to_be 2 kind ++ (to_be 2 (length bytes) ++ bytes)

abbrev pub exts : List (ℕ × List ℕ) → List ℕ
exts [] = []
exts ((kind, bytes) ∷ es) = ext kind bytes ++ exts es

-- The extension with a list of one name of a host.
abbrev pub server_name : List ℕ → List ℕ
server_name name = ext 0 (to_be 2 (3 + length name) ++ (0 ∷ (to_be 2 (length name) ++ name)))

-- An extension of another kind.
abbrev pub IsOther : ℕ × List ℕ → Type 0
IsOther (kind, bytes) = (0 < kind) × (kind < 65536) × (length bytes < 65536)

pub u16_at-front :
    (pre rest : List ℕ) (i v : ℕ)
    → i ≡ length pre
    → v < 65536
    → u16_at (pre ++ (to_be 2 v ++ rest)) i ≡ some v
unfolding u16_at
u16_at-front pre rest i v h hv =
    let a = v / 256 ^ 1 % 256 in
    let b = v / 256 ^ 0 % 256 in
    let here : get_elem? (pre ++ (a ∷ b ∷ rest)) (length pre) ≡ some a =
      get_elem?-append pre (b ∷ rest) a in
    let l = length-append pre (a ∷ []) in
    let spot : length (pre ++ (a ∷ [])) ≡ length pre + 1 = omega arith in
    let next : get_elem? (pre ++ (a ∷ b ∷ rest)) (length pre + 1) ≡ some b =
      ap (λ x. get_elem? x (length pre + 1)) (sym (append_cons pre (b ∷ rest) a))
      ∙ ap (λ k. get_elem? ((pre ++ (a ∷ [])) ++ (b ∷ rest)) k) (sym spot)
      ∙ get_elem?-append (pre ++ (a ∷ [])) rest b in
    let back : u16_be a b ≡ v = omega arith in
    subst (λ k. u16_at (pre ++ (a ∷ b ∷ rest)) k ≡ some v) (sym h)
      (rw (u16_at, here, next) (ap (λ n. some n) back))

-- The same behind two bytes more.
u16_at-next :
    (pre rest : List ℕ) (i k v : ℕ)
    → i ≡ length pre
    → v < 65536
    → u16_at (pre ++ (to_be 2 k ++ (to_be 2 v ++ rest))) (i + 2) ≡ some v
u16_at-next pre rest i k v h hv =
    let l = length-append pre (to_be 2 k) in
    ap (λ x. u16_at x (i + 2)) (sym (append_assoc pre (to_be 2 k) (to_be 2 v ++ rest)))
    ∙ u16_at-front (pre ++ to_be 2 k) rest (i + 2) v (omega arith) hv

module _ (is_utf8 : List ℕ → Bool) where
  abbrev pub IsName : List ℕ → Type 0
  IsName name = (is_utf8 name ≡ true) × (valid_host (to_lower name) ≡ true) × (length name < 65530)

  name_in-entry :
      (name : List ℕ)
      → IsName name
      → name_in is_utf8 (to_be 2 (3 + length name) ++ (0 ∷ (to_be 2 (length name) ++ name)))
        ≡ some (to_lower name)
  unfolding name_in
  name_in-entry name (u, v, n) =
      let pre : List ℕ = to_be 2 (3 + length name) ++ (0 ∷ []) in
      let e1 = u16_at-front pre name 3 (length name) refl (omega arith) in
      let e2 : slice? ((pre ++ to_be 2 (length name)) ++ (name ++ [])) 5 (length name) ≡ some name =
        slice?-append (pre ++ to_be 2 (length name)) name [] 5 (length name) refl refl in
      let e3 : slice? (pre ++ (to_be 2 (length name) ++ name)) 5 (length name) ≡ some name =
        ap (λ x. slice? ((pre ++ to_be 2 (length name)) ++ x) 5 (length name))
          (sym (append-nil name))
        ∙ e2 in
      rw (name_in, e1, e3, u, v) refl

  find_name_other :
      (fuel : ℕ) (pre bytes rest : List ℕ) (kind i end : ℕ)
      → i ≡ length pre
      → i + 4 ≤ end
      → IsOther (kind, bytes)
      → find_name is_utf8 (suc fuel) (pre ++ (ext kind bytes ++ rest)) i end
        ≡ find_name is_utf8 fuel (pre ++ (ext kind bytes ++ rest)) (i + (4 + length bytes)) end
  unfolding find_name
  find_name_other fuel pre bytes rest kind i end h he (k0, k, n) =
      let t : leb (i + 4) end ≡ true = ground arith in
      let e1 = u16_at-front pre (to_be 2 (length bytes) ++ (bytes ++ rest)) i kind h k in
      let e2 = u16_at-next pre (bytes ++ rest) i kind (length bytes) h n in
      let z : (kind == 0) ≡ false = ground arith in rw (find_name, t, e1, e2, z) refl

  find_name_host :
      (fuel : ℕ) (pre name rest : List ℕ) (i end : ℕ)
      → i ≡ length pre
      → i + 4 ≤ end
      → IsName name
      → find_name is_utf8 (suc fuel) (pre ++ (server_name name ++ rest)) i end
        ≡ some (to_lower name)
  unfolding find_name
  find_name_host fuel pre name rest i end h he (u, v, n) =
      let entry : List ℕ = to_be 2 (3 + length name) ++ (0 ∷ (to_be 2 (length name) ++ name)) in
      let size = length entry in
      let l : size ≡ 5 + length name = omega arith in
      let t : leb (i + 4) end ≡ true = ground arith in
      let e1 = u16_at-front pre (to_be 2 size ++ (entry ++ rest)) i 0 h (omega arith) in
      let e2 = u16_at-next pre (entry ++ rest) i 0 size h (omega arith) in
      let front : List ℕ = 0 ∷ 0 ∷ to_be 2 size in
      let lf = length-append pre front in
      let e3 : slice? (pre ++ (server_name name ++ rest)) (i + 4) size ≡ some entry =
        ap (λ x. slice? x (i + 4) size) (sym (append_assoc pre front (entry ++ rest)))
        ∙ slice?-append (pre ++ front) entry rest (i + 4) size (omega arith) refl in
      rw (find_name, t, e1, e2, e3) (name_in-entry name (u, v, n))

  pub find_name-exts :
      (fuel : ℕ) (es : List (ℕ × List ℕ)) (pre name rest : List ℕ) (i end : ℕ)
      → length es < fuel
      → i ≡ length pre
      → i + length (exts es) + 4 ≤ end
      → All IsOther es
      → IsName name
      → find_name is_utf8 fuel (pre ++ (exts es ++ (server_name name ++ rest))) i end
        ≡ some (to_lower name)
  find_name-exts zero es pre name rest i end f h he os nm = absurd (omega arith)
  find_name-exts (suc fuel) [] pre name rest i end f h he os nm =
      find_name_host fuel pre name rest i end h (omega arith) nm
  find_name-exts (suc fuel) ((kind, bytes) ∷ es) pre name rest i end f h he (o, os) nm =
      let x = server_name name ++ rest in
      let e = ext kind bytes in
      let l = length-append pre e in
      let m = length-append e (exts es) in
      let whole : pre ++ ((e ++ exts es) ++ x) ≡ pre ++ (e ++ (exts es ++ x)) =
        ap (λ y. pre ++ y) (append_assoc e (exts es) x) in
      let past : pre ++ (e ++ (exts es ++ x)) ≡ (pre ++ e) ++ (exts es ++ x) =
        sym (append_assoc pre e (exts es ++ x)) in
      let next = i + (4 + length bytes) in
      ap (λ b. find_name is_utf8 (suc fuel) b i end) whole
      ∙ find_name_other fuel pre bytes (exts es ++ x) kind i end h (omega arith) o
      ∙ ap (λ b. find_name is_utf8 fuel b next end) past
      ∙ find_name-exts fuel es (pre ++ e) name rest next end (omega arith) (omega arith)
          (omega arith) os nm

  pub length-exts : (es : List (ℕ × List ℕ)) → length es ≤ length (exts es)
  length-exts [] = omega arith
  length-exts ((kind, bytes) ∷ es) =
      let m = length-append (ext kind bytes) (exts es) in let ih = length-exts es in omega arith

  pub get_front :
      (pre rest : List ℕ) (x i : ℕ) → i ≡ length pre → get_elem? (pre ++ (x ∷ rest)) i ≡ some x
  get_front pre rest x i h =
      ap (λ k. get_elem? (pre ++ (x ∷ rest)) k) h ∙ get_elem?-append pre rest x
