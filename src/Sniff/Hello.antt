-- ===== src/Sniff/Hello.antt =====
-- engine/src/sniff.rs: the name in a well-formed hello is found.
use aurora_vpn.Prelude.{
  ℕ, ◌+◌, ◌≤◌, ◌<◌, min, ◌≡◌, sym, ap, ◌∙◌, Bool, true, false, Option, some, List, [], ◌∷◌, ◌++◌,
  append_assoc, arith, ltb, leb, length, get_elem?, length-append, nat_eq, list_eq, pair_eq, All,
  to_be,
}
use aurora_vpn.Target.{to_lower}
use aurora_vpn.Sniff.{u16_at, find_name, sni_in_hello, tls}
use aurora_vpn.Sniff.Extensions.{
  exts, server_name, IsOther, u16_at-front, IsName, find_name-exts, length-exts, get_front,
}

-- A hello: the version and the random bytes, the session, the ciphers, the methods of compression, other
-- extensions, the name, more extensions, and bytes behind the hello.
pub record Hello : Type 0 where
  pub head : List ℕ
  pub session : List ℕ
  pub ciphers : List ℕ
  pub methods : List ℕ
  pub others : List (ℕ × List ℕ)
  pub name : List ℕ
  pub more : List ℕ
  pub tail : List ℕ

abbrev pub extensions : Hello → List ℕ
extensions h = exts h.others ++ (server_name h.name ++ h.more)

-- What the loop over the extensions sees.
abbrev pub rest_of : Hello → List ℕ
rest_of h = exts h.others ++ (server_name h.name ++ (h.more ++ h.tail))

abbrev pub body : Hello → List ℕ
body h =
    h.head
    ++ (length h.session
        ∷ (h.session
            ++ (to_be 2 (length h.ciphers)
                ++ (h.ciphers
                    ++ (length h.methods
                        ∷ (h.methods ++ (to_be 2 (length (extensions h)) ++ rest_of h)))))))

abbrev pub IsHello : (List ℕ → Bool) → Hello → Type 0
IsHello is_utf8 h =
    (length h.head ≡ 34)
    × (length h.ciphers < 65536)
    × (length (extensions h) < 65536)
    × All IsOther h.others
    × IsName is_utf8 h.name

find_name-extensions :
    (is_utf8 : List ℕ → Bool) (h : Hello) (pre : List ℕ) (fuel i : ℕ)
    → IsHello is_utf8 h
    → i ≡ length pre
    → length (pre ++ rest_of h) ≤ fuel
    → find_name is_utf8 fuel
        (pre ++ rest_of h)
        i
        (min (i + length (extensions h)) (length (pre ++ rest_of h)))
      ≡ some (to_lower h.name)
find_name-extensions is_utf8 h pre fuel i (l0, lc, lt, os, nm) hi hf =
    let others = exts h.others in
    let named = server_name h.name in
    let a = length-append pre (rest_of h) in
    let b = length-append others (named ++ (h.more ++ h.tail)) in
    let c = length-append named (h.more ++ h.tail) in
    let d = length-append others (named ++ h.more) in
    let e = length-append named h.more in
    let f = length-exts is_utf8 h.others in
    find_name-exts is_utf8 fuel h.others pre h.name (h.more ++ h.tail) i
      (min (i + length (extensions h)) (length (pre ++ rest_of h))) (omega arith) hi (omega arith)
      os nm

-- The name of a well-formed hello is found, in lower case, whatever other extensions stand before it.
pub sni_in_hello-body :
    (is_utf8 : List ℕ → Bool) (h : Hello)
    → IsHello is_utf8 h
    → sni_in_hello is_utf8 (body h) ≡ some (to_lower h.name)
unfolding sni_in_hello
sni_in_hello-body is_utf8 h (l0, lc, lt, os, nm) =
    let total = length (extensions h) in
    let r5 = rest_of h in
    let r4 = to_be 2 total ++ r5 in
    let r3 = length h.methods ∷ (h.methods ++ r4) in
    let r2 = to_be 2 (length h.ciphers) ++ (h.ciphers ++ r3) in
    let s1 : List ℕ = length h.session ∷ h.session in
    let s2 : List ℕ = to_be 2 (length h.ciphers) ++ h.ciphers in
    let s3 : List ℕ = length h.methods ∷ h.methods in
    let s4 : List ℕ = to_be 2 total in
    let p2 = h.head ++ s1 in
    let p3 = p2 ++ s2 in
    let p4 = p3 ++ s3 in
    let p5 = p4 ++ s4 in
    let b2 : body h ≡ p2 ++ r2 = sym (append_assoc h.head s1 r2) in
    let b3 : body h ≡ p3 ++ r3 = b2 ∙ sym (append_assoc p2 s2 r3) in
    let b4 : body h ≡ p4 ++ r4 = b3 ∙ sym (append_assoc p3 s3 r4) in
    let b5 : body h ≡ p5 ++ r5 = b4 ∙ sym (append_assoc p4 s4 r5) in
    let l2 = length-append h.head s1 in
    let l3 = length-append p2 s2 in
    let l4 = length-append p3 s3 in
    let l5 = length-append p4 s4 in
    let i2 = 34 + (1 + length h.session) in
    let i3 = i2 + (2 + length h.ciphers) in
    let i4 = i3 + (1 + length h.methods) in
    let e1 : get_elem? (body h) 34 ≡ some (length h.session) =
      get_front is_utf8 h.head (h.session ++ r2) (length h.session) 34 (omega arith) in
    let e2 : u16_at (body h) i2 ≡ some (length h.ciphers) =
      ap (λ x. u16_at x i2) b2
      ∙ u16_at-front p2 (h.ciphers ++ r3) i2 (length h.ciphers) (omega arith) lc in
    let e3 : get_elem? (body h) i3 ≡ some (length h.methods) =
      ap (λ x. get_elem? x i3) b3
      ∙ get_front is_utf8 p3 (h.methods ++ r4) (length h.methods) i3 (omega arith) in
    let e4 : u16_at (body h) i4 ≡ some total =
      ap (λ x. u16_at x i4) b4 ∙ u16_at-front p4 r5 i4 total (omega arith) lt in
    let at =
      find_name-extensions is_utf8 h p5 (length (p5 ++ r5)) (i4 + 2) (l0, lc, lt, os, nm)
        (omega arith) (omega arith) in
    rw (sni_in_hello, e1, e2, e3, e4)
      (ap (λ b. find_name is_utf8 (length b) b (i4 + 2) (min (i4 + 2 + total) (length b))) b5 ∙ at)

-- If the first bytes of a connection are a TLS record with a hello, of 34 bytes for version and
-- random numbers, a session, ciphers and methods of any length that fit their size fields, then
-- extensions of kinds other than 0, then the extension with a name that is valid in lower case and
-- UTF-8, then anything, tls reports TLS and this name in lower case.
pub tls-body :
    (is_utf8 : List ℕ → Bool) (h : Hello) (minor r1 r0 s2 s1 s0 : ℕ)
    → IsHello is_utf8 h
    → tls is_utf8 (22 ∷ 3 ∷ minor ∷ r1 ∷ r0 ∷ 1 ∷ s2 ∷ s1 ∷ s0 ∷ body h)
      ≡ some (record { protocol = 116 ∷ 108 ∷ 115 ∷ []; domain = some (to_lower h.name) })
unfolding tls
tls-body is_utf8 h minor r1 r0 s2 s1 s0 good =
    let bytes : List ℕ = 22 ∷ 3 ∷ minor ∷ r1 ∷ r0 ∷ 1 ∷ s2 ∷ s1 ∷ s0 ∷ body h in
    let t1 : ltb (length bytes) 6 ≡ false = ground arith in
    let t2 : leb 9 (length bytes) ≡ true = ground arith in
    rw (tls, t1, t2)
      (ap (λ (d : Option (List ℕ)). some (record { protocol = 116 ∷ 108 ∷ 115 ∷ []; domain = d }))
        (sni_in_hello-body is_utf8 h good))
