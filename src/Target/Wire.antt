-- ===== src/Target/Wire.antt =====
-- engine/src/common.rs: what is written of a destination is read back.
use aurora_vpn.Prelude.{
  ℕ, ◌+◌, ◌≤◌, ◌<◌, min, ◌≡◌, refl, ap, ◌∙◌, Bool, true, Option, some, List, [], ◌∷◌, ◌++◌,
  append_assoc, arith, length, get_elem?, take, length-append, length-take, nat_eq, list_eq,
  pair_eq, to_be, from_be, slice?, ◌>>=◌,
}
use aurora_vpn.Prelude.Slices.{
  from_be_back, take-all, slice?-append, get_elem?-append, slice?-behind,
}
use aurora_vpn.Net.{v4, v6, octets, IsIp}
use aurora_vpn.Target.{
  Host, ip_host, domain_host, Target, to_lower, text, socks_host, write_socks, vless_host,
  write_vless, read_name, socks_address, read_socks, vless_address, read_vless,
}

module _ (is_utf8 : List ℕ → Bool) where
  -- A name that fits its length byte.
  read_name-text :
      (f : List ℕ → List ℕ) (pre d rest : List ℕ) (at : ℕ)
      → at ≡ length pre
      → length d ≤ 255
      → is_utf8 d ≡ true
      → read_name is_utf8 f (pre ++ (text d ++ rest)) at
        ≡ some (domain_host (f d), at + 1 + length d)
  unfolding read_name
  read_name-text f pre d rest at ha hd hu =
      let m : min (length d) 255 ≡ length d = omega arith in
      let here = get_elem?-append pre (take (length d) d ++ rest) (length d) in
      let e1 : get_elem? (pre ++ (text d ++ rest)) at ≡ some (length d) = rw (m, ha) here in
      let e2 : slice? (pre ++ (text d ++ rest)) (at + 1) (length d) ≡ some d =
        rw (m, take-all d) (slice?-behind pre d rest (length d) at ha) in
      rw (e1, e2, hu) refl

-- What a destination of the program satisfies: an address of its family's width or a name of at
-- most 255 bytes, valid UTF-8 and in lower case, and a 16-bit port.
abbrev pub IsHost : (List ℕ → Bool) → Host → Type 0
IsHost is_utf8 (ip_host a) = IsIp a
IsHost is_utf8 (domain_host d) = (length d ≤ 255) × (is_utf8 d ≡ true) × (to_lower d ≡ d)

abbrev pub IsTarget : (List ℕ → Bool) → Target → Type 0
IsTarget is_utf8 t = IsHost is_utf8 t.host × (t.port < 65536)

abbrev target : Host → ℕ → Target
target h p = record { host = h; port = p }

abbrev found : Host → ℕ → ℕ → Option (Target × ℕ)
found h p n = some (record { host = h; port = p }, n)

-- What `read_socks` does once the host is read.
abbrev finish : List ℕ → Option (Host × ℕ) → Option (Target × ℕ)
finish bytes o =
    o
    >>= (λ f. slice? bytes f.1 2 >>= (λ q. some (record { host = f.0; port = from_be q }, f.1 + 2)))

module _ (is_utf8 : List ℕ → Bool) where
  read_socks-host :
      (h : Host) (p : ℕ) (rest : List ℕ)
      → IsHost is_utf8 h
      → p < 65536
      → read_socks is_utf8 ((socks_host h ++ to_be 2 p) ++ rest)
        ≡ found h p (length (socks_host h ++ to_be 2 p))
  unfolding read_socks socks_host socks_address
  read_socks-host (ip_host (v4 a)) p rest h hp =
      let e1 = slice?-append (1 ∷ []) (octets (v4 a)) (to_be 2 p ++ rest) 1 4 refl refl in
      let e2 = slice?-append (1 ∷ octets (v4 a)) (to_be 2 p) rest 5 2 refl refl in
      rw (e1, e2)
        (ap (λ x. found (ip_host (v4 x)) (from_be (to_be 2 p)) 7) (from_be_back 4 a h)
          ∙ ap (λ x. found (ip_host (v4 a)) x 7) (from_be_back 2 p hp))
  read_socks-host (ip_host (v6 a)) p rest h hp =
      let e1 = slice?-append (4 ∷ []) (octets (v6 a)) (to_be 2 p ++ rest) 1 16 refl refl in
      let e2 = slice?-append (4 ∷ octets (v6 a)) (to_be 2 p) rest 17 2 refl refl in
      rw (e1, e2)
        (ap (λ x. found (ip_host (v6 x)) (from_be (to_be 2 p)) 19) (from_be_back 16 a h)
          ∙ ap (λ x. found (ip_host (v6 a)) x 19) (from_be_back 2 p hp))
  read_socks-host (domain_host d) p rest (hd, hu, hl) hp =
      let bytes = (3 ∷ []) ++ (text d ++ (to_be 2 p ++ rest)) in
      let shape : (socks_host (domain_host d) ++ to_be 2 p) ++ rest ≡ bytes =
        append_assoc (3 ∷ text d) (to_be 2 p) rest in
      let size = length-take (min (length d) 255) d in
      let port = slice?-append (3 ∷ text d) (to_be 2 p) rest (2 + length d) 2 (omega arith) refl in
      let all = length-append (text d) (to_be 2 p) in
      let e1 : read_socks is_utf8 bytes ≡ finish bytes (read_name is_utf8 to_lower bytes 1) =
        refl in
      let e2 =
        ap (finish bytes)
          (read_name-text is_utf8 to_lower (3 ∷ []) d (to_be 2 p ++ rest) 1 refl hd hu) in
      let e3 =
        ap
          (λ s. s >>= (λ q. some (target (domain_host (to_lower d)) (from_be q), 2 + length d + 2)))
          port in
      let e4 =
        ap (λ x. found (domain_host (to_lower d)) x (2 + length d + 2)) (from_be_back 2 p hp) in
      let e5 = ap (λ x. found (domain_host x) p (2 + length d + 2)) hl in
      let n : 2 + length d + 2 ≡ length (socks_host (domain_host d) ++ to_be 2 p) = omega arith in
      ap (read_socks is_utf8) shape ∙ e1 ∙ e2 ∙ e3 ∙ e4 ∙ e5 ∙ ap (found (domain_host d) p) n

  -- Reading a SOCKS address that write_socks wrote, whatever bytes follow it, gives the destination
  -- back and the number of bytes it takes, for an address of its family's width or a name of at most
  -- 255 bytes that is UTF-8 and in lower case, and a 16-bit port.
  pub read_socks-write_socks :
      (t : Target) (rest : List ℕ)
      → IsTarget is_utf8 t
      → read_socks is_utf8 (write_socks t ++ rest) ≡ some (t, length (write_socks t))
  unfolding write_socks
  read_socks-write_socks t rest h = read_socks-host t.host t.port rest h.0 h.1

  read_vless-host :
      (h : Host) (p : ℕ) (rest : List ℕ)
      → IsHost is_utf8 h
      → p < 65536
      → read_vless is_utf8 ((to_be 2 p ++ vless_host h) ++ rest)
        ≡ found h p (length (to_be 2 p ++ vless_host h))
  unfolding read_vless vless_host vless_address
  read_vless-host (ip_host (v4 a)) p rest h hp =
      let e1 = slice?-append (to_be 2 p ++ (1 ∷ [])) (octets (v4 a)) rest 3 4 refl refl in
      let e2 = slice?-append [] (to_be 2 p) ((1 ∷ octets (v4 a)) ++ rest) 0 2 refl refl in
      rw (e1, e2)
        (ap (λ x. found (ip_host (v4 x)) (from_be (to_be 2 p)) 7) (from_be_back 4 a h)
          ∙ ap (λ x. found (ip_host (v4 a)) x 7) (from_be_back 2 p hp))
  read_vless-host (ip_host (v6 a)) p rest h hp =
      let e1 = slice?-append (to_be 2 p ++ (3 ∷ [])) (octets (v6 a)) rest 3 16 refl refl in
      let e2 = slice?-append [] (to_be 2 p) ((3 ∷ octets (v6 a)) ++ rest) 0 2 refl refl in
      rw (e1, e2)
        (ap (λ x. found (ip_host (v6 x)) (from_be (to_be 2 p)) 19) (from_be_back 16 a h)
          ∙ ap (λ x. found (ip_host (v6 a)) x 19) (from_be_back 2 p hp))
  read_vless-host (domain_host d) p rest (hd, hu, hl) hp =
      let bytes = (to_be 2 p ++ (2 ∷ [])) ++ (text d ++ rest) in
      let e1 = slice?-append [] (to_be 2 p) ((2 ∷ text d) ++ rest) 0 2 refl refl in
      let size = length-take (min (length d) 255) d in
      let e2 =
        ap (λ s. s >>= (λ f. some (target (f.0) (from_be (to_be 2 p)), f.1)))
          (read_name-text is_utf8 (λ name. name) (to_be 2 p ++ (2 ∷ [])) d rest 3 refl hd hu) in
      let e3 : read_vless is_utf8 bytes ≡ (
          slice? bytes 0 2 >>= (λ q.
            read_name is_utf8 (λ name. name) bytes 3
            >>= (λ f. some (target (f.0) (from_be q), f.1)))) =
        refl in
      let e4 =
        ap
          (λ s. s >>= (λ q.
            read_name is_utf8 (λ name. name) bytes 3
            >>= (λ f. some (target (f.0) (from_be q), f.1))))
          e1 in
      let e5 = ap (λ x. found (domain_host d) x (4 + length d)) (from_be_back 2 p hp) in
      let n : 4 + length d ≡ length (to_be 2 p ++ vless_host (domain_host d)) = omega arith in
      e3 ∙ e4 ∙ e2 ∙ e5 ∙ ap (found (domain_host d) p) n

  -- Reading a VLESS address that write_vless wrote, whatever bytes follow it, gives the destination
  -- back and the number of bytes it takes, for an address of its family's width or a name of at most
  -- 255 bytes that is UTF-8 and in lower case, and a 16-bit port.
  pub read_vless-write_vless :
      (t : Target) (rest : List ℕ)
      → IsTarget is_utf8 t
      → read_vless is_utf8 (write_vless t ++ rest) ≡ some (t, length (write_vless t))
  unfolding write_vless
  read_vless-write_vless t rest h = read_vless-host t.host t.port rest h.0 h.1
