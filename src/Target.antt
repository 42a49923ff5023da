-- ===== src/Target.antt =====
-- engine/src/common.rs: the destination of a connection, its two wire formats, and the order in
-- which addresses are dialled. A domain is the bytes of its text; whether bytes are UTF-8 is the
-- standard library's to say, and is a parameter.
pub mod Wire
pub mod Order
mod Tests
use aurora_vpn.Prelude.{
  ℕ, zero, suc, ◌+◌, ◌-◌, ◌*◌, ◌/◌, ◌%◌, ◌^◌, ◌≤◌, ◌<◌, min, max, ◌≡◌, refl, sym, ap, ◌∙◌, ◌≢◌, ◌↔◌,
  ◌⊎◌, inl, inr, Bool, true, false, ◌&&◌, ◌||◌, not, Option, none, some, List, [], ◌∷◌, ◌++◌, map,
  append_assoc, append-nil, arith, ltb, leb, ◌==◌, if◌then◌else◌, ltb→lt, lt→ltb, leb→le, ==_iff,
  tests, Bool-cases, Option-cases, length, get_elem?, get_or, take, drop, replicate, length-append,
  length-take, length-drop, take-append-drop, length-map, length-replicate, Eq, ◌=?◌, =?_iff,
  nat_eq, list_beq, list_beq_iff, list_eq, pair_eq, is_some, get, remove, insert, get-remove,
  get-insert, All, IsByte, All-append, to_be, from_be, length-to_be, to_be-IsByte, byte_at,
  byte_at-IsByte, u16_be, slice?, put, length-put, ◌>>=◌, >>=-eq-some, if_intro, insert_by, sort_by,
  min_by, length-insert_by, length-sort_by,
}
use aurora_vpn.Net.{IpAddr, v4, v6, is_ipv4, octets, SocketAddr}

pub data Host : Type 0 where
  ip_host : IpAddr → Host
  domain_host : List ℕ → Host

pub record Target : Type 0 where
  pub host : Host
  pub port : ℕ

unfoldable pub from_addr : SocketAddr → Target
from_addr a = record { host = ip_host a.ip; port = a.port }

unfoldable pub ip : Target → Option IpAddr
ip t = elim t.host [ ip_host a ↦ some a | domain_host d ↦ none ]

unfoldable pub domain : Target → Option (List ℕ)
domain t = elim t.host [ ip_host a ↦ none | domain_host d ↦ some d ]

abbrev pub lower_byte : ℕ → ℕ
lower_byte b = if leb 65 b && leb b 90 then b + 32 else b

-- `to_ascii_lowercase`
abbrev pub to_lower : List ℕ → List ℕ
to_lower = map lower_byte

-- `d.len().min(255) as u8`, then as many bytes.
abbrev pub text : List ℕ → List ℕ
text d = min (length d) 255 ∷ take (min (length d) 255) d

unfoldable pub socks_host : Host → List ℕ
socks_host (ip_host (v4 a)) = 1 ∷ octets (v4 a)
socks_host (ip_host (v6 a)) = 4 ∷ octets (v6 a)
socks_host (domain_host d) = 3 ∷ text d

unfoldable pub write_socks : Target → List ℕ
unfolding socks_host
write_socks t = socks_host t.host ++ to_be 2 t.port

unfoldable pub vless_host : Host → List ℕ
vless_host (ip_host (v4 a)) = 1 ∷ octets (v4 a)
vless_host (domain_host d) = 2 ∷ text d
vless_host (ip_host (v6 a)) = 3 ∷ octets (v6 a)

unfoldable pub write_vless : Target → List ℕ
unfolding vless_host
write_vless t = to_be 2 t.port ++ vless_host t.host

-- The address of `n` bytes at `at`, with the place behind it.
abbrev pub read_ip : (IpAddr → Host × ℕ) → (ℕ → IpAddr) → List ℕ → ℕ → ℕ → Option (Host × ℕ)
read_ip f family bytes at n = slice? bytes at n >>= (λ o. some (f (family (from_be o))))

module _ (is_utf8 : List ℕ → Bool) where
  -- The name whose length stands at `at`.
  unfoldable pub read_name : (List ℕ → List ℕ) → List ℕ → ℕ → Option (Host × ℕ)
  read_name f bytes at = get_elem? bytes at >>= (λ n.
      slice? bytes (at + 1) n
      >>= (λ name. if is_utf8 name then some (domain_host (f name), at + 1 + n) else none))

  unfoldable pub socks_address : ℕ → List ℕ → Option (Host × ℕ)
  unfolding read_name
  socks_address atyp bytes =
      if atyp == 1
      then read_ip (λ a. (ip_host a, 5)) v4 bytes 1 4
      else if atyp == 4
      then read_ip (λ a. (ip_host a, 17)) v6 bytes 1 16
      else if atyp == 3
      then read_name to_lower bytes 1
      else none

  unfoldable pub read_socks : List ℕ → Option (Target × ℕ)
  unfolding socks_address
  read_socks bytes = get_elem? bytes 0 >>= (λ atyp. socks_address atyp bytes >>= (λ found.
      slice? bytes found.1 2
      >>= (λ port. some (record { host = found.0; port = from_be port }, found.1 + 2))))

  unfoldable pub vless_address : ℕ → List ℕ → Option (Host × ℕ)
  unfolding read_name
  vless_address atyp bytes =
      if atyp == 1
      then read_ip (λ a. (ip_host a, 7)) v4 bytes 3 4
      else if atyp == 2
      then read_name (λ name. name) bytes 3
      else if atyp == 3
      then read_ip (λ a. (ip_host a, 19)) v6 bytes 3 16
      else none

  unfoldable pub read_vless : List ℕ → Option (Target × ℕ)
  unfolding vless_address
  read_vless bytes = slice? bytes 0 2 >>= (λ port. get_elem? bytes 2 >>= (λ atyp.
      vless_address atyp bytes
      >>= (λ found. some (record { host = found.0; port = from_be port }, found.1))))

abbrev pub is_ipv6 : SocketAddr → Bool
is_ipv6 a = not (is_ipv4 a.ip)

abbrev pub partition {ℓ} : {A : Type ℓ} → (A → Bool) → List A → List A × List A
partition p [] = ([], [])
partition p (x ∷ xs) = let (a, b) = partition p xs in if p x then (x ∷ a, b) else (a, x ∷ b)

-- The loop that pops the two reversed piles in turn, from the fronts of the piles as they were.
unfoldable pub zip_rest : List SocketAddr → List SocketAddr → List SocketAddr
zip_rest [] ys = ys
zip_rest (x ∷ xs) [] = x ∷ xs
zip_rest (x ∷ xs) (y ∷ ys) = x ∷ y ∷ zip_rest xs ys

abbrev pub first_v6 : List SocketAddr → Bool
first_v6 [] = false
first_v6 (a ∷ rest) = is_ipv6 a

abbrev pub same_bool : Bool → Bool → Bool
same_bool true b = b
same_bool false b = not b

unfoldable pub interleave : List SocketAddr → List SocketAddr
unfolding zip_rest
interleave addrs =
    let (same, other) = partition (λ a. same_bool (is_ipv6 a) (first_v6 addrs)) addrs in
    zip_rest same other
