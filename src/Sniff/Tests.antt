-- ===== src/Sniff/Tests.antt =====
-- First bytes at concrete inputs: a hello for "A.b" behind one other extension.
use aurora_vpn.Prelude.{
  ℕ, ◌+◌, ◌-◌, ◌≡◌, refl, Bool, true, none, some, List, [], ◌∷◌, ◌++◌, arith, length, take, drop,
  replicate, nat_eq, list_eq, pair_eq,
}
use aurora_vpn.Sniff.{tls, put_piece, crypto_frame, gather, dns, quic_varint}
use aurora_vpn.Sniff.Hello.{Hello, body, tls-body}
use aurora_vpn.Dns.Wire.{quic_varint}

abbrev any : List ℕ → Bool
any bytes = true

abbrev same : List ℕ → List ℕ
same bytes = bytes

abbrev site : Hello
site = record {
  head = replicate 34 3;
  session = 7 ∷ 8 ∷ [];
  ciphers = 19 ∷ 1 ∷ [];
  methods = 0 ∷ [];
  others = (16, 5 ∷ []) ∷ [];
  name = 65 ∷ 46 ∷ 98 ∷ [];
  more = [];
  tail = 1 ∷ [];
}

tls-body_example :
    tls any (22 ∷ 3 ∷ 1 ∷ 0 ∷ 70 ∷ 1 ∷ 0 ∷ 0 ∷ 66 ∷ body site)
    ≡ some (record { protocol = 116 ∷ 108 ∷ 115 ∷ []; domain = some (97 ∷ 46 ∷ 98 ∷ []) })
tls-body_example = tls-body any site 1 0 70 0 0 66 (
  refl,
  omega arith,
  omega arith,
  ((omega arith, omega arith, omega arith), tt),
  (refl, refl, omega arith),
)

abbrev hello : List ℕ
hello = 1 ∷ 0 ∷ 0 ∷ 66 ∷ body site

-- As Chrome sends it: the second piece first, and a PING between the two.
abbrev shuffled : List ℕ
shuffled =
    (6 ∷ 20 ∷ (64 + 0) ∷ (length hello - 20) ∷ drop 20 hello) ++ (1 ∷ (6 ∷ 0 ∷ 20 ∷ take 20 hello))

reassembled : gather (length shuffled) shuffled [] ≡ some hello
unfolding gather crypto_frame put_piece quic_varint
reassembled = refl

-- Neither a query nor a plausible number of questions.
not_dns : dns same (0 ∷ 1 ∷ 129 ∷ 0 ∷ 0 ∷ 1 ∷ 0 ∷ 0 ∷ 0 ∷ 0 ∷ 0 ∷ 0 ∷ []) ≡ none
unfolding dns
not_dns = refl

cut_off : tls any (22 ∷ 3 ∷ 1 ∷ 0 ∷ 70 ∷ 1 ∷ 0 ∷ []) ≡ none
unfolding tls
cut_off = refl
