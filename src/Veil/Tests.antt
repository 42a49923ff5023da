-- ===== src/Veil/Tests.antt =====
-- Records and gathered writes at concrete inputs, with a cipher that does not hide anything.
use aurora_vpn.Prelude.{
  ℕ, ◌≡◌, refl, ◌⊎◌, some, List, [], ◌∷◌, arith, replicate, nat_eq, list_eq, pair_eq,
}
use aurora_vpn.Veil.Codec.{Aead, Draw, new_sealer, Sealer, push}
use aurora_vpn.Veil.Codec.Stream.{Message, send, receive, contents, receive-send}
use aurora_vpn.Veil.Coalesce.{new, write, took}
use aurora_vpn.Veil.Coalesce.Order.{new-IsValid, IsTaken, IsRefused, write_lem}

abbrev zeros : List ℕ
zeros = replicate 16 0

abbrev open_cipher : Aead
open_cipher = record {
  encrypt = λ n p. (p, zeros);
  decrypt = λ n p t. some p;
  length_text = λ n p. refl;
  length_tag = λ n p. refl;
  opens = λ n p. refl;
}

abbrev draw : Draw
draw = record { target = 1000; small = 5 }

abbrev two_messages : List Message
two_messages = (draw, 2, 7 ∷ 8 ∷ []) ∷ (draw, 2, 9 ∷ []) ∷ []

receive-send_example :
    (s' : Sealer) × (wire : List ℕ) × (send open_cipher two_messages new_sealer ≡ some (s', wire))
    × (receive open_cipher 3 (push wire (record { counter = 0; buf = [] }))
        ≡ (record { counter = s'.counter; buf = [] }, contents two_messages))
receive-send_example = receive-send open_cipher two_messages new_sealer (
  ((omega arith, omega arith, omega arith), omega arith),
  (((omega arith, omega arith, omega arith), omega arith), tt),
)

write_lem_example :
    IsTaken new (1 ∷ 2 ∷ []) (write (took 1 ∷ []) (1 ∷ 2 ∷ []) new)
    ⊎ IsRefused new (write (took 1 ∷ []) (1 ∷ 2 ∷ []) new)
write_lem_example = write_lem (took 1 ∷ []) (1 ∷ 2 ∷ []) new new-IsValid
