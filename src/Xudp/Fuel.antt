-- ===== src/Xudp/Fuel.antt =====
-- engine/src/outbound/xudp.rs: the fuel of the loop of `recv` is enough.
use aurora_vpn.Prelude.{
  ℕ, zero, suc, ◌+◌, ◌<◌, ◌≡◌, refl, ap, inl, inr, Bool, ◌&&◌, not, Option, none, some, List, arith,
  ltb, leb, ◌==◌, Bool-cases, Option-cases, length, take, drop, length-drop, nat_eq, list_eq,
  pair_eq, from_be, if_intro,
}
use mathlib.Core.Path.{subst}
use aurora_vpn.Target.{Target}
use aurora_vpn.Xudp.{
  read_exact, Turn, done, more, newer, parse_meta, read_data, read_frame, recv_loop,
}

module _ (is_utf8 : List ℕ → Bool) where
  abbrev Shorter : List ℕ → Turn → Type 0
  Shorter bytes (done r) = 0 < 1
  Shorter bytes (more from rest) = length rest < length bytes

  same_rest :
      (a b c d : List ℕ) (o : Option (List ℕ × List ℕ)) → o ≡ some (a, c) → o ≡ some (b, d) → c ≡ d
  same_rest a b c d o e f = cc

  read_exact_rest :
      (n : ℕ) (bytes a rest : List ℕ)
      → read_exact n bytes ≡ some (a, rest)
      → length rest + n ≡ length bytes
  unfolding read_exact
  read_exact_rest n bytes a rest e = elim (Bool-cases (leb n (length bytes))) [
    | inl t ↦
        (let l = length-drop n bytes in
          let whole : read_exact n bytes ≡ some (take n bytes, drop n bytes) =
            rw (read_exact, t) refl in
          let m : length (drop n bytes) ≡ length rest =
            ap length
              (same_rest (take n bytes) a (drop n bytes) rest (read_exact n bytes) whole e) in
          ground arith)
    | inr t ↦ (let nothing : read_exact n bytes ≡ none = rw (read_exact, t) refl in absurd (cc))
  ]

  read_data-Shorter :
      (limit status : ℕ) (from : Target) (all bytes : List ℕ)
      → Shorter all (read_data is_utf8 limit status from bytes)
  unfolding read_data
  read_data-Shorter limit status from all bytes =
      let P : Turn → Type 0 = Shorter all in
      elim (Option-cases (read_exact 2 bytes)) [
        | inl e ↦ rw (read_data, e) (omega arith)
        | inr ((size, rest), e) ↦
            rw (read_data, e)
              (if_intro P (ltb limit (from_be size)) _ _ (λ t. omega arith)
                (λ t. elim (Option-cases (read_exact (from_be size) rest)) [
                  | inl f ↦ rw (f) (omega arith)
                  | inr ((datagram, behind), f) ↦
                      rw (f) (if_intro P (status == 3) _ _ (λ t. omega arith) (λ t. omega arith))
                ]))
      ]

  read_frame-Shorter :
      (limit : ℕ) (last : Target) (bytes : List ℕ)
      → Shorter bytes (read_frame is_utf8 limit last bytes)
  unfolding read_frame
  read_frame-Shorter limit last bytes =
      let P : Turn → Type 0 = Shorter bytes in
      elim (Option-cases (read_exact 2 bytes)) [
        | inl e ↦ rw (read_frame, e) (omega arith)
        | inr ((size, rest), e) ↦
            rw (read_frame, e)
              (if_intro P (not (leb 4 (from_be size) && leb (from_be size) 512)) _ _
                (λ t. omega arith)
                (λ t. elim (Option-cases (read_exact (from_be size) rest)) [
                  | inl f ↦ rw (f) (omega arith)
                  | inr ((meta, behind), f) ↦
                      (let l1 = read_exact_rest 2 bytes size rest e in
                        let l2 = read_exact_rest (from_be size) rest meta behind f in
                        elim (Option-cases (parse_meta is_utf8 meta)) [
                          | inl g ↦ rw (f, g) (omega arith)
                          | inr (m, g) ↦
                              rw (f, g)
                                (if_intro P m.has_data _ _
                                  (λ t.
                                    read_data-Shorter limit m.status (newer m.from last) bytes
                                      behind)
                                  (λ t.
                                    if_intro P (m.status == 3) _ _ (λ y. omega arith)
                                      (λ y. omega arith)))
                        ])
                ]))
      ]

  -- The fuel of `recv` is enough: with any other that is more than the bytes the loop gives the same.
  pub recv_loop_enough :
      (fuel other limit : ℕ) (last : Target) (bytes : List ℕ)
      → length bytes < fuel
      → length bytes < other
      → recv_loop is_utf8 fuel limit last bytes ≡ recv_loop is_utf8 other limit last bytes
  unfolding recv_loop
  recv_loop_enough zero other limit last bytes h k = absurd (omega arith)
  recv_loop_enough (suc fuel) zero limit last bytes h k = absurd (omega arith)
  recv_loop_enough (suc fuel) (suc other) limit last bytes h k =
      go (read_frame is_utf8 limit last bytes) refl (recv_loop_enough fuel other limit)
    where
      go :
          (t : Turn)
          → read_frame is_utf8 limit last bytes ≡ t
          → ((from : Target) (rest : List ℕ)
              → length rest < fuel
              → length rest < other
              → recv_loop is_utf8 fuel limit from rest ≡ recv_loop is_utf8 other limit from rest)
          → recv_loop is_utf8 (suc fuel) limit last bytes
            ≡ recv_loop is_utf8 (suc other) limit last bytes
      go (done r) e enough = rw (recv_loop, e) refl
      go (more from rest) e enough =
          let short : Shorter bytes (more from rest) =
            subst (Shorter bytes) e (read_frame-Shorter limit last bytes) in
          rw (recv_loop, e) (enough from rest (omega arith) (omega arith))
