-- ===== src/Veil/Ru/Domains.antt =====
-- veil/src/ru.rs: the Russian domains, and that the server's test is the router's search by suffix.
use aurora_vpn.Prelude.{
  ℕ, zero, suc, ◌-◌, ◌≡◌, refl, ap, ◌∙◌, inl, inr, Bool, true, false, ◌&&◌, ◌||◌, List, [], ◌∷◌,
  arith, ltb, leb, ◌==◌, if◌then◌else◌, ==_iff, tests, Bool-cases, length, drop, nat_eq, list_beq,
  list_beq_iff, list_eq, pair_eq, byte_at,
}
use Prim.Native.Char.{code}
use Prim.Native.String.{String}
use aurora_vpn.Router.{Text, member, any_member, parents, suffix_matches}

abbrev codes : String → List ℕ
codes String.[] = []
codes (String.◌∷◌ c s) = code c ∷ codes s

unfoldable pub suffixes : List Text
suffixes =
    codes "ru"
    ∷ codes "su"
    ∷ codes "xn--p1ai"
    ∷ codes "xn--d1acj3b"
    ∷ codes "xn--80adxhks"
    ∷ codes "moscow"
    ∷ codes "tatar"
    ∷ codes "yandex.net"
    ∷ codes "yandex.com"
    ∷ codes "yandex.cloud"
    ∷ codes "yastatic.net"
    ∷ codes "yandexcloud.net"
    ∷ codes "ya.cc"
    ∷ codes "vk.com"
    ∷ codes "vk.me"
    ∷ codes "vk.link"
    ∷ codes "vkontakte.com"
    ∷ codes "userapi.com"
    ∷ codes "vkuser.net"
    ∷ codes "vkuseraudio.net"
    ∷ codes "vkuservideo.net"
    ∷ codes "vk-portal.net"
    ∷ codes "vk-cdn.net"
    ∷ codes "mycdn.me"
    ∷ codes "my.com"
    ∷ codes "mradx.net"
    ∷ codes "avito.st"
    ∷ codes "2gis.com"
    ∷ codes "okko.tv"
    ∷ codes "ivi.tv"
    ∷ []

-- `trim_end_matches('.')`
unfoldable pub trim_end : Text → Text
trim_end [] = []
trim_end (c ∷ t) = let rest = trim_end t in if c == 46 && is_nil rest then [] else c ∷ rest
  where
    is_nil : Text → Bool
    is_nil [] = true
    is_nil (x ∷ xs) = false

abbrev pub ends_with : Text → Text → Bool
ends_with s d = leb (length s) (length d) && list_beq ◌==◌ (drop (length d - length s) d) s

-- A longer name that ends in the suffix behind a dot.
unfoldable pub below : Text → Text → Bool
below d s = ltb (length s) (length d) && ends_with s d && byte_at d (length d - length s - 1) == 46

abbrev pub any_suffix : (Text → Bool) → List Text → Bool
any_suffix p [] = false
any_suffix p (s ∷ ss) = p s || any_suffix p ss

unfoldable pub is_ru_domain : Text → Bool
unfolding trim_end below suffixes
is_ru_domain domain =
    let d = trim_end domain in any_suffix (λ s. list_beq ◌==◌ d s || below d s) suffixes

beq_sym : (a b : Text) → list_beq ◌==◌ a b ≡ list_beq ◌==◌ b a
beq_sym a b = ground (arith, list_beq_iff nat_eq a b, list_beq_iff nat_eq b a)

beq_length : (a b : Text) → list_beq ◌==◌ a b ≡ true → length a ≡ length b
beq_length a b e = ap length ((list_beq_iff nat_eq a b).0 e)

-- A longer name: it ends in the suffix at once, or its tail stands below the suffix.
below_cons : (c : ℕ) (t s : Text) → below (c ∷ t) s ≡ (c == 46 && list_beq ◌==◌ t s || below t s)
unfolding below
below_cons c t s =
    let short = beq_length t s in
    elim (Bool-cases (ltb (length s) (length t))) [
      | inl lt ↦
          (let e1 : suc (length t) - length s ≡ suc (length t - length s) = omega tests in
            let e2 : suc (length t - length s) - 1 ≡ suc (length t - length s - 1) = omega tests in
            let b1 : ltb (length s) (suc (length t)) ≡ true = ground arith in
            let b2 : leb (length s) (suc (length t)) ≡ true = ground arith in
            let b3 : leb (length s) (length t) ≡ true = ground arith in
            let ne : list_beq ◌==◌ t s ≡ false = ground arith in
            rw (below, e1, e2, b1, b2, b3, lt, ne)
              (or_false (c == 46) (
                list_beq ◌==◌ (drop (length t - length s) t) s
                && byte_at t (length t - length s - 1) == 46)))
      | inr ge ↦ elim (Bool-cases (length s == length t)) [
        | inl eq ↦
            (let same : length s ≡ length t = (==_iff (length s) (length t)).0 eq in
              let e1 : suc (length t) - length s ≡ suc zero = omega arith in
              let e2 : suc zero - 1 ≡ zero = omega arith in
              let b1 : ltb (length s) (suc (length t)) ≡ true = ground arith in
              let b2 : leb (length s) (suc (length t)) ≡ true = ground arith in
              rw (below, e1, e2, b1, b2, ge) (swap (list_beq ◌==◌ t s) (c == 46)))
        | inr ne ↦
            (let b1 : ltb (length s) (suc (length t)) ≡ false = ground arith in
              let no : list_beq ◌==◌ t s ≡ false = ground arith in
              rw (below, b1, ge, no) (and_false (c == 46)))
      ]
    ]
  where
    or_false : (a b : Bool) → b ≡ (a && false || b)
    or_false a b = ground arith

    swap : (a b : Bool) → (a && b) ≡ (b && a || false)
    swap a b = ground arith

    and_false : (a : Bool) → false ≡ (a && false || false)
    and_false a = ground arith

below_empty : (s : Text) → below [] s ≡ false
unfolding below
below_empty s = ground arith

-- What stands below a suffix is what has it among its parents.
below-parents : (d s : Text) → below d s ≡ member s (parents d)
below-parents [] s = below_empty s
below-parents (c ∷ t) s =
    below_cons c t s
    ∙ ap (λ b. c == 46 && list_beq ◌==◌ t s || b) (below-parents t s)
    ∙ if_member (c == 46)
  where
    if_member :
        (b : Bool)
        → (b && list_beq ◌==◌ t s || member s (parents t))
          ≡ member s (if b then t ∷ parents t else parents t)
    if_member true = refl
    if_member false = refl

-- The two orders of a search for a common text.
any_suffix-member : (ts ss : List Text) → any_suffix (λ s. member s ts) ss ≡ any_member ts ss
any_suffix-member [] [] = refl
any_suffix-member [] (s ∷ ss) = any_suffix-member [] ss
any_suffix-member (t ∷ ts) ss = split t ts ss ∙ ap (λ b. member t ss || b) (any_suffix-member ts ss)
  where
    split :
        (t : Text) (ts ss : List Text)
        → any_suffix (λ s. member s (t ∷ ts)) ss ≡ (member t ss || any_suffix (λ s. member s ts) ss)
    split t ts [] = refl
    split t ts (s ∷ ss) = let ih = split t ts ss in let e = beq_sym t s in ground arith

any_suffix_ext :
    (p q : Text → Bool) (ss : List Text)
    → ((s : Text) → p s ≡ q s)
    → any_suffix p ss ≡ any_suffix q ss
any_suffix_ext p q [] h = refl
any_suffix_ext p q (s ∷ ss) h = rw (h s, any_suffix_ext p q ss h) refl

-- The server's test for a Russian domain says what the router's search by suffix says of the name
-- without the dots at its end, with the same list.
pub is_ru_domain-suffix_matches :
    (domain : Text) → is_ru_domain domain ≡ suffix_matches suffixes (trim_end domain)
unfolding is_ru_domain suffix_matches
is_ru_domain-suffix_matches domain =
    let d = trim_end domain in
    any_suffix_ext (λ s. list_beq ◌==◌ d s || below d s) (λ s. member s (d ∷ parents d)) suffixes
      (λ s. ap (λ b. list_beq ◌==◌ d s || b) (below-parents d s))
    ∙ any_suffix-member (d ∷ parents d) suffixes
