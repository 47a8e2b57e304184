-- ===== src/Server/Certs/Names/Digests.antt =====
-- The text of a digest: its length, and that it tells digests apart.
use libnetconf.Common.{
  ℕ, ◌+◌, ◌*◌, ◌/◌, ◌%◌, ◌<◌, ◌≡◌, refl, sym, ap, ◌∙◌, true, [], ◌∷◌, map, All, some, take, drop,
  subst, length, arith,
}
use libnetconf.Common.Bytes.{Bytes, bytes_eq→eq}
use libnetconf.Server.Certs.Names.{hex_digit, hex_byte, hex_more, digest_to_str, lower, case_eq}

abbrev pub IsByte : ℕ → Type 0
IsByte b = b < 256

length-hex_more : (b : ℕ) (bs : Bytes) → length (hex_more b bs) + 1 ≡ 3 * (length bs + 1)
unfolding hex_more
length-hex_more b [] = refl
length-hex_more b (c ∷ cs) = omega (arith, length-hex_more c cs)

-- For a digest of at least one byte, the text and its terminating zero fill the 3 bytes for each
-- byte of the digest that digest_to_str allocates.
pub length-digest_to_str : (d t : Bytes) → digest_to_str d ≡ some t → length t + 1 ≡ 3 * length d
unfolding digest_to_str
length-digest_to_str [] t h = cc
length-digest_to_str (b ∷ bs) t h = ground (arith, length-hex_more b bs)

abbrev head_or : ℕ → Bytes → ℕ
head_or d [] = d
head_or d (c ∷ cs) = c

hex_digit_inj : (m n : ℕ) → m < 16 → n < 16 → hex_digit m ≡ hex_digit n → m ≡ n
hex_digit_inj m n p q h = ground arith

lower-hex_digit : (n : ℕ) → n < 16 → lower (hex_digit n) ≡ hex_digit n
lower-hex_digit n h = ground arith

lower-hex_more :
    (b : ℕ) (bs : Bytes) → All IsByte (b ∷ bs) → map lower (hex_more b bs) ≡ hex_more b bs
unfolding hex_more
lower-hex_more b [] h =
    rw (lower-hex_digit (b / 16) (omega arith), lower-hex_digit (b % 16) (omega arith))
lower-hex_more b (c ∷ cs) h = rw (
  lower-hex_digit (b / 16) (omega arith),
  lower-hex_digit (b % 16) (omega arith),
  lower-hex_more c cs h.1,
)

hex_byte_inj : (b c : ℕ) → b < 256 → c < 256 → hex_byte b ≡ hex_byte c → b ≡ c
hex_byte_inj b c h k e =
    let high : b / 16 ≡ c / 16 =
      hex_digit_inj (b / 16) (c / 16) (omega arith) (omega arith) (ap (head_or 0) e) in
    let low : b % 16 ≡ c % 16 =
      hex_digit_inj (b % 16) (c % 16) (omega arith) (omega arith)
        (ap (λ s. head_or 0 (drop 1 s)) e) in
    omega arith

hex_more_inj :
    (b c : ℕ) (bs cs : Bytes)
    → All IsByte (b ∷ bs)
    → All IsByte (c ∷ cs)
    → hex_more b bs ≡ hex_more c cs
    → ◌≡◌ {A = Bytes} (b ∷ bs) (c ∷ cs)
unfolding hex_more
hex_more_inj b c [] [] h k e = ap (λ x. x ∷ []) (hex_byte_inj b c h.0 k.0 e)
hex_more_inj b c [] (c' ∷ cs) h k e = cc
hex_more_inj b c (b' ∷ bs) [] h k e = cc
hex_more_inj b c (b' ∷ bs) (c' ∷ cs) h k e =
    let heads : b ≡ c = hex_byte_inj b c h.0 k.0 (ap (take 2) e) in
    let tails : ◌≡◌ {A = Bytes} (b' ∷ bs) (c' ∷ cs) =
      hex_more_inj b' c' bs cs h.1 k.1 (ap (drop 3) e) in
    cc

lower-digest_to_str : (d t : Bytes) → All IsByte d → digest_to_str d ≡ some t → map lower t ≡ t
unfolding digest_to_str
lower-digest_to_str [] t h e = cc
lower-digest_to_str (b ∷ bs) t h e = subst (λ x. map lower x ≡ x) (cc) (lower-hex_more b bs h)

digest_to_str_inj :
    (d d' t : Bytes)
    → All IsByte d
    → All IsByte d'
    → digest_to_str d ≡ some t
    → digest_to_str d' ≡ some t
    → d ≡ d'
unfolding digest_to_str
digest_to_str_inj [] d' t h k e f = cc
digest_to_str_inj (b ∷ bs) [] t h k e f = cc
digest_to_str_inj (b ∷ bs) (c ∷ cs) t h k e f = hex_more_inj b c bs cs h k (cc)

-- A fingerprint that equals the texts of two digests, letters of either case being the same, is
-- that of one digest: a cert-to-name entry does not match two certificates of different digests.
pub case_eq-digest_to_str :
    (f d d' t t' : Bytes)
    → All IsByte d
    → All IsByte d'
    → digest_to_str d ≡ some t
    → digest_to_str d' ≡ some t'
    → case_eq f t ≡ true
    → case_eq f t' ≡ true
    → d ≡ d'
unfolding case_eq
case_eq-digest_to_str f d d' t t' h k e e' m m' =
    let same : map lower t ≡ map lower t' =
      sym (bytes_eq→eq (map lower f) (map lower t) m)
      ∙ bytes_eq→eq (map lower f) (map lower t') m' in
    let texts : t ≡ t' =
      sym (lower-digest_to_str d t h e) ∙ same ∙ lower-digest_to_str d' t' k e' in
    digest_to_str_inj d d' t h k e (cc)
