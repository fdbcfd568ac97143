-- ===== src/Protocol/OneByte.antt =====
-- firmware/protocol/protocol.c: a frame of which one byte has changed on the way.
use tp5_borda_rojas.Base.{
  ℕ, true, false, some, [], ◌∷◌, ◌++◌, ◌≡◌, ◌≢◌, ◌⊎◌, inl, inr, refl, sym, ap, ◌∙◌, arith, Bytes,
  NoNul, length, length-append, append-eq_split,
}
use tp5_borda_rojas.Config.{start_char, separator_char, end_char}
use tp5_borda_rojas.Protocol.Message.{Message}
use tp5_borda_rojas.Protocol.Hex.Laws.{HexPair-unique}
use tp5_borda_rojas.Protocol.Checksum.Laws.{xor_all, xor_all_one_byte}
use tp5_borda_rojas.Protocol.Decode.Laws.{IsBody-unique}
use tp5_borda_rojas.Protocol.Spec.{IsFrame}
use tp5_borda_rojas.Protocol.RoundTrip.{IsFrame-unique, accepted-IsFrame}
use tp5_borda_rojas.Protocol.Validate.{validate_frame}
use tp5_borda_rojas.Protocol.Validate.Laws.{validate_frame_lem}

-- Two lists in two parts each, the first ones of one length, that differ in one byte at most: in the
-- first part, or behind it.
data Place (xs xs' ys ys' : Bytes) (x y : ℕ) : Type 0 where
  in_front :
      (front back : Bytes)
      → xs ≡ front ++ (x ∷ back)
      → xs' ≡ front ++ (y ∷ back)
      → ys ≡ ys'
      → Place xs xs' ys ys' x y
  behind : xs ≡ xs' → Place xs xs' ys ys' x y

Place-cons :
    (c a a' : ℕ) (xs xs' ys ys' : Bytes) (x y : ℕ)
    → a ≡ c
    → a' ≡ c
    → Place xs xs' ys ys' x y
    → Place (a ∷ xs) (a' ∷ xs') ys ys' x y
Place-cons c a a' xs xs' ys ys' x y h h' (in_front front back e e' same) =
    in_front (c ∷ front) back (cc (h, e)) (cc (h', e')) same
Place-cons c a a' xs xs' ys ys' x y h h' (behind e) = behind (cc (h, h', e))

place :
    (xs xs' ys ys' front back : Bytes) (x y : ℕ)
    → length xs ≡ length xs'
    → xs ++ ys ≡ front ++ (x ∷ back)
    → xs' ++ ys' ≡ front ++ (y ∷ back)
    → Place xs xs' ys ys' x y
place [] [] ys ys' front back x y n e e' = behind refl
place [] (a' ∷ xs') ys ys' front back x y n e e' = absurd (omega (arith, n))
place (a ∷ xs) [] ys ys' front back x y n e e' = absurd (omega (arith, n))
place (a ∷ xs) (a' ∷ xs') ys ys' [] back x y n e e' =
    let rest : xs ++ ys ≡ back = cc in
    let rest' : xs' ++ ys' ≡ back = cc in
    let (same, same_end) = append-eq_split xs xs' ys ys' (omega (arith, n)) (rest ∙ sym rest') in
    in_front [] xs (cc) (cc (same, e')) same_end
place (a ∷ xs) (a' ∷ xs') ys ys' (c ∷ front) back x y n e e' =
    let rest : xs ++ ys ≡ front ++ (x ∷ back) = cc in
    let rest' : xs' ++ ys' ≡ front ++ (y ∷ back) = cc in
    Place-cons c a a' xs xs' ys ys' x y (cc) (cc)
      (place xs xs' ys ys' front back x y (omega (arith, n)) rest rest')

-- With one byte changed, a frame is no frame of another message.
pub IsFrame-one_byte :
    (front back : Bytes) (x y : ℕ) (m m' : Message)
    → IsFrame (front ++ (x ∷ back)) m
    → IsFrame (front ++ (y ∷ back)) m'
    → m ≡ m'
IsFrame-one_byte [] back x y m m' p q =
    let first : x ≡ start_char = let e = p.text in cc in
    let second : y ≡ start_char = let e = q.text in cc in
    IsFrame-unique (x ∷ back) m m' p (rw (second ∙ sym first) at q)
IsFrame-one_byte (c ∷ front) back x y m m' p q =
    let n : length (p.body) ≡ length (q.body) = omega (
      arith,
      ap length p.text,
      ap length q.text,
      length-append front (x ∷ back),
      length-append front (y ∷ back),
      length-append p.body (separator_char ∷ p.check_hi ∷ p.check_lo ∷ end_char ∷ []),
      length-append q.body (separator_char ∷ q.check_hi ∷ q.check_lo ∷ end_char ∷ []),
    ) in
    let first = p.len_hi ∷ p.len_lo ∷ separator_char ∷ p.body in
    let second = q.len_hi ∷ q.len_lo ∷ separator_char ∷ q.body in
    let same_message : p.body ≡ q.body → m ≡ m' =
      λ e. IsBody-unique q.body m m' (rw e at (p.is_body)) (q.is_body) in
    let text = p.text in
    let text' = q.text in
    elim (place first second (separator_char ∷ p.check_hi ∷ p.check_lo ∷ end_char ∷ [])
      (separator_char ∷ q.check_hi ∷ q.check_lo ∷ end_char ∷ []) front back x y (omega (arith, n))
      (cc) (cc)) [
        | behind e ↦ let bodies : p.body ≡ q.body = cc in same_message bodies
        | in_front f b e e' same ↦
            let hi : p.check_hi ≡ q.check_hi = cc in
            let lo : p.check_lo ≡ q.check_lo = cc in
            let sums =
              HexPair-unique q.check_hi q.check_lo (xor_all 0 first) (xor_all 0 second)
                (rw (hi, lo) at (p.check)) (q.check) in
            let bytes : x ≡ y =
              xor_all_one_byte f b x y 0 (sym (ap (xor_all 0) e) ∙ sums ∙ ap (xor_all 0) e') in
            let bodies : p.body ≡ q.body = cc in same_message bodies
      ]

NoNul-one_byte :
    (front back : Bytes) (x y : ℕ)
    → y ≢ 0
    → NoNul (front ++ (x ∷ back))
    → NoNul (front ++ (y ∷ back))
NoNul-one_byte [] back x y ne h = (ne, h.1)
NoNul-one_byte (c ∷ front) back x y ne h = (h.0, NoNul-one_byte front back x y ne h.1)

-- Where `protocol_validate_frame` accepts a string of bytes as a message, and one of its bytes,
-- whichever, is replaced by another, which is not `0`, then the string is refused and nothing is
-- stored, or it is accepted as the same message (as where a digit of the checksum only changes its
-- case): never as another message.
pub validate_frame-one_byte :
    (front back : Bytes) (x y : ℕ) (m old old' : Message)
    → NoNul (front ++ (x ∷ back))
    → y ≢ 0
    → validate_frame (some (front ++ (x ∷ back))) (some old) ≡ (true, some m)
    → (validate_frame (some (front ++ (y ∷ back))) (some old') ≡ (false, some old'))
      ⊎ (validate_frame (some (front ++ (y ∷ back))) (some old') ≡ (true, some m))
validate_frame-one_byte front back x y m old old' whole ne accepted =
    let p = accepted-IsFrame (front ++ (x ∷ back)) m old whole accepted in
    elim (validate_frame_lem (front ++ (y ∷ back)) old' (NoNul-one_byte front back x y ne whole)) [
      | inl (m', q, read) ↦ let same = IsFrame-one_byte front back x y m m' p q in inr (cc)
      | inr (refused, e) ↦ inl e
    ]
