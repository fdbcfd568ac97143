-- ===== src/Parser/Stream/Lined.antt =====
-- firmware/protocol/parser.c: frames of plain text, which have one start and one end.
use tp5_borda_rojas.Base.{
  ℕ, [], ◌∷◌, ◌++◌, append_assoc, ◌≡◌, ◌≢◌, ◌∙◌, arith, Bytes, All, All-append,
}
use tp5_borda_rojas.Config.{start_char, separator_char, end_char, carriage_return}
use tp5_borda_rojas.Protocol.Message.{Message, type_to_text}
use tp5_borda_rojas.Protocol.Spec.{IsFrame}
use tp5_borda_rojas.Protocol.Hex.Laws.{HexDigit}
use tp5_borda_rojas.Parser.Stream.Laws.{NoCr}

-- Bytes that have no meaning of their own on the line.
abbrev pub IsPlainByte : ℕ → Type 0
IsPlainByte c = (c ≢ start_char) × (c ≢ end_char) × (c ≢ carriage_return)

abbrev pub IsPlain : Bytes → Type 0
IsPlain = All IsPlainByte

pub replaced :
    (P : ℕ → Type 0) (front back : Bytes) (x y : ℕ)
    → P y
    → All P (front ++ (x ∷ back))
    → All P (front ++ (y ∷ back))
replaced P [] back x y h all = (h, all.1)
replaced P (c ∷ front) back x y h all = (all.0, replaced P front back x y h all.1)

pub each : (P Q : ℕ → Type 0) (xs : Bytes) → ((c : ℕ) → P c → Q c) → All P xs → All Q xs
each P Q [] f h = tt
each P Q (x ∷ xs) f h = (f x h.0, each P Q xs f h.1)

HexDigit-IsPlainByte : (c v : ℕ) → HexDigit c v → IsPlainByte c
HexDigit-IsPlainByte c v h = (ground arith, ground arith, ground arith)

type_to_text-IsPlain : (m : Message) → IsPlain (type_to_text m.type)
unfolding type_to_text
type_to_text-IsPlain m = ground arith

-- A frame with a plain payload has no other start and no other end.
pub record Lined (f : Bytes) : Type 0 where
  pub inner : Bytes
  pub text : f ≡ start_char ∷ (inner ++ (end_char ∷ []))
  pub plain : IsPlain inner

pub IsFrame-Lined : (f : Bytes) (m : Message) → IsFrame f m → IsPlain m.payload → Lined f
IsFrame-Lined f m q plain =
    let body : IsPlain q.body = rw q.is_body.text (
      All-append IsPlainByte (type_to_text m.type) (separator_char ∷ m.payload)
        (type_to_text-IsPlain m) (omega arith, plain)) in
    record {
      inner =
          q.len_hi
          ∷ q.len_lo
          ∷ separator_char
          ∷ (q.body ++ (separator_char ∷ q.check_hi ∷ q.check_lo ∷ []));
      text = q.text ∙ rw append_assoc;
      plain = (
        HexDigit-IsPlainByte q.len_hi q.len.hi q.len.hi_digit,
        (
          HexDigit-IsPlainByte q.len_lo q.len.lo q.len.lo_digit,
          (
            omega arith,
            All-append IsPlainByte q.body _ body (
              omega arith,
              (
                HexDigit-IsPlainByte q.check_hi q.check.hi q.check.hi_digit,
                (HexDigit-IsPlainByte q.check_lo q.check.lo q.check.lo_digit, tt),
              ),
            ),
          ),
        ),
      );
    }

pub Lined-no_start :
    (f : Bytes) (k : Lined f) → All (λ c. c ≢ start_char) (k.inner ++ (end_char ∷ []))
Lined-no_start f k =
    All-append (λ c. c ≢ start_char) k.inner (end_char ∷ [])
      (each IsPlainByte (λ c. c ≢ start_char) k.inner (λ c l. l.0) k.plain) (omega arith, tt)

pub Lined-NoCr : (f : Bytes) → Lined f → NoCr f
Lined-NoCr f k = rw k.text (
  omega arith,
  All-append (λ c. c ≢ carriage_return) k.inner (end_char ∷ [])
      (each IsPlainByte (λ c. c ≢ carriage_return) k.inner (λ c l. l.2) k.plain) (omega arith, tt),
)
