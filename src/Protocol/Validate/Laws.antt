-- ===== src/Protocol/Validate/Laws.antt =====
-- firmware/protocol/protocol.c: `protocol_validate_frame` against the frames of docs/PROTOCOL.md.
use tp5_borda_rojas.Base.{
  ℕ, ◌+◌, ◌≤◌, Bool, true, false, Option, some, ◌∷◌, ◌≡◌, ◌⊎◌, inl, inr, refl, sym, ap, ◌∙◌, arith,
  Bytes, NoNul, length, take, drop, length-append, length-drop, strlen-NoNul, Option-cases,
}
use tp5_borda_rojas.Config.{start_char, separator_char, end_char, max_body_size}
use tp5_borda_rojas.Protocol.Message.{Message, type_to_text}
use tp5_borda_rojas.Protocol.Message.Laws.{length-type_to_text}
use tp5_borda_rojas.Protocol.Spec.{IsBody, IsFrame}
use tp5_borda_rojas.Protocol.Decode.{decode_body}
use tp5_borda_rojas.Protocol.Decode.Laws.{decode_body_lem}
use tp5_borda_rojas.Protocol.Validate.{checked_body_length, validate_frame}
use tp5_borda_rojas.Protocol.Validate.Shape.{
  Passed, Around, Framed, around, checked_body_length-Passed, Passed-checked_body_length,
  Around-of_length, length-around, Passed-Framed, Framed-Passed, take-drop-around,
}

Framed-IsFrame :
    (a b c d : ℕ) (body : Bytes) (w x y z : ℕ) (m : Message)
    → Framed a b c d body w x y z
    → IsBody body m
    → IsFrame (around a b c d body w x y z) m
Framed-IsFrame a b c d body w x y z m q k = record {
  len_hi = b;
  len_lo = c;
  body = body;
  check_hi = x;
  check_lo = y;
  text = rw (q.start, q.first, q.second, q.last);
  len = q.len;
  check = rw q.first at q.check;
  is_body = k;
}

-- A body has its four bytes, and no more than LL may say.
pub IsBody-bounds :
    (body : Bytes) (m : Message) → IsBody body m → (4 ≤ length body) × (length body ≤ max_body_size)
IsBody-bounds body m k = omega (
  arith,
  ap length k.text,
  k.fits,
  length-append (type_to_text m.type) (separator_char ∷ m.payload),
  length-type_to_text m.type,
)

IsFrame-Framed :
    (f : Bytes) (m : Message) (q : IsFrame f m)
    → Framed start_char q.len_hi q.len_lo separator_char q.body separator_char q.check_hi q.check_lo
        end_char
IsFrame-Framed f m q = record {
  at_least = (IsBody-bounds q.body m q.is_body).0;
  at_most = (IsBody-bounds q.body m q.is_body).1;
  start = refl;
  first = refl;
  second = refl;
  last = refl;
  len = q.len;
  check = q.check;
}

module _ (f : Bytes) (whole : NoNul f) where
  -- The checks pass on every frame, with the length of its body.
  checked_of_IsFrame :
      (m : Message) (q : IsFrame f m) → checked_body_length f ≡ some (length q.body)
  checked_of_IsFrame m q = rw q.text (
      Passed-checked_body_length _ (length q.body)
        (Framed-Passed _ _ _ _ q.body _ _ _ _ (rw q.text at whole) (IsFrame-Framed f m q)))

-- The two outcomes of `protocol_validate_frame`.
abbrev pub Verdict : Bytes → Message → Bool × Option Message → Type 0
Verdict f old r =
    ((m : Message) × IsFrame f m × (r ≡ (true, some m)))
    ⊎ (((m : Message) → ¬ IsFrame f m) × (r ≡ (false, some old)))

validate_frame_checked :
    (f : Bytes) (old : Message) (n : ℕ)
    → checked_body_length f ≡ some n
    → validate_frame (some f) (some old) ≡ decode_body (some (drop 4 f)) n (some old)
unfolding validate_frame
validate_frame_checked f old n e = rw (e, validate_frame)

-- Once the checks have passed, all depends on the body.
Verdict-checked :
    (f : Bytes) (old : Message) (n : ℕ)
    → NoNul f
    → Passed f n
    → Around f n
    → Verdict f old (decode_body (some (drop 4 f)) n (some old))
Verdict-checked f old n whole p s =
    let size' : length f ≡ n + 8 = sym (strlen-NoNul f whole) ∙ p.size in
    let inner : take n (drop 4 f) ≡ s.body =
      rw (s.text, ← s.size) (take-drop-around s.a s.b s.c s.d s.body s.w s.x s.y s.z) in
    let framed =
      Passed-Framed s.a s.b s.c s.d s.body s.w s.x s.y s.z (rw s.text at whole)
        (rw (s.text, ← s.size) at p) in
    elim (decode_body_lem (drop 4 f) n old (omega (arith, length-drop 4 f))) [
      | inl (m, body, r) ↦ inl (
        m,
        rw s.text
            (Framed-IsFrame s.a s.b s.c s.d s.body s.w s.x s.y s.z m framed (rw inner at body)),
        r,
      )
      | inr (refused, r) ↦ inr (
        λ m q.
            let same : length q.body ≡ n = omega (
              arith,
              ap length q.text,
              length-around start_char q.len_hi q.len_lo separator_char q.body separator_char
                  q.check_hi q.check_lo end_char,
            ) in
            refused m (rw (q.text, ← same) (rw take-drop-around q.is_body)),
        r,
      )
    ]

-- A string of bytes other than `0` is accepted exactly when it is a frame; the message stored is the
-- one that it is a frame of. Otherwise the result is false and the message is left as it was.
pub validate_frame_lem :
    (f : Bytes) (old : Message) → NoNul f → Verdict f old (validate_frame (some f) (some old))
validate_frame_lem f old whole = elim (Option-cases (checked_body_length f)) [
  | inl refused ↦ inr (
    λ m q. absurd (cc (refused, checked_of_IsFrame f whole m q)),
    unfold validate_frame in rw (refused, validate_frame),
  )
  | inr (n, passed) ↦
      let p = checked_body_length-Passed f n passed in
      let s = Around-of_length f n (sym (strlen-NoNul f whole) ∙ p.size) in
      rw (validate_frame_checked f old n passed) (Verdict-checked f old n whole p s)
]
