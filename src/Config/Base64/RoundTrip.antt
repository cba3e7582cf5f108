-- ===== src/Config/Base64/RoundTrip.antt =====
-- Encoding and then decoding.
use lazyssh.Base.{
  ℕ, ◌+◌, ◌*◌, ◌/◌, ◌%◌, ◌<◌, false, Option, some, [], ◌∷◌, Bytes, ◌≡◌, refl, ap, ◌∙◌, All, arith,
  nat_eq, nat_beq,
}
use lazyssh.Config.Base64.{
  letter, value, pad, encode, decode_group, decode_groups, strip_lines, decode,
}

abbrev pub AreBytes : Bytes → Type 0
AreBytes = All (λ b. b < 256)

value-letter : (v : ℕ) → v < 64 → value (letter v) ≡ some v
unfolding value letter
value-letter v h = ground arith

-- A letter is neither padding nor a line's end.
letter_plain :
    (v : ℕ)
    → v < 64
    → (nat_beq (letter v) pad ≡ false)
      × (nat_beq (letter v) 10 ≡ false)
      × (nat_beq (letter v) 13 ≡ false)
unfolding letter
letter_plain v h = (ground arith, ground arith, ground arith)

strip_letter : (v : ℕ) (s : Bytes) → v < 64 → strip_lines (letter v ∷ s) ≡ letter v ∷ strip_lines s
unfolding strip_lines
strip_letter v s h = ground (arith, letter_plain v h)

strip_lines-encode : (bs : Bytes) → AreBytes bs → strip_lines (encode bs) ≡ encode bs
unfolding encode
strip_lines-encode [] h = unfold strip_lines in refl
strip_lines-encode (a ∷ []) (ha, _) =
    rw (strip_letter (a / 4) _ (omega arith), strip_letter (a % 4 * 16) _ (omega arith))
      (unfold strip_lines in refl)
strip_lines-encode (a ∷ b ∷ []) (ha, (hb, _)) =
    rw
      (
        strip_letter (a / 4) _ (omega arith),
        strip_letter (a % 4 * 16 + b / 16) _ (omega arith),
        strip_letter (b % 16 * 4) _ (omega arith),
      )
      (unfold strip_lines in refl)
strip_lines-encode (a ∷ b ∷ c ∷ bs) (ha, (hb, (hc, h))) = rw (
  strip_letter (a / 4) _ (omega arith),
  strip_letter (a % 4 * 16 + b / 16) _ (omega arith),
  strip_letter (b % 16 * 4 + c / 64) _ (omega arith),
  strip_letter (c % 64) _ (omega arith),
  strip_lines-encode bs h,
)

-- Four letters make three bytes, at the end of the text and before more of it.
group_end :
    (x y z w : ℕ) (more : Option Bytes)
    → x < 64
    → y < 64
    → z < 64
    → w < 64
    → decode_group (letter x) (letter y) (letter z) (letter w) [] more
      ≡ some ((x * 4 + y / 16) ∷ (y % 16 * 16 + z / 4) ∷ (z % 4 * 64 + w) ∷ [])
unfolding decode_group
group_end x y z w more hx hy hz hw = rw (
  (letter_plain w hw).0,
  value-letter x hx,
  value-letter y hy,
  value-letter z hz,
  value-letter w hw,
)

group_more :
    (x y z w t : ℕ) (ts bs : Bytes)
    → x < 64
    → y < 64
    → z < 64
    → w < 64
    → decode_group (letter x) (letter y) (letter z) (letter w) (t ∷ ts) (some bs)
      ≡ some ((x * 4 + y / 16) ∷ (y % 16 * 16 + z / 4) ∷ (z % 4 * 64 + w) ∷ bs)
unfolding decode_group
group_more x y z w t ts bs hx hy hz hw =
    rw (value-letter x hx, value-letter y hy, value-letter z hz, value-letter w hw)

encode_nil : encode [] ≡ []
unfolding encode
encode_nil = refl

decode_groups_step :
    (a b c : ℕ) (bs : Bytes)
    → decode_groups (encode (a ∷ b ∷ c ∷ bs))
      ≡ decode_group
          (letter (a / 4))
          (letter (a % 4 * 16 + b / 16))
          (letter (b % 16 * 4 + c / 64))
          (letter (c % 64))
          (encode bs)
          (decode_groups (encode bs))
unfolding decode_groups encode
decode_groups_step a b c bs = refl

encode-cons : (d : ℕ) (ds : Bytes) → (t : ℕ) × (ts : Bytes) × (encode (d ∷ ds) ≡ t ∷ ts)
unfolding encode
encode-cons d [] = (letter (d / 4), _, refl)
encode-cons d (e ∷ []) = (letter (d / 4), _, refl)
encode-cons d (e ∷ f ∷ ds) = (letter (d / 4), _, refl)

three_bytes :
    (a b c : ℕ) (bs : Bytes)
    → a < 256
    → b < 256
    → c < 256
    → let x = a / 4 in
      let y = a % 4 * 16 + b / 16 in
      let z = b % 16 * 4 + c / 64 in
      let w = c % 64 in
      ◌≡◌ {A = Bytes}
        ((x * 4 + y / 16) ∷ (y % 16 * 16 + z / 4) ∷ (z % 4 * 64 + w) ∷ bs)
        (a ∷ b ∷ c ∷ bs)
three_bytes a b c bs ha hb hc = ground arith

group_of_three :
    (a b c : ℕ) (bs : Bytes)
    → a < 256
    → b < 256
    → c < 256
    → decode_group
        (letter (a / 4))
        (letter (a % 4 * 16 + b / 16))
        (letter (b % 16 * 4 + c / 64))
        (letter (c % 64))
        (encode bs)
        (some bs)
      ≡ some (a ∷ b ∷ c ∷ bs)
group_of_three a b c [] ha hb hc = rw encode_nil (
    group_end (a / 4) (a % 4 * 16 + b / 16) (b % 16 * 4 + c / 64) (c % 64) (some []) (omega arith)
      (omega arith) (omega arith) (omega arith)
    ∙ ap (λ l. some l) (three_bytes a b c [] ha hb hc))
group_of_three a b c (d ∷ ds) ha hb hc =
    let (t, ts, e) = encode-cons d ds in
    rw e (
      group_more (a / 4) (a % 4 * 16 + b / 16) (b % 16 * 4 + c / 64) (c % 64) t ts (d ∷ ds)
        (omega arith) (omega arith) (omega arith) (omega arith)
      ∙ ap (λ l. some l) (three_bytes a b c (d ∷ ds) ha hb hc))

decode_groups-encode : (bs : Bytes) → AreBytes bs → decode_groups (encode bs) ≡ some bs
decode_groups-encode [] h = unfold decode_groups encode in refl
decode_groups-encode (a ∷ []) (ha, _) =
    unfold decode_groups encode in
    rw (value-letter (a / 4) (omega arith), value-letter (a % 4 * 16) (omega arith)) (ground arith)
decode_groups-encode (a ∷ b ∷ []) (ha, (hb, _)) =
    unfold decode_groups encode in
    rw
      (
        (letter_plain (b % 16 * 4) (omega arith)).0,
        value-letter (a / 4) (omega arith),
        value-letter (a % 4 * 16 + b / 16) (omega arith),
        value-letter (b % 16 * 4) (omega arith),
      )
      (ground arith)
decode_groups-encode (a ∷ b ∷ c ∷ bs) (ha, (hb, (hc, h))) =
    rw (decode_groups_step a b c bs, decode_groups-encode bs h) (group_of_three a b c bs ha hb hc)

-- Every sequence of bytes is read back from its encoding.
pub decode-encode : (bs : Bytes) → AreBytes bs → decode (encode bs) ≡ some bs
decode-encode bs h = unfold decode in rw (strip_lines-encode bs h) (decode_groups-encode bs h)
