-- ===== src/Utf8/RoundTrip.antt =====
-- Decoding gives back a text that was encoded.
use cachy_db.Base.{
  ℕ, suc, ◌+◌, ◌-◌, ◌*◌, ◌/◌, ◌%◌, ◌≤◌, ◌<◌, ◌≡◌, refl, ap, sym, ◌∙◌, true, false, ◌&&◌,
  Option-cases, some, [], ◌∷◌, ◌++◌, ok, ltb, leb, ◌==◌, Str, arith, Bool-cases, Result-cases, inl,
  inr, All,
}
use cachy_db.Bytes.{Bytes}
use cachy_db.Utf8.{encode_char, encode, start, emit, decode_from, decode}

decode_nil : decode [] ≡ ok []
unfolding decode decode_from
decode_nil = refl

one_byte : (b : ℕ) (bs : Bytes) → b < 128 → decode (b ∷ bs) ≡ emit b (decode bs)
unfolding decode_from decode
one_byte b bs h = let e : ltb b 128 ≡ true = ground arith in rw (e, decode_from) refl

first_byte :
    (b need acc low high : ℕ) (bs : Bytes)
    → start b ≡ some (need, (acc, (low, high)))
    → 128 ≤ b
    → decode (b ∷ bs) ≡ decode_from need acc low high bs
unfolding decode_from decode
first_byte b need acc low high bs h k =
    let e : ltb b 128 ≡ false = ground arith in rw (e, h, decode_from) refl

inner_byte :
    (need acc low high b : ℕ) (bs : Bytes)
    → low ≤ b
    → b ≤ high
    → decode_from (suc (suc need)) acc low high (b ∷ bs)
      ≡ decode_from (suc need) (acc * 64 + (b - 128)) 128 191 bs
unfolding decode_from
inner_byte need acc low high b bs h k =
    let e : (leb low b && leb b high) ≡ true = ground arith in rw (e, decode_from) refl

last_byte :
    (acc low high b : ℕ) (bs : Bytes)
    → low ≤ b
    → b ≤ high
    → decode_from 1 acc low high (b ∷ bs) ≡ emit (acc * 64 + (b - 128)) (decode bs)
unfolding decode_from decode
last_byte acc low high b bs h k =
    let e : (leb low b && leb b high) ≡ true = ground arith in rw (e, decode_from) refl

two_bytes :
    (c : ℕ) (bs : Bytes)
    → 128 ≤ c
    → c < 2048
    → decode ((192 + c / 64) ∷ (128 + c % 64) ∷ bs) ≡ emit c (decode bs)
unfolding start
two_bytes c bs h k =
    let s : start (192 + c / 64) ≡ some (1, (c / 64, (128, 191))) = ground arith in
    let e : c / 64 * 64 + (128 + c % 64 - 128) ≡ c = omega arith in
    first_byte (192 + c / 64) 1 (c / 64) 128 191 ((128 + c % 64) ∷ bs) s (omega arith)
    ∙ (last_byte (c / 64) 128 191 (128 + c % 64) bs (omega arith) (omega arith)
        ∙ ap (λ x. emit x (decode bs)) e)

-- The range of the second byte after the first one of three.
data Second3 (c : ℕ) : Type 0 where
  range3 :
      (acc low high : ℕ)
      → start (224 + c / 4096) ≡ some (2, (acc, (low, high)))
      → acc ≡ c / 4096
      → low ≤ 128 + c / 64 % 64
      → 128 + c / 64 % 64 ≤ high
      → Second3 c

second3 : (c : ℕ) → 2048 ≤ c → (leb 55296 c && ltb c 57344) ≡ false → c < 65536 → Second3 c
unfolding start
second3 c h s k = elim (Bool-cases (c / 4096 == 0)) [
  | inl e ↦ range3 0 160 191 (ground arith) (ground arith) (ground arith) (omega arith)
  | inr e ↦ elim (Bool-cases (c / 4096 == 13)) [
    | inl d ↦ range3 13 128 159 (ground arith) (ground arith) (omega arith) (ground arith)
    | inr d ↦ range3 (c / 4096) 128 191 (ground arith) refl (omega arith) (omega arith)
  ]
]

three_bytes :
    (c : ℕ) (bs : Bytes)
    → Second3 c
    → c < 65536
    → decode ((224 + c / 4096) ∷ (128 + c / 64 % 64) ∷ (128 + c % 64) ∷ bs) ≡ emit c (decode bs)
three_bytes c bs (range3 acc low high s a l m) k =
    let b₁ = 128 + c / 64 % 64 in
    let b₂ = 128 + c % 64 in
    let e : (acc * 64 + (b₁ - 128)) * 64 + (b₂ - 128) ≡ c = omega arith in
    first_byte (224 + c / 4096) 2 acc low high (b₁ ∷ b₂ ∷ bs) s (omega arith)
    ∙ (inner_byte 0 acc low high b₁ (b₂ ∷ bs) l m
        ∙ (last_byte (acc * 64 + (b₁ - 128)) 128 191 b₂ bs (omega arith) (omega arith)
            ∙ ap (λ x. emit x (decode bs)) e))

data Second4 (c : ℕ) : Type 0 where
  range4 :
      (acc low high : ℕ)
      → start (240 + c / 262144) ≡ some (3, (acc, (low, high)))
      → acc ≡ c / 262144
      → low ≤ 128 + c / 4096 % 64
      → 128 + c / 4096 % 64 ≤ high
      → Second4 c

second4 : (c : ℕ) → 65536 ≤ c → c < 1114112 → Second4 c
unfolding start
second4 c h k = elim (Bool-cases (c / 262144 == 0)) [
  | inl e ↦ range4 0 144 191 (ground arith) (ground arith) (ground arith) (omega arith)
  | inr e ↦ elim (Bool-cases (c / 262144 == 4)) [
    | inl d ↦ range4 4 128 143 (ground arith) (ground arith) (omega arith) (ground arith)
    | inr d ↦ range4 (c / 262144) 128 191 (ground arith) refl (omega arith) (omega arith)
  ]
]

four_bytes :
    (c : ℕ) (bs : Bytes)
    → Second4 c
    → c < 1114112
    → decode
        ((240 + c / 262144) ∷ (128 + c / 4096 % 64) ∷ (128 + c / 64 % 64) ∷ (128 + c % 64) ∷ bs)
      ≡ emit c (decode bs)
four_bytes c bs (range4 acc low high s a l m) k =
    let b₁ = 128 + c / 4096 % 64 in
    let b₂ = 128 + c / 64 % 64 in
    let b₃ = 128 + c % 64 in
    let acc₁ = acc * 64 + (b₁ - 128) in
    let acc₂ = acc₁ * 64 + (b₂ - 128) in
    let e : acc₂ * 64 + (b₃ - 128) ≡ c = omega arith in
    first_byte (240 + c / 262144) 3 acc low high (b₁ ∷ b₂ ∷ b₃ ∷ bs) s (omega arith)
    ∙ (inner_byte 1 acc low high b₁ (b₂ ∷ b₃ ∷ bs) l m
        ∙ (inner_byte 0 acc₁ 128 191 b₂ (b₃ ∷ bs) (omega arith) (omega arith)
            ∙ (last_byte acc₂ 128 191 b₃ bs (omega arith) (omega arith)
                ∙ ap (λ x. emit x (decode bs)) e)))

decode-encode_char :
    (c : ℕ) (b bs : Bytes) → encode_char c ≡ some b → decode (b ++ bs) ≡ emit c (decode bs)
unfolding encode_char
decode-encode_char c b bs h = elim (Bool-cases (ltb c 128)) [
  | inl e₁ ↦
      let p : c ∷ [] ≡ b = ground (arith, h, e₁) in
      ap (λ x. decode (x ++ bs)) (sym p) ∙ one_byte c bs (ground arith)
  | inr e₁ ↦ elim (Bool-cases (ltb c 2048)) [
    | inl e₂ ↦
        let p : (192 + c / 64) ∷ (128 + c % 64) ∷ [] ≡ b = ground (arith, h, e₁, e₂) in
        ap (λ x. decode (x ++ bs)) (sym p) ∙ two_bytes c bs (ground arith) (ground arith)
    | inr e₂ ↦ elim (Bool-cases (leb 55296 c && ltb c 57344)) [
      | inl e₃ ↦ absurd (ground (arith, h, e₁, e₂, e₃))
      | inr e₃ ↦ elim (Bool-cases (ltb c 65536)) [
        | inl e₄ ↦
            let p : (224 + c / 4096) ∷ (128 + c / 64 % 64) ∷ (128 + c % 64) ∷ [] ≡ b =
              ground (arith, h, e₁, e₂, e₃, e₄) in
            ap (λ x. decode (x ++ bs)) (sym p)
            ∙ three_bytes c bs (second3 c (ground arith) e₃ (ground arith)) (ground arith)
        | inr e₄ ↦ elim (Bool-cases (ltb c 1114112)) [
          | inl e₅ ↦
              let p : (240 + c / 262144)
                    ∷ (128 + c / 4096 % 64)
                    ∷ (128 + c / 64 % 64)
                    ∷ (128 + c % 64)
                    ∷ []
                  ≡ b =
                ground (arith, h, e₁, e₂, e₃, e₄, e₅) in
              ap (λ x. decode (x ++ bs)) (sym p)
              ∙ four_bytes c bs (second4 c (ground arith) (ground arith)) (ground arith)
          | inr e₅ ↦ absurd (ground (arith, h, e₁, e₂, e₃, e₄, e₅))
        ]
      ]
    ]
  ]
]

-- Decoding what a text was encoded to gives the text back: every text without a surrogate, whatever
-- the width of its characters.
pub decode-encode : (s : Str) (b : Bytes) → encode s ≡ ok b → decode b ≡ ok s
unfolding encode
decode-encode [] b h = let p : [] ≡ b = cc in ap decode (sym p) ∙ decode_nil
decode-encode (c ∷ s) b h = elim (Option-cases (encode_char c)) [
  | inl e ↦ absurd (ground (arith, h, e))
  | inr (x, e) ↦ elim (Result-cases (encode s)) [
    | inl (y, g) ↦
        let p : x ++ y ≡ b = ground (arith, h, e, g) in
        ap decode (sym p) ∙ (decode-encode_char c x y e ∙ ap (emit c) (decode-encode s y g))
    | inr (err, g) ↦ absurd (ground (arith, h, e, g))
  ]
]

-- A text of ASCII characters is its own encoding.
pub encode-ascii : (s : Str) → All (λ c. c < 128) s → encode s ≡ ok s
unfolding encode encode_char
encode-ascii [] a = refl
encode-ascii (c ∷ s) a = let e : ltb c 128 ≡ true = ground (arith, a) in rw (e, encode-ascii s a.1)
